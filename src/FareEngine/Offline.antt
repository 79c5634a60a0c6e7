-- ===== src/FareEngine/Offline.antt =====
-- crates/fare-engine/src/offline.rs: offline evaluation from cached reader state.
pub mod Outcome
pub mod Parity
use transit_guard.Base.{ℕ, ite}
use transit_guard.Base.Tests.{if◌then◌else◌, ltb}
use transit_guard.Base.Result.{Result, ok, err, ◌>>=◌, ◌>>◌, map_err}
use transit_guard.Base.Int.{ℤ, ◌-ℤ◌, ltb_ℤ, unsigned_abs, wrap_i64}
use transit_guard.Domain.Money.{
  Currency, Currency-discrete, Money, CmpOrdering, is_negative, checked_cmp,
}
use transit_guard.Domain.Transaction.{EventTime, FareApprovalReason, FareRejectionReason}
use transit_guard.FareEngine.Policy.{FarePolicy}
use transit_guard.FareEngine.Evaluation.{
  FareEvaluation, FareEvaluationError, FareEvaluationInput, FareEvaluationOutcome, with_outcome,
  evaluate_fare,
}

pub data OfflineSnapshotKind : Type 0 where
  fare_policy revocation_data : OfflineSnapshotKind

pub record OfflineEvaluationContext : Type 0 where
  pub policy_cached_at : EventTime
  pub maximum_policy_age_milliseconds : ℕ
  pub revocation_data_cached_at : EventTime
  pub maximum_revocation_age_milliseconds : ℕ
  pub provisional_charge_limit : Money

pub data OfflineEvaluationError : Type 0 where
  fare_evaluation : FareEvaluationError → OfflineEvaluationError
  provisional_limit_currency_mismatch : Currency → Currency → OfflineEvaluationError
  negative_provisional_limit : Money → OfflineEvaluationError
  snapshot_occurs_after_event : OfflineSnapshotKind → ℤ → ℤ → OfflineEvaluationError

pub record OfflineFareEvaluation : Type 0 where
  pub evaluation : FareEvaluation
  pub policy_age_milliseconds : ℕ
  pub revocation_data_age_milliseconds : ℕ
  pub provisional_charge_limit : Money

unfoldable pub validate_provisional_limit :
    FarePolicy → Money → Result (Unit {0}) OfflineEvaluationError
validate_provisional_limit policy limit =
    ite (Currency-discrete limit.currency policy.currency)
      (if is_negative limit
        then err (OfflineEvaluationError.negative_provisional_limit limit)
        else ok tt)
      (err
        (OfflineEvaluationError.provisional_limit_currency_mismatch policy.currency limit.currency))

-- The age is an unchecked `i64` subtraction, then `unsigned_abs`.
unfoldable pub snapshot_age :
    OfflineSnapshotKind → EventTime → EventTime → Result ℕ OfflineEvaluationError
snapshot_age snapshot cached_at event_time =
    if ltb_ℤ event_time.unix_milliseconds cached_at.unix_milliseconds
    then err (
        OfflineEvaluationError.snapshot_occurs_after_event snapshot cached_at.unix_milliseconds
          event_time.unix_milliseconds)
    else ok (unsigned_abs (wrap_i64 (event_time.unix_milliseconds -ℤ cached_at.unix_milliseconds)))

-- `if comparison == Ordering::Greater { … } else { … }`.
limited_outcome : CmpOrdering → Money → FareEvaluationOutcome
limited_outcome CmpOrdering.greater charged_amount =
    FareEvaluationOutcome.rejected FareRejectionReason.offline_limit_exceeded
limited_outcome _ charged_amount =
    FareEvaluationOutcome.approved charged_amount FareApprovalReason.offline_provisional

-- The `match evaluation.outcome()` of `apply_offline_limit`.
limit_outcome : FareEvaluationOutcome → Money → Result FareEvaluationOutcome OfflineEvaluationError
unfolding limited_outcome
limit_outcome (FareEvaluationOutcome.rejected reason) limit =
    ok (FareEvaluationOutcome.rejected reason)
limit_outcome (FareEvaluationOutcome.approved charged_amount _) limit = do
  comparison ←
      map_err
        (λ _.
          OfflineEvaluationError.provisional_limit_currency_mismatch limit.currency
            charged_amount.currency)
        (checked_cmp charged_amount limit)
  ok (limited_outcome comparison charged_amount)

unfoldable pub apply_offline_limit :
    FareEvaluation → Money → Result FareEvaluation OfflineEvaluationError
unfolding limit_outcome
apply_offline_limit evaluation limit = do
  outcome ← limit_outcome evaluation.outcome limit
  ok (with_outcome evaluation outcome)

-- The `if … else if … else` on the two ages.
unfoldable pub apply_freshness :
    OfflineEvaluationContext → ℕ → ℕ → FareEvaluation → Result FareEvaluation OfflineEvaluationError
apply_freshness context policy_age revocation_age evaluation =
    if ltb context.maximum_policy_age_milliseconds policy_age
    then ok
        (with_outcome evaluation (FareEvaluationOutcome.rejected FareRejectionReason.stale_policy))
    else if ltb context.maximum_revocation_age_milliseconds revocation_age
    then ok (
        with_outcome evaluation
          (FareEvaluationOutcome.rejected FareRejectionReason.stale_revocation_data))
    else apply_offline_limit evaluation context.provisional_charge_limit

unfoldable pub evaluate_fare_offline :
    FarePolicy
    → FareEvaluationInput
    → OfflineEvaluationContext
    → Result OfflineFareEvaluation OfflineEvaluationError
evaluate_fare_offline policy input context = do
  validate_provisional_limit policy context.provisional_charge_limit
  policy_age ←
      snapshot_age OfflineSnapshotKind.fare_policy context.policy_cached_at input.event_time
  revocation_age ←
      snapshot_age OfflineSnapshotKind.revocation_data context.revocation_data_cached_at
        input.event_time
  evaluation ← map_err OfflineEvaluationError.fare_evaluation (evaluate_fare policy input)
  decided ← apply_freshness context policy_age revocation_age evaluation
  ok (record {
    evaluation = decided;
    policy_age_milliseconds = policy_age;
    revocation_data_age_milliseconds = revocation_age;
    provisional_charge_limit = context.provisional_charge_limit;
  })

-- ===== src/FareEngine/Offline/Outcome.antt =====
-- What an offline evaluation (crates/fare-engine/src/offline.rs) makes of an online one.
use transit_guard.Base.{ℕ, ◌≡◌, refl, ◌+◌, ◌-◌, ◌≤◌, ◌<◌, arith}
use transit_guard.Base.Result.{ok}
use transit_guard.Base.Tests.{if◌then◌else◌, ltb}
use transit_guard.Base.Int.{◌≤ℤ◌, ◌<ℤ◌}
use transit_guard.Domain.Money.{Money, Currency, checked_cmp, cmp_ℤ}
use transit_guard.Domain.Transaction.{
  EventTime, IsEventTime, FareApprovalReason, FareRejectionReason,
}
use transit_guard.Domain.Transaction.Times.{millis, unsigned_abs-difference}
use transit_guard.FareEngine.Policy.{FarePolicy}
use transit_guard.FareEngine.Policy.Validity.{IsAmount}
use transit_guard.FareEngine.Evaluation.{
  FareEvaluationInput, FareEvaluation, FareEvaluationOutcome, with_outcome,
}
use transit_guard.FareEngine.Offline.{
  OfflineSnapshotKind, OfflineEvaluationContext, OfflineFareEvaluation, snapshot_age,
  apply_offline_limit, apply_freshness, limit_outcome, limited_outcome, validate_provisional_limit,
}

-- What an offline result says of the online evaluation `e` of the same input.
pub record OfflinePost (input : FareEvaluationInput) (context : OfflineEvaluationContext)
    (e : FareEvaluation) (o : OfflineFareEvaluation) : Type 0 where
  pub evidence : o.evaluation.evidence ≡ e.evidence
  pub identified :
      (o.evaluation.policy_id ≡ e.policy_id)
      × (o.evaluation.policy_version ≡ e.policy_version)
      × (o.evaluation.event_time ≡ e.event_time)
  pub policy_age :
      o.policy_age_milliseconds + millis context.policy_cached_at ≡ millis input.event_time
  pub revocation_age :
      o.revocation_data_age_milliseconds + millis context.revocation_data_cached_at
      ≡ millis input.event_time
  pub stale_policy :
      context.maximum_policy_age_milliseconds < o.policy_age_milliseconds
      → o.evaluation.outcome ≡ FareEvaluationOutcome.rejected FareRejectionReason.stale_policy
  pub stale_revocation_data :
      o.policy_age_milliseconds ≤ context.maximum_policy_age_milliseconds
      → context.maximum_revocation_age_milliseconds < o.revocation_data_age_milliseconds
      → o.evaluation.outcome
        ≡ FareEvaluationOutcome.rejected FareRejectionReason.stale_revocation_data
  pub rejection_stays :
      (reason : FareRejectionReason)
      → o.policy_age_milliseconds ≤ context.maximum_policy_age_milliseconds
      → o.revocation_data_age_milliseconds ≤ context.maximum_revocation_age_milliseconds
      → e.outcome ≡ FareEvaluationOutcome.rejected reason
      → o.evaluation.outcome ≡ FareEvaluationOutcome.rejected reason
  pub approval_within_limit :
      (amount : Money) (reason : FareApprovalReason)
      → o.policy_age_milliseconds ≤ context.maximum_policy_age_milliseconds
      → o.revocation_data_age_milliseconds ≤ context.maximum_revocation_age_milliseconds
      → e.outcome ≡ FareEvaluationOutcome.approved amount reason
      → amount.minor_units ≤ℤ context.provisional_charge_limit.minor_units
      → o.evaluation.outcome
        ≡ FareEvaluationOutcome.approved amount FareApprovalReason.offline_provisional
  pub approval_over_limit :
      (amount : Money) (reason : FareApprovalReason)
      → o.policy_age_milliseconds ≤ context.maximum_policy_age_milliseconds
      → o.revocation_data_age_milliseconds ≤ context.maximum_revocation_age_milliseconds
      → e.outcome ≡ FareEvaluationOutcome.approved amount reason
      → context.provisional_charge_limit.minor_units <ℤ amount.minor_units
      → o.evaluation.outcome
        ≡ FareEvaluationOutcome.rejected FareRejectionReason.offline_limit_exceeded

-- A context that a reader can evaluate in: a limit of the policy's currency that is not negative,
-- and snapshots no later than the presentation.
pub record IsValidContext (policy : FarePolicy) (input : FareEvaluationInput)
    (context : OfflineEvaluationContext) : Type 0 where
  pub limit : IsAmount policy.currency context.provisional_charge_limit
  pub policy_time : IsEventTime context.policy_cached_at
  pub policy_past : context.policy_cached_at.unix_milliseconds ≤ℤ input.event_time.unix_milliseconds
  pub revocation_time : IsEventTime context.revocation_data_cached_at
  pub revocation_past :
      context.revocation_data_cached_at.unix_milliseconds ≤ℤ input.event_time.unix_milliseconds

pub snapshot_age_lem :
    (kind : OfflineSnapshotKind) (cached event : EventTime)
    → IsEventTime cached
    → IsEventTime event
    → cached.unix_milliseconds ≤ℤ event.unix_milliseconds
    → snapshot_age kind cached event ≡ ok (millis event - millis cached)
unfolding snapshot_age
snapshot_age_lem kind cached event c e le =
    ground (arith, unsigned_abs-difference event cached e c le)

-- Every amount that an outcome approves is of a currency.
abbrev pub InCurrency : Currency → FareEvaluationOutcome → Type 0
InCurrency c (FareEvaluationOutcome.approved amount _) = amount.currency ≡ c
InCurrency c (FareEvaluationOutcome.rejected _) = Unit {0}

-- The outcome under the limit.
limited : Money → FareEvaluationOutcome → FareEvaluationOutcome
limited limit (FareEvaluationOutcome.rejected reason) = FareEvaluationOutcome.rejected reason
limited limit (FareEvaluationOutcome.approved amount _) =
    limited_outcome (cmp_ℤ amount.minor_units limit.minor_units) amount

limit_outcome_lem :
    (limit : Money) (o : FareEvaluationOutcome)
    → InCurrency limit.currency o
    → limit_outcome o limit ≡ ok (limited limit o)
unfolding limit_outcome limited checked_cmp
limit_outcome_lem limit (FareEvaluationOutcome.rejected reason) c = refl
limit_outcome_lem limit (FareEvaluationOutcome.approved amount reason) c = ground arith

-- The outcome after the freshness tests and the limit.
pub offline_outcome :
    OfflineEvaluationContext → ℕ → ℕ → FareEvaluationOutcome → FareEvaluationOutcome
offline_outcome context policy_age revocation_age o =
    if ltb context.maximum_policy_age_milliseconds policy_age
    then FareEvaluationOutcome.rejected FareRejectionReason.stale_policy
    else if ltb context.maximum_revocation_age_milliseconds revocation_age
    then FareEvaluationOutcome.rejected FareRejectionReason.stale_revocation_data
    else limited context.provisional_charge_limit o

pub apply_freshness_lem :
    (context : OfflineEvaluationContext) (policy_age revocation_age : ℕ) (e : FareEvaluation)
    → InCurrency context.provisional_charge_limit.currency e.outcome
    → apply_freshness context policy_age revocation_age e
      ≡ ok (with_outcome e (offline_outcome context policy_age revocation_age e.outcome))
unfolding apply_freshness offline_outcome apply_offline_limit
apply_freshness_lem context policy_age revocation_age e c =
    ground (arith, limit_outcome_lem context.provisional_charge_limit e.outcome c)

pub validate_provisional_limit_lem :
    (policy : FarePolicy) (limit : Money)
    → IsAmount policy.currency limit
    → validate_provisional_limit policy limit ≡ ok tt
unfolding validate_provisional_limit
validate_provisional_limit_lem policy limit a = ground arith

pub offline_post :
    (input : FareEvaluationInput) (context : OfflineEvaluationContext) (e : FareEvaluation)
    (policy_age revocation_age : ℕ)
    → policy_age + millis context.policy_cached_at ≡ millis input.event_time
    → revocation_age + millis context.revocation_data_cached_at ≡ millis input.event_time
    → OfflinePost input context e (record {
      evaluation = with_outcome e (offline_outcome context policy_age revocation_age e.outcome);
      policy_age_milliseconds = policy_age;
      revocation_data_age_milliseconds = revocation_age;
      provisional_charge_limit = context.provisional_charge_limit;
    })
unfolding offline_outcome limited limited_outcome
offline_post input context e policy_age revocation_age p q = record {
  evidence = refl;
  identified = (refl, refl, refl);
  policy_age = p;
  revocation_age = q;
  stale_policy = λ h. ground arith;
  stale_revocation_data = λ h k. ground arith;
  rejection_stays = λ reason h k o. ground arith;
  approval_within_limit = λ amount reason h k o le. ground arith;
  approval_over_limit = λ amount reason h k o lt. ground arith;
}

-- An approved offline result comes from an online approval of the same amount, on fresh caches.
pub approval_at :
    (input : FareEvaluationInput) (context : OfflineEvaluationContext) (e : FareEvaluation)
    (o : OfflineFareEvaluation) (amount : Money) (reason : FareApprovalReason)
    (online : FareEvaluationOutcome)
    → OfflinePost input context e o
    → e.outcome ≡ online
    → o.evaluation.outcome ≡ FareEvaluationOutcome.approved amount reason
    → (reason ≡ FareApprovalReason.offline_provisional)
      × (amount.minor_units ≤ℤ context.provisional_charge_limit.minor_units)
      × (o.policy_age_milliseconds ≤ context.maximum_policy_age_milliseconds)
      × (o.revocation_data_age_milliseconds ≤ context.maximum_revocation_age_milliseconds)
      × ((given : FareApprovalReason) × (online ≡ FareEvaluationOutcome.approved amount given))
approval_at input context e o amount reason (FareEvaluationOutcome.rejected why) p same h =
    absurd (ground (arith, p.rejection_stays why))
approval_at input context e o amount reason (FareEvaluationOutcome.approved paid given) p same h =
    let within = p.approval_within_limit paid given in
    let over = p.approval_over_limit paid given in
    (
      ground (arith, within, over),
      ground (arith, within, over),
      ground (arith, within, over),
      ground (arith, within, over),
      (given, ground (arith, within, over)),
    )

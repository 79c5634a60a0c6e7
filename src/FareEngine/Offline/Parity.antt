-- ===== src/FareEngine/Offline/Parity.antt =====
-- Offline evaluation (crates/fare-engine/src/offline.rs) against the online evaluation that it
-- wraps.
use transit_guard.Base.{◌≡◌, refl, sym, subst, ◌∙◌, ◌-◌, ◌≤◌, arith}
use transit_guard.Base.Result.{ok, ok-injective}
use transit_guard.Base.Int.{◌≤ℤ◌}
use transit_guard.Domain.Money.{Money}
use transit_guard.Domain.Transaction.{IsEventTime, FareApprovalReason}
use transit_guard.Domain.Transaction.Times.{millis}
use transit_guard.FareEngine.Policy.{FarePolicy}
use transit_guard.FareEngine.Policy.Validity.{IsValidDefinition, IsRepresentable}
use transit_guard.FareEngine.Evaluation.{
  FareEvaluationInput, FareEvaluation, FareEvaluationOutcome, evaluate_fare, with_outcome,
}
use transit_guard.FareEngine.Evaluation.Pipeline.{IsValidInput}
use transit_guard.FareEngine.Evaluation.Decision.{evaluate_fare_total, evaluate_fare-Charges}
use transit_guard.FareEngine.Offline.{
  OfflineSnapshotKind, OfflineEvaluationContext, OfflineFareEvaluation, evaluate_fare_offline,
}
use transit_guard.FareEngine.Offline.Outcome.{
  OfflinePost, IsValidContext, InCurrency, snapshot_age_lem, offline_outcome, apply_freshness_lem,
  validate_provisional_limit_lem, offline_post, approval_at,
}

module _ (policy : FarePolicy) (input : FareEvaluationInput) (context : OfflineEvaluationContext)
    (v : IsValidDefinition policy.definition) (r : IsRepresentable policy.definition)
    (time : IsEventTime input.event_time) (valid : IsValidInput policy input)
    (ready : IsValidContext policy input context) where
  outcome_currency :
      (e : FareEvaluation) (o : FareEvaluationOutcome)
      → evaluate_fare policy input ≡ ok e
      → e.outcome ≡ o
      → InCurrency policy.currency o
  outcome_currency e (FareEvaluationOutcome.rejected reason) h same = tt
  outcome_currency e (FareEvaluationOutcome.approved amount reason) h same =
      (evaluate_fare-Charges policy input v r time valid h same).amount_valid.0

  -- On a valid policy, input and context both evaluations succeed, and the offline one carries the
  -- evidence, the policy identity and the event time of the online one. Its outcome is a rejection
  -- for a policy cache beyond its maximum age, else for revocation data beyond its maximum age,
  -- else the online rejection, else the online approval of the same amount marked provisional if
  -- that is at most the limit, and a rejection if it is more.
  pub evaluate_fare_offline_total :
      (e : FareEvaluation) × (o : OfflineFareEvaluation) × (evaluate_fare policy input ≡ ok e)
      × (evaluate_fare_offline policy input context ≡ ok o)
      × OfflinePost input context e o
  unfolding evaluate_fare_offline
  evaluate_fare_offline_total =
      let (e, he, _) = evaluate_fare_total policy input v r time valid in
      let policy_age = millis input.event_time - millis context.policy_cached_at in
      let revocation_age = millis input.event_time - millis context.revocation_data_cached_at in
      let c =
        subst (λ k. InCurrency k e.outcome) (sym ready.limit.0)
          (outcome_currency e e.outcome he refl) in
      let outcome = offline_outcome context policy_age revocation_age e.outcome in
      (
        e,
        record {
          evaluation = with_outcome e outcome;
          policy_age_milliseconds = policy_age;
          revocation_data_age_milliseconds = revocation_age;
          provisional_charge_limit = context.provisional_charge_limit;
        },
        he,
        rw (
          validate_provisional_limit_lem policy context.provisional_charge_limit ready.limit,
          snapshot_age_lem OfflineSnapshotKind.fare_policy context.policy_cached_at input.event_time
              ready.policy_time time ready.policy_past,
          snapshot_age_lem OfflineSnapshotKind.revocation_data context.revocation_data_cached_at
              input.event_time ready.revocation_time time ready.revocation_past,
          he,
          apply_freshness_lem context policy_age revocation_age e c,
        ),
        offline_post input context e policy_age revocation_age
            (ground (arith, ready.policy_past, ready.policy_time))
            (ground (arith, ready.revocation_past, ready.revocation_time)),
      )

  -- On a valid policy, input and context, an offline approval is provisional, at most the limit,
  -- made on fresh caches, and the online evaluation of the same input approves the same amount.
  pub offline_approval_sound :
      {o : OfflineFareEvaluation} {amount : Money} {reason : FareApprovalReason}
      → evaluate_fare_offline policy input context ≡ ok o
      → o.evaluation.outcome ≡ FareEvaluationOutcome.approved amount reason
      → (reason ≡ FareApprovalReason.offline_provisional)
        × (amount.minor_units ≤ℤ context.provisional_charge_limit.minor_units)
        × (o.policy_age_milliseconds ≤ context.maximum_policy_age_milliseconds)
        × (o.revocation_data_age_milliseconds ≤ context.maximum_revocation_age_milliseconds)
        × ((e : FareEvaluation) × (online : FareApprovalReason) × (evaluate_fare policy input
              ≡ ok e)
            × (e.outcome ≡ FareEvaluationOutcome.approved amount online))
  offline_approval_sound {o} {amount} {reason} h approved =
      let (e, o', he, ho, post) = evaluate_fare_offline_total in
      let post' = subst (OfflinePost input context e) (ok-injective (sym ho ∙ h)) post in
      let (a, b, c, d, (given, same)) =
        approval_at input context e o amount reason e.outcome post' refl approved in
      (a, b, c, d, (e, given, he, same))

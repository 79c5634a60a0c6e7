-- ===== src/FareEngine/Evaluation/Pipeline.antt =====
-- `evaluate_fare` (crates/fare-engine/src/evaluation.rs) as a whole: its stages in order.
use transit_guard.Base.{◌≡◌, refl, ◌⊎◌, inl, inr, arith}
use transit_guard.Base.Result.{ok}
use transit_guard.Base.Int.{◌+ℤ◌, ◌≤ℤ◌, ◌<ℤ◌}
use transit_guard.Domain.Money.{Money, IsMoney, zero_money, Currency, checked_cmp}
use transit_guard.Domain.Transaction.{FareApprovalReason, FareRejectionReason, IsEventTime}
use transit_guard.FareEngine.Policy.{FarePolicy}
use transit_guard.FareEngine.Policy.Validity.{IsAmount, IsValidDefinition, IsRepresentable}
use transit_guard.FareEngine.Transfer.{TransferApplication}
use transit_guard.FareEngine.Transfer.Benefit.{NotAfter, TransferPost, apply_transfer_total}
use transit_guard.FareEngine.Cap.{FareCapApplication}
use transit_guard.FareEngine.Cap.Bounds.{IsValidHistory, CapPost, apply_fare_caps_total}
use transit_guard.FareEngine.Product.{ProductApplication, ProductApplicationOutcome}
use transit_guard.FareEngine.Product.Coverage.{ProductPost, apply_transit_product_total}
use transit_guard.FareEngine.Evaluation.{
  FareEvaluationInput, FareEvaluation, FareEvaluationOutcome, BaseFare, evaluate_fare,
  validate_balance, outcome_for, evaluate_stored_value, outcome_of_comparison, evidence_of,
  stored_value_reason,
}
use transit_guard.FareEngine.Evaluation.Stages.{BasePost, FitsI64, calculate_base_fare_total}

-- The input that a valid policy can be evaluated on.
pub record IsValidInput (policy : FarePolicy) (input : FareEvaluationInput) : Type 0 where
  pub balance : IsAmount policy.currency input.available_balance
  pub past : NotAfter input.transfer_history.previous_paid_fare_event_time input.event_time
  pub history : IsValidHistory policy.currency input.fare_cap_history
  pub fits : FitsI64 policy input

-- The decision on a final fare, by what became of the transit product.
abbrev pub Decides :
    ProductApplicationOutcome
    → Currency
    → Money
    → Money
    → FareApprovalReason
    → FareEvaluationOutcome
    → Type 0
Decides ProductApplicationOutcome.covered currency balance final reason o =
    o ≡ FareEvaluationOutcome.approved (zero_money currency) FareApprovalReason.transit_product
Decides (ProductApplicationOutcome.invalid _) currency balance final reason o =
    o ≡ FareEvaluationOutcome.rejected FareRejectionReason.product_invalid
Decides ProductApplicationOutcome.not_presented currency balance final reason o =
    (final.minor_units ≤ℤ balance.minor_units → o ≡ FareEvaluationOutcome.approved final reason)
    × (balance.minor_units <ℤ final.minor_units
        → o ≡ FareEvaluationOutcome.rejected FareRejectionReason.insufficient_stored_value)

outcome_for_total :
    (p : ProductApplicationOutcome) (policy : FarePolicy) (balance final : Money)
    (reason : FareApprovalReason)
    → balance.currency ≡ final.currency
    → (o : FareEvaluationOutcome) × (outcome_for p policy balance final reason ≡ ok o)
      × Decides p policy.currency balance final reason o
unfolding outcome_for evaluate_stored_value checked_cmp outcome_of_comparison
outcome_for_total ProductApplicationOutcome.covered policy balance final reason c = (_, refl, refl)
outcome_for_total (ProductApplicationOutcome.invalid why) policy balance final reason c =
    (_, refl, refl)
outcome_for_total ProductApplicationOutcome.not_presented policy balance final reason c =
    elim (compare_cases balance final) [
      | inl le ↦ (
        FareEvaluationOutcome.approved final reason,
        ground arith,
        (λ h. refl, λ h. absurd (omega arith)),
      )
      | inr lt ↦ (
        FareEvaluationOutcome.rejected FareRejectionReason.insufficient_stored_value,
        ground arith,
        (λ h. absurd (omega arith), λ h. refl),
      )
    ]
  where
    compare_cases :
        (a b : Money) → (b.minor_units ≤ℤ a.minor_units) ⊎ (a.minor_units <ℤ b.minor_units)
    compare_cases a b = omega arith

-- What is left of an amount is in range too.
split_range :
    (currency : Currency) (a b whole : Money)
    → IsAmount currency a
    → IsAmount currency b
    → a.minor_units +ℤ b.minor_units ≡ whole.minor_units
    → IsMoney whole
    → IsMoney b
unfolding ◌+ℤ◌
split_range currency a b whole pa pb e r = ground arith

-- The results of the four stages, each with what it says, and the decision.
pub record Run (policy : FarePolicy) (input : FareEvaluationInput) : Type 0 where
  pub base : BaseFare
  pub transfer : TransferApplication
  pub cap : FareCapApplication
  pub product : ProductApplication
  pub outcome : FareEvaluationOutcome
  pub base_post : BasePost policy input base
  pub transfer_post :
      TransferPost policy input.event_time input.transfer_history base.fare_after_eligibility
        transfer
  pub cap_post : CapPost policy input.fare_cap_history transfer.fare_after_transfer cap
  pub product_post :
      ProductPost policy input.event_time input.origin_zone input.destination_zone
        input.transit_product cap.fare_after_caps product
  pub decides :
      Decides product.outcome policy.currency input.available_balance product.fare_after_product
        (stored_value_reason transfer.discount_applied cap.discount_applied)
        outcome

module _ (policy : FarePolicy) (input : FareEvaluationInput) where
  -- The evaluation that a run amounts to.
  abbrev pub evaluation_of : Run policy input → FareEvaluation
  evaluation_of run = record {
    policy_id = policy.id;
    policy_version = policy.version;
    event_time = input.event_time;
    outcome = run.outcome;
    evidence = evidence_of policy input run.base run.transfer run.cap run.product;
  }

  validate_balance_lem :
      IsAmount policy.currency input.available_balance
      → validate_balance policy input.available_balance ≡ ok tt
  unfolding validate_balance
  validate_balance_lem a = ground arith

  base_after :
      (b : BaseFare)
      → BasePost policy input b
      → IsAmount policy.currency b.fare_after_eligibility × IsMoney b.fare_after_eligibility
  base_after b post = ground arith

  module _ (v : IsValidDefinition policy.definition) (r : IsRepresentable policy.definition)
      (time : IsEventTime input.event_time) (valid : IsValidInput policy input) where
    pub evaluate_fare-Run :
        (run : Run policy input) × (evaluate_fare policy input ≡ ok (evaluation_of run))
    unfolding evaluate_fare
    evaluate_fare-Run =
        let (b, be, bp) = calculate_base_fare_total policy input v r valid.fits in
        let (ba, br) = base_after b bp in
        let (t, te, tp) =
          apply_transfer_total policy input.event_time input.transfer_history
            b.fare_after_eligibility v ba br time valid.past in
        let tr =
          split_range policy.currency t.discount_applied t.fare_after_transfer
            b.fare_after_eligibility tp.discount tp.after tp.splits br in
        let (c, ce, cp) =
          apply_fare_caps_total policy input.fare_cap_history t.fare_after_transfer v r
            valid.history tp.after tr in
        let cr =
          split_range policy.currency c.discount_applied c.fare_after_caps t.fare_after_transfer
            cp.discount cp.after cp.splits tr in
        let (p, pe, pp) =
          apply_transit_product_total policy input.event_time input.origin_zone
            input.destination_zone c.fare_after_caps input.transit_product cp.after cr in
        let (o, oe, op) =
          outcome_for_total p.outcome policy input.available_balance p.fare_after_product
            (stored_value_reason t.discount_applied c.discount_applied) (ground arith) in
        (
          record {
            base = b;
            transfer = t;
            cap = c;
            product = p;
            outcome = o;
            base_post = bp;
            transfer_post = tp;
            cap_post = cp;
            product_post = pp;
            decides = op;
          },
          rw (validate_balance_lem valid.balance, be, te, ce, pe, oe),
        )

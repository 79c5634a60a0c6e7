-- ===== src/FareEngine/Evaluation/Decision.antt =====
-- What a completed evaluation says (crates/fare-engine/src/evaluation.rs): the breakdown of the
-- fare, the decision, and what is charged.
use transit_guard.Base.{subst, ◌≡◌, refl, sym, ap, ◌∙◌, ◌+◌, ◌*◌, ◌/◌, ◌≤◌, ◌⊎◌, inl, inr, arith}
use transit_guard.Base.Result.{ok-injective, ok}
use transit_guard.Base.Tests.{if◌then◌else◌}
use transit_guard.Base.Int.{pos, ltb_ℤ, ◌+ℤ◌, ◌≤ℤ◌}
use transit_guard.Domain.Money.{Money, zero_money, Currency}
use transit_guard.Domain.Transaction.{FareApprovalReason, IsEventTime}
use transit_guard.FareEngine.Policy.{FarePolicy, rate_for}
use transit_guard.FareEngine.Policy.Validity.{IsAmount, IsValidDefinition, IsRepresentable}
use transit_guard.FareEngine.Product.{ProductApplicationOutcome}
use transit_guard.FareEngine.Evaluation.{
  FareEvaluationInput, FareEvaluation, FareEvaluationOutcome, evaluate_fare, evidence_of,
  stored_value_reason, abs_diff,
}
use transit_guard.FareEngine.Evaluation.Stages.{units}
use transit_guard.FareEngine.Evaluation.Pipeline.{
  IsValidInput, Decides, Run, evaluation_of, evaluate_fare-Run,
}

-- The evidence adds up: each stage takes its discount from what the one before it left.
pub record Breakdown (policy : FarePolicy) (input : FareEvaluationInput) (e : FareEvaluation)
    : Type 0 where
  pub identified :
      (e.policy_id ≡ policy.id)
      × (e.policy_version ≡ policy.version)
      × (e.event_time ≡ input.event_time)
  pub zones :
      e.evidence.additional_zone_count
      ≡ abs_diff input.origin_zone.value input.destination_zone.value
  pub before :
      units e.evidence.fare_before_discount
      ≡ units policy.base_fare + units policy.zone_surcharge * e.evidence.additional_zone_count
  pub discount :
      units e.evidence.eligibility_discount
      ≡ units e.evidence.fare_before_discount
        * (rate_for policy.eligibility_discounts input.eligibility).value
        / 10_000
  pub after_eligibility :
      units e.evidence.eligibility_discount + units e.evidence.fare_after_eligibility
      ≡ units e.evidence.fare_before_discount
  pub after_transfer :
      units e.evidence.transfer_discount + units e.evidence.fare_after_transfer
      ≡ units e.evidence.fare_after_eligibility
  pub after_caps :
      units e.evidence.fare_cap_discount + units e.evidence.fare_after_caps
      ≡ units e.evidence.fare_after_transfer
  pub after_product :
      units e.evidence.product_discount + units e.evidence.fare_after_product
      ≡ units e.evidence.fare_after_caps
  pub final : e.evidence.final_fare ≡ e.evidence.fare_after_product
  pub final_amount : IsAmount policy.currency e.evidence.final_fare

-- The approval reason by the discounts of the evidence: a cap comes before a transfer.
abbrev pub reason_of : FareEvaluation → FareApprovalReason
reason_of e =
    if ltb_ℤ (pos 0) e.evidence.fare_cap_discount.minor_units
    then FareApprovalReason.fare_cap
    else if ltb_ℤ (pos 0) e.evidence.transfer_discount.minor_units
    then FareApprovalReason.transfer
    else FareApprovalReason.standard_fare

-- A charge keeps a period within its cap.
abbrev pub Within : Money → Money → Money → Type 0
Within charged amount cap =
    (amount.minor_units ≡ pos 0) ⊎ (charged.minor_units +ℤ amount.minor_units ≤ℤ cap.minor_units)

-- What an approval of `amount` guarantees.
pub record Charges (policy : FarePolicy) (input : FareEvaluationInput) (e : FareEvaluation)
    (amount : Money) : Type 0 where
  pub amount_valid : IsAmount policy.currency amount
  pub covered_by_balance : amount.minor_units ≤ℤ input.available_balance.minor_units
  pub at_most_fare : units amount ≤ units e.evidence.fare_before_discount
  pub daily : Within input.fare_cap_history.daily_charged amount policy.daily_cap
  pub weekly : Within input.fare_cap_history.weekly_charged amount policy.weekly_cap

units-splits :
    (currency : Currency) (a b whole : Money)
    → IsAmount currency a
    → IsAmount currency b
    → a.minor_units +ℤ b.minor_units ≡ whole.minor_units
    → units a + units b ≡ units whole
unfolding ◌+ℤ◌
units-splits currency a b whole pa pb e = ground arith

-- An approval is free under a covering product, or charges a final fare that the balance covers.
approved_cases :
    (p : ProductApplicationOutcome) (currency : Currency) (balance final : Money)
    (reason : FareApprovalReason) (o : FareEvaluationOutcome) (amount : Money)
    (given : FareApprovalReason)
    → Decides p currency balance final reason o
    → o ≡ FareEvaluationOutcome.approved amount given
    → ((p ≡ ProductApplicationOutcome.covered) × (amount ≡ zero_money currency))
      ⊎ ((p ≡ ProductApplicationOutcome.not_presented)
          × (amount ≡ final)
          × (final.minor_units ≤ℤ balance.minor_units))
approved_cases ProductApplicationOutcome.covered c b f r o amount given d e = inl (refl, cc)
approved_cases (ProductApplicationOutcome.invalid why) c b f r o amount given d e = cc
approved_cases ProductApplicationOutcome.not_presented c b f r o amount given d e = ground arith

module _ (policy : FarePolicy) (input : FareEvaluationInput) where
  Run-Breakdown : (run : Run policy input) → Breakdown policy input (evaluation_of policy input run)
  unfolding evidence_of
  Run-Breakdown run =
      let b = run.base_post in
      let t = run.transfer_post in
      let c = run.cap_post in
      let p = run.product_post in
      let u = units-splits policy.currency in
      record {
        identified = (refl, refl, refl);
        zones = refl;
        before = ap units b.before ∙ ap (λ m. units policy.base_fare + units m) b.surcharge;
        discount = ap units b.discount;
        after_eligibility = omega (arith, ap units b.after, b.within);
        after_transfer =
            u run.transfer.discount_applied run.transfer.fare_after_transfer
              run.base.fare_after_eligibility t.discount t.after t.splits;
        after_caps =
            u run.cap.discount_applied run.cap.fare_after_caps run.transfer.fare_after_transfer
              c.discount c.after c.splits;
        after_product =
            u run.product.discount_applied run.product.fare_after_product run.cap.fare_after_caps
              p.discount p.after p.splits;
        final = refl;
        final_amount = p.after;
      }

  Run-Charges :
      (run : Run policy input) (amount : Money) (reason : FareApprovalReason)
      → run.outcome ≡ FareEvaluationOutcome.approved amount reason
      → IsAmount policy.currency input.available_balance
      → Charges policy input (evaluation_of policy input run) amount
  unfolding evidence_of
  Run-Charges run amount reason e balance =
      elim (approved_cases run.product.outcome policy.currency input.available_balance
        run.product.fare_after_product
        (stored_value_reason run.transfer.discount_applied run.cap.discount_applied) run.outcome
        amount reason run.decides e) [
          | inl (covered, free) ↦ record {
            amount_valid = rw free (refl, omega arith);
            covered_by_balance = rw free balance.1;
            at_most_fare = rw free (omega arith);
            daily = rw free (inl refl);
            weekly = rw free (inl refl);
          }
          | inr (unused, final, le) ↦
              let same = final ∙ run.product_post.pays_nothing (λ h. cc) in
              let parts = Run-Breakdown run in
              record {
                amount_valid = rw same run.cap_post.after;
                covered_by_balance = rw final le;
                at_most_fare = rw same (
                    omega (arith, parts.after_eligibility, parts.after_transfer, parts.after_caps));
                daily = rw same run.cap_post.daily_within;
                weekly = rw same run.cap_post.weekly_within;
              }
        ]

  module _ (v : IsValidDefinition policy.definition) (r : IsRepresentable policy.definition)
      (time : IsEventTime input.event_time) where
    -- A valid policy evaluates every valid input: the evaluation succeeds, and its evidence starts
    -- from base fare plus surcharge per zone crossed, takes the eligibility percentage rounded down,
    -- and then adds up stage by stage to a final fare that is not negative.
    pub evaluate_fare_total :
        IsValidInput policy input
        → (e : FareEvaluation) × (evaluate_fare policy input ≡ ok e) × Breakdown policy input e
    evaluate_fare_total valid =
        let (run, e) = evaluate_fare-Run policy input v r time valid in
        (evaluation_of policy input run, e, Run-Breakdown run)

    -- With a valid policy and a valid input, the decision of an evaluation: a covering product makes
    -- the ride free, an invalid product rejects it, and without a product it is approved for the
    -- final fare if the balance covers that, with the reason that the cap and transfer discounts
    -- give, and rejected for insufficient stored value if not.
    pub evaluate_fare-Decides :
        IsValidInput policy input
        → {e : FareEvaluation} → evaluate_fare policy input ≡ ok e
        → Decides e.evidence.product_outcome policy.currency input.available_balance
            e.evidence.final_fare
            (reason_of e)
            e.outcome
    unfolding evidence_of stored_value_reason
    evaluate_fare-Decides valid {e} h =
        let (run, he) = evaluate_fare-Run policy input v r time valid in
        subst
          (λ x.
            Decides x.evidence.product_outcome policy.currency input.available_balance
              x.evidence.final_fare (reason_of x) x.outcome)
          (ok-injective (sym he ∙ h)) run.decides

    -- With a valid policy and a valid input, whatever an evaluation charges is an amount of the
    -- policy's currency, not negative, no more than the balance, no more than the undiscounted fare,
    -- and keeps the charges of the day and of the week within their caps unless it is zero.
    pub evaluate_fare-Charges :
        IsValidInput policy input
        → {e : FareEvaluation} {amount : Money} {reason : FareApprovalReason}
        → evaluate_fare policy input ≡ ok e
        → e.outcome ≡ FareEvaluationOutcome.approved amount reason
        → Charges policy input e amount
    evaluate_fare-Charges valid {e} {amount} {reason} h approved =
        let (run, he) = evaluate_fare-Run policy input v r time valid in
        let same = ok-injective (sym he ∙ h) in
        subst (λ x. Charges policy input x amount) same
          (Run-Charges run amount reason (ap (λ x. x.outcome) same ∙ approved) valid.balance)

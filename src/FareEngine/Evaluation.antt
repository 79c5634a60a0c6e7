-- ===== src/FareEngine/Evaluation.antt =====
-- crates/fare-engine/src/evaluation.rs: `evaluate_fare` and its helpers. The input and result
-- types are in `Types`.
pub mod Stages
pub mod Pipeline
pub mod Decision
pub mod Acceptance
mod Types
pub use Types.*
use transit_guard.Base.{ℕ, ◌≡◌, ◌+◌, ◌-◌, Bool, true, false, Option, some, none, ite}
use transit_guard.Base.Tests.{if◌then◌else◌, ltb}
use transit_guard.Base.Result.{Result, ok, err, ◌>>=◌, ◌>>◌, map_err, ok_or}
use transit_guard.Base.Int.{ℤ, pos, ◌*ℤ◌, div_trunc, checked_i64, ltb_ℤ}
use transit_guard.Domain.Money.{
  Currency, Currency-discrete, Money, CmpOrdering, is_negative, from_minor_units, zero_money,
  checked_cmp, checked_add, checked_subtract,
}
use transit_guard.Domain.Transaction.{FareApprovalReason, FareRejectionReason}
use transit_guard.FareEngine.Policy.{FarePolicy, ZoneId, DiscountBasisPoints, rate_for}
use transit_guard.FareEngine.Transfer.{TransferApplication, apply_transfer}
use transit_guard.FareEngine.Cap.{FareCapApplication, apply_fare_caps}
use transit_guard.FareEngine.Product.{
  ProductApplication, ProductApplicationOutcome, apply_transit_product,
}

-- `u16::abs_diff`.
abbrev pub abs_diff : ℕ → ℕ → ℕ
abs_diff a b = (a - b) + (b - a)

unfoldable pub validate_balance : FarePolicy → Money → Result (Unit {0}) FareEvaluationError
validate_balance policy balance =
    ite (Currency-discrete balance.currency policy.currency)
      (if is_negative balance
        then err (FareEvaluationError.negative_available_balance balance)
        else ok tt)
      (err (FareEvaluationError.balance_currency_mismatch policy.currency balance.currency))

-- `checked_mul` of an `i64` by a zone count.
unfoldable pub calculate_zone_surcharge : Money → ℕ → Result Money FareEvaluationError
calculate_zone_surcharge surcharge_per_zone additional_zone_count = do
  minor_units ←
      ok_or (checked_i64 (surcharge_per_zone.minor_units *ℤ pos additional_zone_count))
        (FareEvaluationError.arithmetic_overflow FareCalculationStage.zone_surcharge)
  ok (from_minor_units minor_units surcharge_per_zone.currency)

-- The product is exact: an `i64` times a `u16` fits in an `i128`.
unfoldable pub calculate_percentage : Money → DiscountBasisPoints → Result Money FareEvaluationError
calculate_percentage amount rate = do
  let numerator = amount.minor_units *ℤ pos rate.value
  let discounted_minor_units = div_trunc numerator 10_000
  minor_units ←
      ok_or (checked_i64 discounted_minor_units)
        (FareEvaluationError.arithmetic_overflow FareCalculationStage.eligibility_discount)
  ok (from_minor_units minor_units amount.currency)

-- `determine_stored_value_reason`.
unfoldable pub stored_value_reason : Money → Money → FareApprovalReason
stored_value_reason transfer_discount fare_cap_discount =
    if ltb_ℤ (pos 0) fare_cap_discount.minor_units
    then FareApprovalReason.fare_cap
    else if ltb_ℤ (pos 0) transfer_discount.minor_units
    then FareApprovalReason.transfer
    else FareApprovalReason.standard_fare

-- `match comparison { Less => Rejected, Equal | Greater => Approved }`.
outcome_of_comparison : CmpOrdering → Money → FareApprovalReason → FareEvaluationOutcome
outcome_of_comparison CmpOrdering.less final_fare reason =
    FareEvaluationOutcome.rejected FareRejectionReason.insufficient_stored_value
outcome_of_comparison _ final_fare reason = FareEvaluationOutcome.approved final_fare reason

unfoldable pub evaluate_stored_value :
    Money → Money → FareApprovalReason → Result FareEvaluationOutcome FareEvaluationError
unfolding outcome_of_comparison
evaluate_stored_value available_balance final_fare approval_reason = do
  comparison ←
      map_err
        (λ _.
          FareEvaluationError.balance_currency_mismatch final_fare.currency
            available_balance.currency)
        (checked_cmp available_balance final_fare)
  ok (outcome_of_comparison comparison final_fare approval_reason)

-- `match product_application.outcome()`.
unfoldable pub outcome_for :
    ProductApplicationOutcome
    → FarePolicy
    → Money
    → Money
    → FareApprovalReason
    → Result FareEvaluationOutcome FareEvaluationError
outcome_for ProductApplicationOutcome.covered policy balance final_fare reason =
    ok (
      FareEvaluationOutcome.approved (zero_money policy.currency)
        FareApprovalReason.transit_product)
outcome_for (ProductApplicationOutcome.invalid _) policy balance final_fare reason =
    ok (FareEvaluationOutcome.rejected FareRejectionReason.product_invalid)
outcome_for ProductApplicationOutcome.not_presented policy balance final_fare reason =
    evaluate_stored_value balance final_fare reason

-- The amounts of steps 2 and 3: base and zone fare, and the eligibility discount.
pub record BaseFare : Type 0 where
  pub zone_surcharge : Money
  pub fare_before_discount : Money
  pub eligibility_discount : Money
  pub fare_after_eligibility : Money

unfoldable pub calculate_base_fare :
    FarePolicy → FareEvaluationInput → Result BaseFare FareEvaluationError
calculate_base_fare policy input = do
  surcharge ←
      calculate_zone_surcharge policy.zone_surcharge
        (abs_diff input.origin_zone.value input.destination_zone.value)
  before_discount ←
      map_err (λ _. FareEvaluationError.arithmetic_overflow FareCalculationStage.base_and_zone_fare)
        (checked_add policy.base_fare surcharge)
  discount ←
      calculate_percentage before_discount (rate_for policy.eligibility_discounts input.eligibility)
  after_eligibility ←
      map_err (λ _. FareEvaluationError.arithmetic_overflow FareCalculationStage.discounted_fare)
        (checked_subtract before_discount discount)
  ok (record {
    zone_surcharge = surcharge;
    fare_before_discount = before_discount;
    eligibility_discount = discount;
    fare_after_eligibility = after_eligibility;
  })

-- The evidence that `evaluate_fare` collects from the stages.
unfoldable pub evidence_of :
    FarePolicy
    → FareEvaluationInput
    → BaseFare
    → TransferApplication
    → FareCapApplication
    → ProductApplication
    → FareDecisionEvidence
evidence_of policy input base transfer cap product = record {
  base_fare = policy.base_fare;
  additional_zone_count = abs_diff input.origin_zone.value input.destination_zone.value;
  zone_surcharge = base.zone_surcharge;
  fare_before_discount = base.fare_before_discount;
  eligibility = input.eligibility;
  discount_basis_points = rate_for policy.eligibility_discounts input.eligibility;
  eligibility_discount = base.eligibility_discount;
  fare_after_eligibility = base.fare_after_eligibility;
  transfer_eligible = transfer.eligible;
  transfer_discount = transfer.discount_applied;
  fare_after_transfer = transfer.fare_after_transfer;
  fare_cap_discount = cap.discount_applied;
  fare_after_caps = cap.fare_after_caps;
  daily_cap_reached = cap.daily_cap_reached;
  weekly_cap_reached = cap.weekly_cap_reached;
  product_outcome = product.outcome;
  product_discount = product.discount_applied;
  fare_after_product = product.fare_after_product;
  final_fare = product.fare_after_product;
}

unfoldable pub evaluate_fare :
    FarePolicy → FareEvaluationInput → Result FareEvaluation FareEvaluationError
evaluate_fare policy input = do
  validate_balance policy input.available_balance
  base ← calculate_base_fare policy input
  transfer ←
      map_err FareEvaluationError.transfer_error
        (apply_transfer policy input.event_time input.transfer_history base.fare_after_eligibility)
  cap ←
      map_err FareEvaluationError.fare_cap_error
        (apply_fare_caps policy input.fare_cap_history transfer.fare_after_transfer)
  product ← map_err FareEvaluationError.product_error (
      apply_transit_product policy input.transit_product input.event_time input.origin_zone
        input.destination_zone cap.fare_after_caps)
  outcome ←
      outcome_for product.outcome policy input.available_balance product.fare_after_product
        (stored_value_reason transfer.discount_applied cap.discount_applied)
  ok (record {
    policy_id = policy.id;
    policy_version = policy.version;
    event_time = input.event_time;
    outcome = outcome;
    evidence = evidence_of policy input base transfer cap product;
  })

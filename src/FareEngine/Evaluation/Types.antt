-- ===== src/FareEngine/Evaluation/Types.antt =====
-- crates/fare-engine/src/evaluation.rs: errors, input, outcome and evidence of an evaluation.
use transit_guard.Base.{ℕ, Bool, Option}
use transit_guard.Domain.Identifier.{FarePolicyId}
use transit_guard.Domain.Money.{Currency, Money}
use transit_guard.Domain.Account.{EligibilityClassification}
use transit_guard.Domain.Transaction.{
  FareApprovalReason, FareRejectionReason, FarePolicyVersion, EventTime,
}
use transit_guard.FareEngine.Policy.{ZoneId, DiscountBasisPoints}
use transit_guard.FareEngine.Transfer.{TransferHistory, TransferEvaluationError}
use transit_guard.FareEngine.Cap.{FareCapHistory, FareCapEvaluationError}
use transit_guard.FareEngine.Product.{
  TransitProduct, ProductApplicationOutcome, ProductEvaluationError,
}

pub data FareCalculationStage : Type 0 where
  zone_surcharge base_and_zone_fare eligibility_discount discounted_fare : FareCalculationStage

pub data FareEvaluationError : Type 0 where
  balance_currency_mismatch : Currency → Currency → FareEvaluationError
  negative_available_balance : Money → FareEvaluationError
  transfer_error : TransferEvaluationError → FareEvaluationError
  fare_cap_error : FareCapEvaluationError → FareEvaluationError
  product_error : ProductEvaluationError → FareEvaluationError
  arithmetic_overflow : FareCalculationStage → FareEvaluationError

pub record FareEvaluationInput : Type 0 where
  pub event_time : EventTime
  pub origin_zone : ZoneId
  pub destination_zone : ZoneId
  pub eligibility : EligibilityClassification
  pub transfer_history : TransferHistory
  pub fare_cap_history : FareCapHistory
  pub transit_product : Option TransitProduct
  pub available_balance : Money

pub data FareEvaluationOutcome : Type 0 where
  approved : Money → FareApprovalReason → FareEvaluationOutcome
  rejected : FareRejectionReason → FareEvaluationOutcome

pub record FareDecisionEvidence : Type 0 where
  pub base_fare : Money
  pub additional_zone_count : ℕ
  pub zone_surcharge : Money
  pub fare_before_discount : Money
  pub eligibility : EligibilityClassification
  pub discount_basis_points : DiscountBasisPoints
  pub eligibility_discount : Money
  pub fare_after_eligibility : Money
  pub transfer_eligible : Bool
  pub transfer_discount : Money
  pub fare_after_transfer : Money
  pub fare_cap_discount : Money
  pub fare_after_caps : Money
  pub daily_cap_reached : Bool
  pub weekly_cap_reached : Bool
  pub product_outcome : ProductApplicationOutcome
  pub product_discount : Money
  pub fare_after_product : Money
  pub final_fare : Money

pub record FareEvaluation : Type 0 where
  pub policy_id : FarePolicyId
  pub policy_version : FarePolicyVersion
  pub event_time : EventTime
  pub outcome : FareEvaluationOutcome
  pub evidence : FareDecisionEvidence

-- `FareEvaluation::with_outcome`.
abbrev pub with_outcome : FareEvaluation → FareEvaluationOutcome → FareEvaluation
with_outcome self outcome = record self { outcome = outcome }

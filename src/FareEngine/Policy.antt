-- ===== src/FareEngine/Policy.antt =====
-- crates/fare-engine/src/policy.rs: the fare policy and its validation.
pub mod Validity
use transit_guard.Base.{ℕ, ite, String, List, [], ◌∷◌}
use transit_guard.Base.Tests.{if◌then◌else◌, ◌==◌, ltb}
use transit_guard.Base.Result.{Result, ok, err, ◌>>◌}
use transit_guard.Base.Int.{ltb_ℤ}
use transit_guard.Domain.Identifier.{FarePolicyId}
use transit_guard.Domain.Money.{Currency, Currency-discrete, Money, is_negative}
use transit_guard.Domain.Account.{EligibilityClassification}
use transit_guard.Domain.Transaction.{FarePolicyVersion}

pub data FarePolicyValueError : Type 0 where
  zero_zone_id : FarePolicyValueError
  zero_transfer_window : FarePolicyValueError
  discount_above_full_fare : ℕ → FarePolicyValueError

pub data FarePolicyError : Type 0 where
  currency_mismatch : String → Currency → Currency → FarePolicyError
  negative_amount : String → Money → FarePolicyError
  daily_cap_below_base_fare : Money → Money → FarePolicyError
  weekly_cap_below_daily_cap : Money → Money → FarePolicyError
  transfer_discount_exceeds_base_fare : Money → Money → FarePolicyError

-- `ZoneId(u16)`.
pub record ZoneId : Type 0 where
  pub value : ℕ

unfoldable pub new_zone_id : ℕ → Result ZoneId FarePolicyValueError
new_zone_id value =
    if value == 0 then err FarePolicyValueError.zero_zone_id else ok (record { value = value })

-- `TransferWindow(u64)`.
pub record TransferWindow : Type 0 where
  pub milliseconds : ℕ

unfoldable pub from_milliseconds : ℕ → Result TransferWindow FarePolicyValueError
from_milliseconds milliseconds =
    if milliseconds == 0
    then err FarePolicyValueError.zero_transfer_window
    else ok (record { milliseconds = milliseconds })

-- `DiscountBasisPoints(u16)`: hundredths of a per cent.
pub record DiscountBasisPoints : Type 0 where
  pub value : ℕ

-- `DiscountBasisPoints::ZERO`.
abbrev pub no_discount : DiscountBasisPoints
no_discount = record { value = 0 }

-- `DiscountBasisPoints::FULL_FARE`.
abbrev pub full_fare : DiscountBasisPoints
full_fare = record { value = 10_000 }

unfoldable pub new_basis_points : ℕ → Result DiscountBasisPoints FarePolicyValueError
new_basis_points basis_points =
    if ltb 10_000 basis_points
    then err (FarePolicyValueError.discount_above_full_fare basis_points)
    else ok (record { value = basis_points })

pub record EligibilityDiscounts : Type 0 where
  pub youth : DiscountBasisPoints
  pub senior : DiscountBasisPoints
  pub reduced_fare : DiscountBasisPoints
  pub employee_test_account : DiscountBasisPoints

unfoldable pub rate_for : EligibilityDiscounts → EligibilityClassification → DiscountBasisPoints
rate_for self EligibilityClassification.standard = no_discount
rate_for self EligibilityClassification.youth = self.youth
rate_for self EligibilityClassification.senior = self.senior
rate_for self EligibilityClassification.reduced_fare = self.reduced_fare
rate_for self EligibilityClassification.employee_test_account = self.employee_test_account

pub record FarePolicyDefinition : Type 0 where
  pub id : FarePolicyId
  pub version : FarePolicyVersion
  pub currency : Currency
  pub base_fare : Money
  pub zone_surcharge : Money
  pub transfer_window : TransferWindow
  pub transfer_discount : Money
  pub daily_cap : Money
  pub weekly_cap : Money
  pub eligibility_discounts : EligibilityDiscounts

-- The validated policy. Its accessors are those of the definition.
pub record FarePolicy : Type 0 where
  pub definition : FarePolicyDefinition
  pub open definition use *

validate_money : String → Money → Currency → Result (Unit {0}) FarePolicyError
validate_money field amount expected_currency =
    ite (Currency-discrete amount.currency expected_currency)
      (if is_negative amount then err (FarePolicyError.negative_amount field amount) else ok tt)
      (err (FarePolicyError.currency_mismatch field expected_currency amount.currency))

-- `for (field, amount) in monetary_fields { validate_money(field, amount, …)?; }`
validate_fields : List (String × Money) → Currency → Result (Unit {0}) FarePolicyError
unfolding validate_money
validate_fields [] currency = ok tt
validate_fields ((field, amount) ∷ rest) currency = do
  validate_money field amount currency
  validate_fields rest currency

-- The three comparisons between amounts.
validate_limits : FarePolicyDefinition → Result FarePolicy FarePolicyError
validate_limits definition =
    if ltb_ℤ definition.daily_cap.minor_units definition.base_fare.minor_units
    then err (FarePolicyError.daily_cap_below_base_fare definition.base_fare definition.daily_cap)
    else if ltb_ℤ definition.weekly_cap.minor_units definition.daily_cap.minor_units
    then err (FarePolicyError.weekly_cap_below_daily_cap definition.daily_cap definition.weekly_cap)
    else if ltb_ℤ definition.base_fare.minor_units definition.transfer_discount.minor_units
    then err (
        FarePolicyError.transfer_discount_exceeds_base_fare definition.base_fare
          definition.transfer_discount)
    else ok (record { definition = definition })

-- `FarePolicy::validate`.
unfoldable pub validate : FarePolicyDefinition → Result FarePolicy FarePolicyError
unfolding validate_fields validate_limits
validate definition = do
  validate_fields
      (("base_fare", definition.base_fare)
        ∷ ("zone_surcharge", definition.zone_surcharge)
        ∷ ("transfer_discount", definition.transfer_discount)
        ∷ ("daily_cap", definition.daily_cap)
        ∷ ("weekly_cap", definition.weekly_cap)
        ∷ [])
      definition.currency
  validate_limits definition

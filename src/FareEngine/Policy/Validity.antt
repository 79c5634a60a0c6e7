-- ===== src/FareEngine/Policy/Validity.antt =====
-- What `FarePolicy::validate` (crates/fare-engine/src/policy.rs) accepts.
use transit_guard.Base.{◌≡◌, ◌≤◌, ◌↔◌, arith}
use transit_guard.Base.Result.{ok}
use transit_guard.Base.Int.{pos, ◌≤ℤ◌}
use transit_guard.Domain.Money.{Money, IsMoney, Currency}
use transit_guard.Domain.Account.{EligibilityClassification}
use transit_guard.FareEngine.Policy.{FarePolicyDefinition, FarePolicy, validate, rate_for}

-- An amount of the policy's currency that is zero or more.
abbrev pub IsAmount : Currency → Money → Type 0
IsAmount currency m = (m.currency ≡ currency) × (pos 0 ≤ℤ m.minor_units)

-- The rules of a fare policy.
pub record IsValidDefinition (d : FarePolicyDefinition) : Type 0 where
  pub base_fare : IsAmount d.currency d.base_fare
  pub zone_surcharge : IsAmount d.currency d.zone_surcharge
  pub transfer_discount : IsAmount d.currency d.transfer_discount
  pub daily_cap : IsAmount d.currency d.daily_cap
  pub weekly_cap : IsAmount d.currency d.weekly_cap
  pub base_within_day : d.base_fare.minor_units ≤ℤ d.daily_cap.minor_units
  pub day_within_week : d.daily_cap.minor_units ≤ℤ d.weekly_cap.minor_units
  pub discount_within_base : d.transfer_discount.minor_units ≤ℤ d.base_fare.minor_units

-- What the field types `i64` and `DiscountBasisPoints` guarantee without a check.
pub record IsRepresentable (d : FarePolicyDefinition) : Type 0 where
  pub base_fare : IsMoney d.base_fare
  pub zone_surcharge : IsMoney d.zone_surcharge
  pub transfer_discount : IsMoney d.transfer_discount
  pub daily_cap : IsMoney d.daily_cap
  pub weekly_cap : IsMoney d.weekly_cap
  pub youth : d.eligibility_discounts.youth.value ≤ 10_000
  pub senior : d.eligibility_discounts.senior.value ≤ 10_000
  pub reduced_fare : d.eligibility_discounts.reduced_fare.value ≤ 10_000
  pub employee : d.eligibility_discounts.employee_test_account.value ≤ 10_000

-- A policy definition is accepted exactly when every amount is of the policy's currency and not
-- negative, base fare ≤ daily cap ≤ weekly cap, and transfer discount ≤ base fare; the policy then
-- wraps that very definition.
pub validate_iff :
    (d : FarePolicyDefinition) (p : FarePolicy)
    → (validate d ≡ ok p) ↔ ((p.definition ≡ d) × IsValidDefinition d)
unfolding validate
validate_iff d p = (λ h. (ground arith, ground arith), λ h. ground arith)

pub rate_for-le :
    (d : FarePolicyDefinition) (e : EligibilityClassification)
    → IsRepresentable d
    → (rate_for d.eligibility_discounts e).value ≤ 10_000
unfolding rate_for
rate_for-le d e h = ground arith

-- ===== src/FareEngine/Evaluation/Stages.antt =====
-- The arithmetic stages of crates/fare-engine/src/evaluation.rs: zones, base fare and percentages.
use transit_guard.Base.{ap, ◌∙◌, ℕ, ◌≡◌, refl, ◌+◌, ◌-◌, ◌*◌, ◌/◌, ◌^◌, ◌≤◌, ◌<◌, arith}
use transit_guard.Base.Result.{ok}
use transit_guard.Base.Int.{pos, pos_part, ◌+ℤ◌, ◌-ℤ◌, *ℤ-pos, checked_i64-pos, div_trunc}
use transit_guard.Domain.Money.{Money, from_minor_units, Currency, checked_subtract, checked_add}
use transit_guard.FareEngine.Policy.{FarePolicy, DiscountBasisPoints, rate_for}
use transit_guard.FareEngine.Policy.Validity.{
  IsAmount, IsValidDefinition, IsRepresentable, rate_for-le,
}
use transit_guard.FareEngine.Evaluation.{
  FareEvaluationInput, abs_diff, calculate_zone_surcharge, calculate_percentage,
  calculate_base_fare, BaseFare,
}

-- The units of an amount.
abbrev pub units : Money → ℕ
units m = pos_part m.minor_units

-- A natural number of minor units, as an amount.
abbrev pub amount_of : ℕ → Currency → Money
amount_of n currency = from_minor_units (pos n) currency

-- An amount is its units.
pub amount-eq :
    (currency : Currency) (m : Money) → IsAmount currency m → m ≡ amount_of (units m) currency
amount-eq currency m a = ground arith

pub zone_surcharge_lem :
    (surcharge zones : ℕ) (currency : Currency)
    → surcharge * zones < 2 ^ 63
    → calculate_zone_surcharge (amount_of surcharge currency) zones
      ≡ ok (amount_of (surcharge * zones) currency)
unfolding calculate_zone_surcharge
zone_surcharge_lem s z c h = rw (*ℤ-pos s z, checked_i64-pos (s * z) h)

-- A rate of at most the full fare takes at most the fare.
pub percentage-le : (amount rate : ℕ) → rate ≤ 10_000 → amount * rate / 10_000 ≤ amount
percentage-le amount rate h = grind arith

pub percentage_lem :
    (amount : ℕ) (currency : Currency) (rate : DiscountBasisPoints)
    → amount < 2 ^ 63
    → rate.value ≤ 10_000
    → calculate_percentage (amount_of amount currency) rate
      ≡ ok (amount_of (amount * rate.value / 10_000) currency)
unfolding calculate_percentage div_trunc
percentage_lem n c rate h r =
    let within = percentage-le n rate.value r in
    rw (*ℤ-pos n rate.value, checked_i64-pos (n * rate.value / 10_000) (omega (arith, within)))

-- The two checked operations of the stage, on amounts.
amount_add :
    (m : Money) (n : ℕ) (currency : Currency)
    → IsAmount currency m
    → units m + n < 2 ^ 63
    → checked_add m (amount_of n currency) ≡ ok (amount_of (units m + n) currency)
unfolding checked_add ◌+ℤ◌
amount_add m n currency a h = ground arith

amount_subtract :
    (m n : ℕ) (currency : Currency)
    → n ≤ m
    → m < 2 ^ 63
    → checked_subtract (amount_of m currency) (amount_of n currency)
      ≡ ok (amount_of (m - n) currency)
unfolding checked_subtract ◌-ℤ◌
amount_subtract m n currency le h = ground arith

amount_surcharge :
    (m : Money) (zones : ℕ) (currency : Currency)
    → IsAmount currency m
    → units m * zones < 2 ^ 63
    → calculate_zone_surcharge m zones ≡ ok (amount_of (units m * zones) currency)
amount_surcharge m zones currency a h =
    ap (λ m. calculate_zone_surcharge m zones) (amount-eq currency m a)
    ∙ zone_surcharge_lem (units m) zones currency h

-- What the base fare stage computes from a policy that it accepts.
pub record BasePost (policy : FarePolicy) (input : FareEvaluationInput) (b : BaseFare)
    : Type 0 where
  pub surcharge :
      b.zone_surcharge
      ≡ amount_of
          (units policy.zone_surcharge
            * abs_diff input.origin_zone.value input.destination_zone.value)
          policy.currency
  pub before :
      b.fare_before_discount
      ≡ amount_of (units policy.base_fare + units b.zone_surcharge) policy.currency
  pub discount :
      b.eligibility_discount
      ≡ amount_of
          (units b.fare_before_discount
            * (rate_for policy.eligibility_discounts input.eligibility).value
            / 10_000)
          policy.currency
  pub after :
      b.fare_after_eligibility
      ≡ amount_of (units b.fare_before_discount - units b.eligibility_discount) policy.currency
  pub within : units b.eligibility_discount ≤ units b.fare_before_discount
  pub in_range : units b.fare_before_discount < 2 ^ 63

-- The only overflow that the stage can meet.
abbrev pub FitsI64 : FarePolicy → FareEvaluationInput → Type 0
FitsI64 policy input =
    units policy.base_fare
      + units policy.zone_surcharge * abs_diff input.origin_zone.value input.destination_zone.value
    < 2 ^ 63

module _ (policy : FarePolicy) (input : FareEvaluationInput)
    (v : IsValidDefinition policy.definition) (r : IsRepresentable policy.definition) where
  pub calculate_base_fare_total :
      FitsI64 policy input
      → (b : BaseFare) × (calculate_base_fare policy input ≡ ok b) × BasePost policy input b
  unfolding calculate_base_fare
  calculate_base_fare_total fits =
      let zones = abs_diff input.origin_zone.value input.destination_zone.value in
      let surcharge = units policy.zone_surcharge * zones in
      let before = units policy.base_fare + surcharge in
      let rate = rate_for policy.eligibility_discounts input.eligibility in
      let discount = before * rate.value / 10_000 in
      (
        record {
          zone_surcharge = amount_of surcharge policy.currency;
          fare_before_discount = amount_of before policy.currency;
          eligibility_discount = amount_of discount policy.currency;
          fare_after_eligibility = amount_of (before - discount) policy.currency;
        },
        rw (
          amount_surcharge policy.zone_surcharge zones policy.currency v.zone_surcharge
              (omega arith),
          amount_add policy.base_fare surcharge policy.currency v.base_fare fits,
          percentage_lem before policy.currency rate fits
              (rate_for-le policy.definition input.eligibility r),
          amount_subtract before discount policy.currency
              (percentage-le before rate.value (rate_for-le policy.definition input.eligibility r))
              fits,
        ),
        record {
          surcharge = refl;
          before = refl;
          discount = refl;
          after = refl;
          within =
              percentage-le before rate.value (rate_for-le policy.definition input.eligibility r);
          in_range = fits;
        },
      )

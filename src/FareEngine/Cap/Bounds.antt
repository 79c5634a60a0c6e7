-- ===== src/FareEngine/Cap/Bounds.antt =====
-- The fare caps of crates/fare-engine/src/cap.rs: what is charged, and that no cap is passed.
use transit_guard.Base.{◌≡◌, refl, ◌↔◌, ◌⊎◌, inl, inr, true, arith}
use transit_guard.Base.Result.{ok}
use transit_guard.Base.Tests.{if◌then◌else◌}
use transit_guard.Base.Int.{ℤ, pos, ◌+ℤ◌, ◌-ℤ◌, ◌≤ℤ◌, leb_ℤ, int_laws, wrap_i64-eq_self}
use transit_guard.Domain.Money.{
  Money, IsMoney, from_minor_units, zero_money, Currency, checked_subtract,
}
use transit_guard.Domain.Money.Laws.{checked_subtract_within}
use transit_guard.FareEngine.Policy.{FarePolicy}
use transit_guard.FareEngine.Policy.Validity.{IsAmount, IsValidDefinition, IsRepresentable}
use transit_guard.FareEngine.Cap.{
  FareCapHistory, FareCapApplication, apply_fare_caps, remaining_allowance, validate_caps_input,
  cap_reached, capped_fare,
}

-- A history that the caps accept: amounts of the currency, the day's within the week's.
pub record IsValidHistory (currency : Currency) (h : FareCapHistory) : Type 0 where
  pub daily : IsAmount currency h.daily_charged
  pub weekly : IsAmount currency h.weekly_charged
  pub ordered : h.daily_charged.minor_units ≤ℤ h.weekly_charged.minor_units
  pub daily_range : IsMoney h.daily_charged
  pub weekly_range : IsMoney h.weekly_charged

-- What is left of a cap.
pub allowance : Money → Money → Money
allowance cap charged =
    if leb_ℤ cap.minor_units charged.minor_units
    then zero_money cap.currency
    else from_minor_units (cap.minor_units -ℤ charged.minor_units) cap.currency

remaining_allowance_lem :
    (currency : Currency) (cap charged : Money)
    → IsAmount currency cap
    → IsAmount currency charged
    → IsMoney cap
    → remaining_allowance cap charged ≡ ok (allowance cap charged)
unfolding remaining_allowance allowance checked_subtract ◌-ℤ◌
remaining_allowance_lem currency cap charged a b r = ground arith

-- A fare of at most the allowance does not pass the cap, and one of all of it reaches the cap.
allowance_bounds :
    (currency : Currency) (cap charged : Money) (fare : ℤ)
    → IsAmount currency charged
    → pos 0 ≤ℤ fare
    → (fare ≤ℤ (allowance cap charged).minor_units
        → (fare ≡ pos 0) ⊎ (charged.minor_units +ℤ fare ≤ℤ cap.minor_units))
      × (fare ≡ (allowance cap charged).minor_units
          → cap.minor_units ≤ℤ charged.minor_units +ℤ fare)
unfolding allowance ◌-ℤ◌ ◌+ℤ◌
allowance_bounds currency cap charged fare a p = (λ h. ground arith, λ h. ground arith)

-- A fare of at most the allowance keeps the sum in range, so the sum is exact, and the test says
-- whether the cap is reached.
cap_reached_iff :
    (currency : Currency) (cap charged fare : Money)
    → IsAmount currency cap
    → IsAmount currency charged
    → IsMoney cap
    → IsMoney charged
    → pos 0 ≤ℤ fare.minor_units
    → fare.minor_units ≤ℤ (allowance cap charged).minor_units
    → (cap_reached charged fare cap ≡ true)
      ↔ (cap.minor_units ≤ℤ charged.minor_units +ℤ fare.minor_units)
unfolding cap_reached allowance ◌-ℤ◌ ◌+ℤ◌
cap_reached_iff currency cap charged fare a b rc rb pf within =
    let e = wrap_i64-eq_self (charged.minor_units +ℤ fare.minor_units) in
    (λ h. ground (arith, e), λ h. ground (arith, e))

-- What a cap application for `fare` says.
pub record CapPost (policy : FarePolicy) (h : FareCapHistory) (fare : Money)
    (a : FareCapApplication) : Type 0 where
  pub discount : IsAmount policy.currency a.discount_applied
  pub after : IsAmount policy.currency a.fare_after_caps
  pub splits : a.discount_applied.minor_units +ℤ a.fare_after_caps.minor_units ≡ fare.minor_units
  pub daily_within :
      (a.fare_after_caps.minor_units ≡ pos 0)
      ⊎ (h.daily_charged.minor_units +ℤ a.fare_after_caps.minor_units
          ≤ℤ policy.daily_cap.minor_units)
  pub weekly_within :
      (a.fare_after_caps.minor_units ≡ pos 0)
      ⊎ (h.weekly_charged.minor_units +ℤ a.fare_after_caps.minor_units
          ≤ℤ policy.weekly_cap.minor_units)
  pub reduced_only_by_a_cap :
      (a.discount_applied.minor_units ≡ pos 0)
      ⊎ (policy.daily_cap.minor_units
          ≤ℤ h.daily_charged.minor_units +ℤ a.fare_after_caps.minor_units)
      ⊎ (policy.weekly_cap.minor_units
          ≤ℤ h.weekly_charged.minor_units +ℤ a.fare_after_caps.minor_units)
  pub daily_reached : (a.daily_cap_reached ≡ true) ↔ (
      policy.daily_cap.minor_units ≤ℤ h.daily_charged.minor_units +ℤ a.fare_after_caps.minor_units)
  pub weekly_reached : (a.weekly_cap_reached ≡ true) ↔ (
      policy.weekly_cap.minor_units
      ≤ℤ h.weekly_charged.minor_units +ℤ a.fare_after_caps.minor_units)

module _ (policy : FarePolicy) (h : FareCapHistory) (fare : Money) where
  -- The application that the stage computes.
  cap_application : FareCapApplication
  cap_application =
      let daily = allowance policy.daily_cap h.daily_charged in
      let weekly = allowance policy.weekly_cap h.weekly_charged in
      let after = capped_fare policy fare daily weekly in
      record {
        policy_id = policy.id;
        policy_version = policy.version;
        daily_remaining_before = daily;
        weekly_remaining_before = weekly;
        discount_applied = from_minor_units (fare.minor_units -ℤ after.minor_units) fare.currency;
        fare_after_caps = after;
        daily_cap_reached = cap_reached h.daily_charged after policy.daily_cap;
        weekly_cap_reached = cap_reached h.weekly_charged after policy.weekly_cap;
      }

  module _ (v : IsValidDefinition policy.definition) (r : IsRepresentable policy.definition)
      (hist : IsValidHistory policy.currency h) (amount : IsAmount policy.currency fare)
      (range : IsMoney fare) where
    validate_caps_input_lem : validate_caps_input policy h fare ≡ ok tt
    unfolding validate_caps_input
    validate_caps_input_lem = ground arith

    capped_bounds :
        let after = cap_application.fare_after_caps.minor_units in
        (pos 0 ≤ℤ after)
        × (after ≤ℤ fare.minor_units)
        × (after ≤ℤ (allowance policy.daily_cap h.daily_charged).minor_units)
        × (after ≤ℤ (allowance policy.weekly_cap h.weekly_charged).minor_units)
    unfolding cap_application capped_fare allowance ◌-ℤ◌
    capped_bounds = ground arith

    -- The fare, or one of the allowances in full.
    capped_attained :
        let after = cap_application.fare_after_caps.minor_units in
        (after ≡ fare.minor_units)
        ⊎ (after ≡ (allowance policy.daily_cap h.daily_charged).minor_units)
        ⊎ (after ≡ (allowance policy.weekly_cap h.weekly_charged).minor_units)
    unfolding cap_application capped_fare allowance ◌-ℤ◌
    capped_attained = ground arith

    apply_fare_caps_lem : apply_fare_caps policy h fare ≡ ok cap_application
    unfolding cap_application apply_fare_caps
    apply_fare_caps_lem =
        let (a, b, _, _) = capped_bounds in
        rw (
          validate_caps_input_lem,
          remaining_allowance_lem policy.currency policy.daily_cap h.daily_charged v.daily_cap
              hist.daily r.daily_cap,
          remaining_allowance_lem policy.currency policy.weekly_cap h.weekly_charged v.weekly_cap
              hist.weekly r.weekly_cap,
          checked_subtract_within fare cap_application.fare_after_caps
              (unfold capped_fare in amount.0) range a b,
        )

    cap_currency : cap_application.fare_after_caps.currency ≡ policy.currency
    unfolding cap_application capped_fare
    cap_currency = refl

    cap_discount :
        cap_application.discount_applied
        ≡ from_minor_units
            (fare.minor_units -ℤ cap_application.fare_after_caps.minor_units)
            fare.currency
    unfolding cap_application
    cap_discount = refl

    cap_post : CapPost policy h fare cap_application
    cap_post =
        let (a, b, c, d) = capped_bounds in
        let after = cap_application.fare_after_caps in
        let day =
          allowance_bounds policy.currency policy.daily_cap h.daily_charged after.minor_units
            hist.daily a in
        let week =
          allowance_bounds policy.currency policy.weekly_cap h.weekly_charged after.minor_units
            hist.weekly a in
        record {
          discount = rw cap_discount (amount.0, omega int_laws);
          after = (cap_currency, a);
          splits = rw cap_discount (omega int_laws);
          daily_within = day.0 c;
          weekly_within = week.0 d;
          reduced_only_by_a_cap = elim capped_attained [
            | inl e ↦ inl (rw (cap_discount, e) (omega int_laws))
            | inr (inl e) ↦ inr (inl (day.1 e))
            | inr (inr e) ↦ inr (inr (week.1 e))
          ];
          daily_reached =
              unfold cap_application in
              cap_reached_iff policy.currency policy.daily_cap h.daily_charged
                cap_application.fare_after_caps v.daily_cap hist.daily r.daily_cap hist.daily_range
                a c;
          weekly_reached =
              unfold cap_application in
              cap_reached_iff policy.currency policy.weekly_cap h.weekly_charged
                cap_application.fare_after_caps v.weekly_cap hist.weekly r.weekly_cap
                hist.weekly_range a d;
        }

    -- With a valid policy, a valid history and a fare of zero or more in the policy's currency, the
    -- cap stage succeeds: the discount and the fare after it are not negative and add up to the
    -- fare; a charge that is not zero keeps the day and the week within their caps; the fare is
    -- reduced only when the day or the week then reaches its cap; and each flag says, with no
    -- overflow of the unchecked sum, whether the charges of its period reach the cap.
    pub apply_fare_caps_total :
        (a : FareCapApplication) × (apply_fare_caps policy h fare ≡ ok a) × CapPost policy h fare a
    apply_fare_caps_total = (cap_application, apply_fare_caps_lem, cap_post)

-- A history or a fare that breaks a rule is refused: whatever the stage accepts has amounts of the
-- policy's currency, none negative, and a day's charges within the week's.
pub apply_fare_caps_accepts :
    (policy : FarePolicy) (h : FareCapHistory) (fare : Money) {a : FareCapApplication}
    → apply_fare_caps policy h fare ≡ ok a
    → IsAmount policy.currency h.daily_charged
      × IsAmount policy.currency h.weekly_charged
      × IsAmount policy.currency fare
      × (h.daily_charged.minor_units ≤ℤ h.weekly_charged.minor_units)
unfolding apply_fare_caps validate_caps_input
apply_fare_caps_accepts policy h fare e = ground arith

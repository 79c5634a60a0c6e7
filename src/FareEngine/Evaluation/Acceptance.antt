-- ===== src/FareEngine/Evaluation/Acceptance.antt =====
-- The inputs that `evaluate_fare` (crates/fare-engine/src/evaluation.rs) accepts.
use transit_guard.Base.{
  subst, ℕ, ◌≡◌, refl, sym, ap, ◌∙◌, ◌+◌, ◌*◌, ◌^◌, ◌<◌, inl, inr, Option, some, none, arith,
}
use transit_guard.Base.Result.{ok, map_err, Result-cases, >>=-eq-ok, map_err-eq-ok}
use transit_guard.Base.Int.{◌+ℤ◌, *ℤ-pos, ◌≤ℤ◌}
use transit_guard.Domain.Money.{Money, IsMoney, Currency, checked_add}
use transit_guard.Domain.Transaction.{EventTime, IsEventTime}
use transit_guard.FareEngine.Policy.{FarePolicy}
use transit_guard.FareEngine.Policy.Validity.{IsAmount, IsValidDefinition}
use transit_guard.FareEngine.Transfer.{TransferApplication, apply_transfer}
use transit_guard.FareEngine.Transfer.Benefit.{NotAfter, apply_transfer_accepts}
use transit_guard.FareEngine.Cap.{FareCapApplication, apply_fare_caps}
use transit_guard.FareEngine.Cap.Bounds.{apply_fare_caps_accepts}
use transit_guard.FareEngine.Evaluation.{
  FareEvaluationInput, FareEvaluation, BaseFare, evaluate_fare, calculate_base_fare,
  validate_balance, calculate_zone_surcharge, abs_diff,
}
use transit_guard.FareEngine.Evaluation.Stages.{FitsI64, units, amount-eq, amount_of}
use transit_guard.FareEngine.Evaluation.Pipeline.{IsValidInput}

-- What the types of an input guarantee without a check.
pub record IsTyped (input : FareEvaluationInput) : Type 0 where
  pub time : IsEventTime input.event_time
  pub previous :
      (p : EventTime)
      → input.transfer_history.previous_paid_fare_event_time ≡ some p
      → IsEventTime p
  pub daily : IsMoney input.fare_cap_history.daily_charged
  pub weekly : IsMoney input.fare_cap_history.weekly_charged

-- A history that is empty or not late, from its one event time.
NotAfter-of :
    (o : Option EventTime) (t : EventTime)
    → ((p : EventTime) → o ≡ some p → IsEventTime p × (p.unix_milliseconds ≤ℤ t.unix_milliseconds))
    → NotAfter o t
NotAfter-of none t h = tt
NotAfter-of (some p) t h = h p refl

-- A surcharge and a sum that pass their range checks.
surcharge_inv :
    (m : Money) (zones : ℕ) (currency : Currency) {s : Money}
    → IsAmount currency m
    → calculate_zone_surcharge m zones ≡ ok s
    → s ≡ amount_of (units m * zones) currency
unfolding calculate_zone_surcharge
surcharge_inv m zones currency a h =
    let e = ap (λ x. calculate_zone_surcharge x zones) (amount-eq currency m a) in
    ground (arith, sym e ∙ h, *ℤ-pos (units m) zones)

add_fits :
    (m : Money) (n : ℕ) (currency : Currency) {s : Money}
    → IsAmount currency m
    → checked_add m (amount_of n currency) ≡ ok s
    → units m + n < 2 ^ 63
unfolding checked_add ◌+ℤ◌
add_fits m n currency a h = ground arith

base_fits :
    (policy : FarePolicy) (input : FareEvaluationInput) {b : BaseFare}
    → IsValidDefinition policy.definition
    → calculate_base_fare policy input ≡ ok b
    → FitsI64 policy input
unfolding calculate_base_fare
base_fits policy input v h =
    let zones = abs_diff input.origin_zone.value input.destination_zone.value in
    let (s, es, h1) = >>=-eq-ok (calculate_zone_surcharge policy.zone_surcharge zones) _ h in
    let (before, eb, _) = >>=-eq-ok (map_err _ (checked_add policy.base_fare s)) _ h1 in
    let whole = surcharge_inv policy.zone_surcharge zones policy.currency v.zone_surcharge es in
    add_fits policy.base_fare (units policy.zone_surcharge * zones) policy.currency v.base_fare (
      subst (λ x. checked_add policy.base_fare x ≡ ok before) whole
        (map_err-eq-ok _ (checked_add policy.base_fare s) eb))

module _ (policy : FarePolicy) (input : FareEvaluationInput) (e : FareEvaluation)
    (h : evaluate_fare policy input ≡ ok e) where
  accepted_balance : IsAmount policy.currency input.available_balance
  unfolding evaluate_fare validate_balance
  accepted_balance = ground arith

  accepted_base : (b : BaseFare) × (calculate_base_fare policy input ≡ ok b)
  unfolding evaluate_fare
  accepted_base = elim (Result-cases (calculate_base_fare policy input)) [
    | inl r ↦ r
    | inr (x, failed) ↦ ground arith
  ]

  accepted_transfer :
      (t : TransferApplication) × (apply_transfer policy input.event_time input.transfer_history
          accepted_base.0.fare_after_eligibility
        ≡ ok t)
  unfolding evaluate_fare
  accepted_transfer =
      elim (Result-cases (
        apply_transfer policy input.event_time input.transfer_history
          accepted_base.0.fare_after_eligibility)) [
            | inl r ↦ r
            | inr (x, failed) ↦ ground (arith, accepted_base.1)
          ]

  accepted_caps :
      (c : FareCapApplication) × (apply_fare_caps policy input.fare_cap_history
          accepted_transfer.0.fare_after_transfer
        ≡ ok c)
  unfolding evaluate_fare
  accepted_caps =
      elim (Result-cases
        (apply_fare_caps policy input.fare_cap_history accepted_transfer.0.fare_after_transfer)) [
          | inl r ↦ r
          | inr (x, failed) ↦ ground (arith, accepted_base.1, accepted_transfer.1)
        ]

  -- With a valid policy, and times and charges in the range of their types, whatever is evaluated
  -- is a valid input: a balance of the policy's currency
  -- that is not negative, no previous paid fare after the presentation, a cap history of the
  -- policy's currency with the day's charges within the week's and none negative, and a base and
  -- zone fare in the range of `i64`.
  pub evaluate_fare_accepts :
      IsValidDefinition policy.definition → IsTyped input → IsValidInput policy input
  evaluate_fare_accepts v typed =
      let (daily, weekly, _, ordered) =
        apply_fare_caps_accepts policy input.fare_cap_history
          accepted_transfer.0.fare_after_transfer accepted_caps.1 in
      record {
        balance = accepted_balance;
        past =
            NotAfter-of input.transfer_history.previous_paid_fare_event_time input.event_time
              (λ p e. (
                typed.previous p e,
                apply_transfer_accepts policy input.event_time p input.transfer_history
                    accepted_base.0.fare_after_eligibility accepted_transfer.1 e,
              ));
        history = record {
          daily = daily;
          weekly = weekly;
          ordered = ordered;
          daily_range = typed.daily;
          weekly_range = typed.weekly;
        };
        fits = base_fits policy input v accepted_base.1;
      }

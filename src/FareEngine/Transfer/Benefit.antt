-- ===== src/FareEngine/Transfer/Benefit.antt =====
-- The transfer benefit of crates/fare-engine/src/transfer.rs: who is eligible, and what is granted.
use transit_guard.Base.{refl, ◌≡◌, ◌+◌, ◌≤◌, ◌↔◌, ◌⊎◌, Bool, true, false, Option, some, none, arith}
use transit_guard.Base.Tests.{leb}
use transit_guard.Base.Result.{ok, err}
use transit_guard.Base.Int.{pos, ◌+ℤ◌, ◌-ℤ◌, ◌≤ℤ◌, ◌<ℤ◌}
use transit_guard.Domain.Money.{Money, IsMoney, from_minor_units, checked_subtract}
use transit_guard.Domain.Transaction.{EventTime, IsEventTime}
use transit_guard.Domain.Transaction.Times.{millis, unsigned_abs-difference}
use transit_guard.FareEngine.Policy.{FarePolicy}
use transit_guard.FareEngine.Policy.Validity.{IsAmount, IsValidDefinition}
use transit_guard.FareEngine.Transfer.{
  validate_fare, TransferHistory, TransferApplication, TransferEvaluationError, apply_transfer,
  transfer_is_eligible, elapsed_milliseconds, eligible_after, transfer_discount_for,
}

-- The previous paid fare, if there is one, is a time and does not follow `t`.
abbrev pub NotAfter : Option EventTime → EventTime → Type 0
NotAfter none t = Unit {0}
NotAfter (some p) t = IsEventTime p × (p.unix_milliseconds ≤ℤ t.unix_milliseconds)

-- A previous paid fare lies at most the transfer window back, the boundary included.
abbrev pub InWindow : FarePolicy → Option EventTime → EventTime → Type 0
InWindow policy none t = ⊥
InWindow policy (some p) t = millis t ≤ millis p + policy.transfer_window.milliseconds

-- What a transfer application for `fare` says.
pub record TransferPost (policy : FarePolicy) (t : EventTime) (h : TransferHistory) (fare : Money)
    (a : TransferApplication) : Type 0 where
  pub eligible_iff : (a.eligible ≡ true) ↔ InWindow policy h.previous_paid_fare_event_time t
  pub discount : IsAmount policy.currency a.discount_applied
  pub after : IsAmount policy.currency a.fare_after_transfer
  pub splits :
      a.discount_applied.minor_units +ℤ a.fare_after_transfer.minor_units ≡ fare.minor_units
  pub within_discount : a.discount_applied.minor_units ≤ℤ policy.transfer_discount.minor_units
  pub granted :
      a.eligible ≡ true
      → (a.discount_applied.minor_units ≡ policy.transfer_discount.minor_units)
        ⊎ (a.fare_after_transfer.minor_units ≡ pos 0)
  pub withheld : a.eligible ≡ false → a.discount_applied.minor_units ≡ pos 0

-- The test on the elapsed time decides the window.
eligible_lem :
    (policy : FarePolicy) (t : EventTime) (o : Option EventTime)
    → IsEventTime t
    → NotAfter o t
    → (b : Bool) × (eligible_after policy t o ≡ ok b) × ((b ≡ true) ↔ InWindow policy o t)
unfolding eligible_after
eligible_lem policy t none time past = (false, refl, (λ h. cc, λ h. absurd h))
eligible_lem policy t (some p) time (pt, le) =
    let e = unsigned_abs-difference t p time pt le in
    (
      leb (elapsed_milliseconds t p) policy.transfer_window.milliseconds,
      ground arith,
      (λ h. ground (arith, e), λ h. ground (arith, e)),
    )

module _ (policy : FarePolicy) (t : EventTime) (h : TransferHistory) (fare : Money) where
  -- Once eligibility is known, the rest of `apply_transfer` cannot fail on a valid amount.
  apply_transfer_at :
      (b : Bool)
      → IsValidDefinition policy.definition
      → IsAmount policy.currency fare
      → IsMoney fare
      → transfer_is_eligible policy t h ≡ ok b
      → ((b ≡ true) ↔ InWindow policy h.previous_paid_fare_event_time t)
      → (a : TransferApplication) × (apply_transfer policy t h fare ≡ ok a)
        × TransferPost policy t h fare a
  unfolding apply_transfer validate_fare transfer_discount_for checked_subtract ◌-ℤ◌ ◌+ℤ◌
  apply_transfer_at b v amount range e iff = (
    record {
      policy_id = policy.id;
      policy_version = policy.version;
      eligible = b;
      discount_applied = transfer_discount_for policy b fare;
      fare_after_transfer =
          from_minor_units (fare.minor_units -ℤ (transfer_discount_for policy b fare).minor_units)
            fare.currency;
    },
    ground arith,
    ground arith,
  )

  -- With a valid policy, a fare of zero or more in the policy's currency and a previous paid fare
  -- that does not follow the presentation, the transfer stage succeeds: it is eligible exactly
  -- within the inclusive window, the discount and the fare after it are not negative and add up to
  -- the fare, an eligible rider gets the policy's discount or pays nothing, any other gets none.
  pub apply_transfer_total :
      IsValidDefinition policy.definition
      → IsAmount policy.currency fare
      → IsMoney fare
      → IsEventTime t
      → NotAfter h.previous_paid_fare_event_time t
      → (a : TransferApplication) × (apply_transfer policy t h fare ≡ ok a)
        × TransferPost policy t h fare a
  unfolding transfer_is_eligible
  apply_transfer_total v amount range time past =
      let (b, e, iff) = eligible_lem policy t h.previous_paid_fare_event_time time past in
      apply_transfer_at b v amount range e iff

-- A previous paid fare after the presentation is refused, with both times.
pub apply_transfer_future :
    (policy : FarePolicy) (t p : EventTime) (fare : Money)
    → IsAmount policy.currency fare
    → t.unix_milliseconds <ℤ p.unix_milliseconds
    → apply_transfer policy t (record { previous_paid_fare_event_time = some p }) fare
      ≡ err (
          TransferEvaluationError.previous_fare_occurs_after_current p.unix_milliseconds
            t.unix_milliseconds)
unfolding apply_transfer validate_fare transfer_is_eligible
apply_transfer_future policy t p fare amount later = ground arith

-- The transfer stage accepts no previous paid fare that follows the presentation.
pub apply_transfer_accepts :
    (policy : FarePolicy) (t p : EventTime) (h : TransferHistory) (fare : Money)
    {a : TransferApplication}
    → apply_transfer policy t h fare ≡ ok a
    → h.previous_paid_fare_event_time ≡ some p
    → p.unix_milliseconds ≤ℤ t.unix_milliseconds
unfolding apply_transfer transfer_is_eligible
apply_transfer_accepts policy t p h fare e past = ground arith

-- ===== src/FareEngine/Transfer.antt =====
-- crates/fare-engine/src/transfer.rs: the transfer benefit.
pub mod Benefit
use transit_guard.Base.{ℕ, Bool, false, Option, some, none, ite}
use transit_guard.Base.Tests.{if◌then◌else◌, leb}
use transit_guard.Base.Result.{Result, ok, err, ◌>>=◌, ◌>>◌, map_err}
use transit_guard.Base.Int.{ℤ, ◌-ℤ◌, ltb_ℤ, min_ℤ, unsigned_abs, wrap_i64}
use transit_guard.Domain.Identifier.{FarePolicyId}
use transit_guard.Domain.Money.{
  Currency, Currency-discrete, Money, is_negative, from_minor_units, zero_money, checked_subtract,
}
use transit_guard.Domain.Transaction.{FarePolicyVersion, EventTime}
use transit_guard.FareEngine.Policy.{FarePolicy}

pub record TransferHistory : Type 0 where
  pub previous_paid_fare_event_time : Option EventTime

pub data TransferEvaluationError : Type 0 where
  currency_mismatch : Currency → Currency → TransferEvaluationError
  negative_fare : Money → TransferEvaluationError
  previous_fare_occurs_after_current : ℤ → ℤ → TransferEvaluationError
  arithmetic_failure : TransferEvaluationError

pub record TransferApplication : Type 0 where
  pub policy_id : FarePolicyId
  pub policy_version : FarePolicyVersion
  pub eligible : Bool
  pub discount_applied : Money
  pub fare_after_transfer : Money

unfoldable pub validate_fare : FarePolicy → Money → Result (Unit {0}) TransferEvaluationError
validate_fare policy fare =
    ite (Currency-discrete fare.currency policy.currency)
      (if is_negative fare then err (TransferEvaluationError.negative_fare fare) else ok tt)
      (err (TransferEvaluationError.currency_mismatch policy.currency fare.currency))

-- `(current - previous).unsigned_abs()`: an unchecked `i64` subtraction.
abbrev pub elapsed_milliseconds : EventTime → EventTime → ℕ
elapsed_milliseconds current previous =
    unsigned_abs (wrap_i64 (current.unix_milliseconds -ℤ previous.unix_milliseconds))

-- The part of `transfer_is_eligible` after `let Some(previous_event_time) = … else { … }`.
within_window : FarePolicy → EventTime → EventTime → Result Bool TransferEvaluationError
within_window policy current previous =
    if ltb_ℤ current.unix_milliseconds previous.unix_milliseconds
    then err (
        TransferEvaluationError.previous_fare_occurs_after_current previous.unix_milliseconds
          current.unix_milliseconds)
    else ok (leb (elapsed_milliseconds current previous) policy.transfer_window.milliseconds)

eligible_after : FarePolicy → EventTime → Option EventTime → Result Bool TransferEvaluationError
unfolding within_window
eligible_after policy current none = ok false
eligible_after policy current (some previous) = within_window policy current previous

unfoldable pub transfer_is_eligible :
    FarePolicy → EventTime → TransferHistory → Result Bool TransferEvaluationError
unfolding eligible_after
transfer_is_eligible policy current history =
    eligible_after policy current history.previous_paid_fare_event_time

-- `discount_applied`, by whether the transfer is eligible.
unfoldable pub transfer_discount_for : FarePolicy → Bool → Money → Money
transfer_discount_for policy eligible fare =
    if eligible
    then from_minor_units (min_ℤ policy.transfer_discount.minor_units fare.minor_units)
        policy.currency
    else zero_money policy.currency

unfoldable pub apply_transfer :
    FarePolicy
    → EventTime
    → TransferHistory
    → Money
    → Result TransferApplication TransferEvaluationError
apply_transfer policy current_event_time history fare_after_eligibility = do
  validate_fare policy fare_after_eligibility
  eligible ← transfer_is_eligible policy current_event_time history
  let discount_applied = transfer_discount_for policy eligible fare_after_eligibility
  fare_after_transfer ←
      map_err (λ _. TransferEvaluationError.arithmetic_failure)
        (checked_subtract fare_after_eligibility discount_applied)
  ok (record {
    policy_id = policy.id;
    policy_version = policy.version;
    eligible = eligible;
    discount_applied = discount_applied;
    fare_after_transfer = fare_after_transfer;
  })

-- ===== src/FareEngine/Cap.antt =====
-- crates/fare-engine/src/cap.rs: the daily and weekly fare caps.
pub mod Bounds
use transit_guard.Base.{Bool, ite, String}
use transit_guard.Base.Tests.{if◌then◌else◌}
use transit_guard.Base.Result.{Result, ok, err, ◌>>=◌, ◌>>◌, map_err}
use transit_guard.Base.Int.{◌+ℤ◌, ltb_ℤ, leb_ℤ, min_ℤ, wrap_i64}
use transit_guard.Domain.Identifier.{FarePolicyId}
use transit_guard.Domain.Money.{
  Currency, Currency-discrete, Money, is_negative, from_minor_units, zero_money, checked_subtract,
}
use transit_guard.Domain.Transaction.{FarePolicyVersion}
use transit_guard.FareEngine.Policy.{FarePolicy}

pub record FareCapHistory : Type 0 where
  pub daily_charged : Money
  pub weekly_charged : Money

pub data FareCapEvaluationError : Type 0 where
  currency_mismatch : String → Currency → Currency → FareCapEvaluationError
  negative_amount : String → Money → FareCapEvaluationError
  daily_charged_exceeds_weekly_charged : Money → Money → FareCapEvaluationError
  arithmetic_failure : FareCapEvaluationError

pub record FareCapApplication : Type 0 where
  pub policy_id : FarePolicyId
  pub policy_version : FarePolicyVersion
  pub daily_remaining_before : Money
  pub weekly_remaining_before : Money
  pub discount_applied : Money
  pub fare_after_caps : Money
  pub daily_cap_reached : Bool
  pub weekly_cap_reached : Bool

validate_amount : FarePolicy → String → Money → Result (Unit {0}) FareCapEvaluationError
validate_amount policy field amount =
    ite (Currency-discrete amount.currency policy.currency)
      (if is_negative amount
        then err (FareCapEvaluationError.negative_amount field amount)
        else ok tt)
      (err (FareCapEvaluationError.currency_mismatch field policy.currency amount.currency))

unfoldable pub remaining_allowance : Money → Money → Result Money FareCapEvaluationError
remaining_allowance cap charged =
    if leb_ℤ cap.minor_units charged.minor_units
    then ok (zero_money cap.currency)
    else map_err (λ _. FareCapEvaluationError.arithmetic_failure) (checked_subtract cap charged)

-- The four checks of `apply_fare_caps`, in the order of the code.
unfoldable pub validate_caps_input :
    FarePolicy → FareCapHistory → Money → Result (Unit {0}) FareCapEvaluationError
unfolding validate_amount
validate_caps_input policy history fare_after_transfer = do
  validate_amount policy "daily_charged" history.daily_charged
  validate_amount policy "weekly_charged" history.weekly_charged
  validate_amount policy "fare_after_transfer" fare_after_transfer
  if ltb_ℤ history.weekly_charged.minor_units history.daily_charged.minor_units
      then err (
          FareCapEvaluationError.daily_charged_exceeds_weekly_charged history.daily_charged
            history.weekly_charged)
      else ok tt

-- `charged + fare >= cap`: the sum is an unchecked `i64` addition.
unfoldable pub cap_reached : Money → Money → Money → Bool
cap_reached charged fare cap =
    leb_ℤ cap.minor_units (wrap_i64 (charged.minor_units +ℤ fare.minor_units))

-- The rest of `apply_fare_caps`, once both allowances are known.
unfoldable pub capped_fare : FarePolicy → Money → Money → Money → Money
capped_fare policy fare daily_remaining weekly_remaining =
    from_minor_units
      (min_ℤ (min_ℤ fare.minor_units daily_remaining.minor_units) weekly_remaining.minor_units)
      policy.currency

unfoldable pub apply_fare_caps :
    FarePolicy → FareCapHistory → Money → Result FareCapApplication FareCapEvaluationError
apply_fare_caps policy history fare_after_transfer = do
  validate_caps_input policy history fare_after_transfer
  daily_remaining_before ← remaining_allowance policy.daily_cap history.daily_charged
  weekly_remaining_before ← remaining_allowance policy.weekly_cap history.weekly_charged
  let fare_after_caps =
      capped_fare policy fare_after_transfer daily_remaining_before weekly_remaining_before
  discount_applied ←
      map_err (λ _. FareCapEvaluationError.arithmetic_failure)
        (checked_subtract fare_after_transfer fare_after_caps)
  ok (record {
    policy_id = policy.id;
    policy_version = policy.version;
    daily_remaining_before = daily_remaining_before;
    weekly_remaining_before = weekly_remaining_before;
    discount_applied = discount_applied;
    fare_after_caps = fare_after_caps;
    daily_cap_reached = cap_reached history.daily_charged fare_after_caps policy.daily_cap;
    weekly_cap_reached = cap_reached history.weekly_charged fare_after_caps policy.weekly_cap;
  })

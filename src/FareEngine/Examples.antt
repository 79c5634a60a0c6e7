-- ===== src/FareEngine/Examples.antt =====
-- A policy with a base fare of 2.50, and presentations under it.
mod Stages
use transit_guard.Base.{◌≤◌, ◌≡◌, refl, true, false, none, arith}
use transit_guard.Base.Result.{ok}
use transit_guard.Base.Int.{ℤ, pos, ◌≤ℤ◌, ◌+ℤ◌, ◌-ℤ◌, ◌*ℤ◌, div_trunc, wrap_i64}
use transit_guard.Domain.Money.{
  Money, Currency, Currency-discrete, from_minor_units, checked_add, checked_subtract, checked_cmp,
}
use transit_guard.Domain.Account.{EligibilityClassification}
use transit_guard.Domain.Transaction.{EventTime, FareApprovalReason}
use transit_guard.FareEngine.Policy.{FarePolicy, FarePolicyDefinition, rate_for}
use transit_guard.FareEngine.Policy.Validity.{IsValidDefinition, IsRepresentable}
use transit_guard.FareEngine.Transfer.{
  apply_transfer, validate_fare, transfer_is_eligible, transfer_discount_for,
}
use transit_guard.FareEngine.Cap.{
  apply_fare_caps, validate_caps_input, remaining_allowance, cap_reached, capped_fare,
}
use transit_guard.FareEngine.Product
use transit_guard.FareEngine.Product.{
  ProductApplicationOutcome, apply_transit_product, apply_presented,
}
use transit_guard.FareEngine.Evaluation.{
  FareEvaluationInput, FareEvaluation, FareEvaluationOutcome, evaluate_fare, validate_balance,
  calculate_base_fare, calculate_zone_surcharge, calculate_percentage, outcome_for,
  evaluate_stored_value, evidence_of, stored_value_reason,
}
use transit_guard.FareEngine.Evaluation.Pipeline.{IsValidInput, Decides}
use transit_guard.FareEngine.Evaluation.Decision.{
  Breakdown, Charges, evaluate_fare_total, evaluate_fare-Decides, evaluate_fare-Charges,
}
use transit_guard.FareEngine.Evaluation.Acceptance.{IsTyped, evaluate_fare_accepts}
use transit_guard.FareEngine.Offline.{
  OfflineEvaluationContext, OfflineFareEvaluation, evaluate_fare_offline,
  validate_provisional_limit, snapshot_age, apply_freshness, apply_offline_limit,
}
use transit_guard.FareEngine.Offline.Outcome.{OfflinePost, IsValidContext}
use transit_guard.FareEngine.Offline.Parity.{evaluate_fare_offline_total, offline_approval_sound}

abbrev pub usd : ℤ → Money
usd minor_units = from_minor_units minor_units Currency.usd

abbrev pub definition : FarePolicyDefinition
definition = record {
  id = 7;
  version = record { value = 3 };
  currency = Currency.usd;
  base_fare = usd (pos 250);
  zone_surcharge = usd (pos 75);
  transfer_window = record { milliseconds = 5_400_000 };
  transfer_discount = usd (pos 250);
  daily_cap = usd (pos 750);
  weekly_cap = usd (pos 3_000);
  eligibility_discounts = record {
    youth = record { value = 5_000 };
    senior = record { value = 5_000 };
    reduced_fare = record { value = 5_000 };
    employee_test_account = record { value = 10_000 };
  };
}

abbrev pub policy : FarePolicy
policy = record { definition = definition }

abbrev pub at : ℤ → EventTime
at milliseconds = record { unix_milliseconds = milliseconds }

-- A youth rider crosses two zones, with 6.00 charged today and 5.00 left on the account.
abbrev pub input : FareEvaluationInput
input = record {
  event_time = at (pos 10_000_000);
  origin_zone = record { value = 1 };
  destination_zone = record { value = 3 };
  eligibility = EligibilityClassification.youth;
  transfer_history = record { previous_paid_fare_event_time = none };
  fare_cap_history = record { daily_charged = usd (pos 600); weekly_charged = usd (pos 900) };
  transit_product = none;
  available_balance = usd (pos 500);
}

pub definition-IsValidDefinition : IsValidDefinition definition
definition-IsValidDefinition = ground arith

pub definition-IsRepresentable : IsRepresentable definition
definition-IsRepresentable = ground arith

pub input-IsValidInput : IsValidInput policy input
input-IsValidInput = ground arith

-- 2.50 and twice 0.75, less half for a youth, and 1.50 left of the day's cap.
abbrev online : FareEvaluation
online = record {
  policy_id = 7;
  policy_version = record { value = 3 };
  event_time = at (pos 10_000_000);
  outcome = FareEvaluationOutcome.approved (usd (pos 150)) FareApprovalReason.fare_cap;
  evidence = record {
    base_fare = usd (pos 250);
    additional_zone_count = 2;
    zone_surcharge = usd (pos 150);
    fare_before_discount = usd (pos 400);
    eligibility = EligibilityClassification.youth;
    discount_basis_points = record { value = 5_000 };
    eligibility_discount = usd (pos 200);
    fare_after_eligibility = usd (pos 200);
    transfer_eligible = false;
    transfer_discount = usd (pos 0);
    fare_after_transfer = usd (pos 200);
    fare_cap_discount = usd (pos 50);
    fare_after_caps = usd (pos 150);
    daily_cap_reached = true;
    weekly_cap_reached = false;
    product_outcome = ProductApplicationOutcome.not_presented;
    product_discount = usd (pos 0);
    fare_after_product = usd (pos 150);
    final_fare = usd (pos 150);
  };
}

evaluate_fare-input : evaluate_fare policy input ≡ ok online
unfolding evaluate_fare validate_balance calculate_base_fare calculate_zone_surcharge
    calculate_percentage outcome_for evaluate_stored_value evidence_of stored_value_reason rate_for
    div_trunc wrap_i64 checked_add checked_subtract checked_cmp ◌+ℤ◌ ◌-ℤ◌ ◌*ℤ◌ apply_transfer
    validate_fare transfer_is_eligible transfer_discount_for apply_fare_caps validate_caps_input
    remaining_allowance cap_reached capped_fare apply_transit_product apply_presented
    Product.validate_fare Currency-discrete
evaluate_fare-input = refl

evaluate_fare_total_example :
    (e : FareEvaluation) × (evaluate_fare policy input ≡ ok e) × Breakdown policy input e
evaluate_fare_total_example =
    evaluate_fare_total policy input definition-IsValidDefinition definition-IsRepresentable
      (ground arith) input-IsValidInput

evaluate_fare-Decides_example :
    Decides ProductApplicationOutcome.not_presented Currency.usd
      (usd (pos 500))
      (usd (pos 150))
      FareApprovalReason.fare_cap
      online.outcome
evaluate_fare-Decides_example =
    evaluate_fare-Decides policy input definition-IsValidDefinition definition-IsRepresentable
      (ground arith) input-IsValidInput evaluate_fare-input

evaluate_fare-Charges_example : Charges policy input online (usd (pos 150))
evaluate_fare-Charges_example =
    evaluate_fare-Charges policy input definition-IsValidDefinition definition-IsRepresentable
      (ground arith) input-IsValidInput evaluate_fare-input refl

input-IsTyped : IsTyped input
input-IsTyped = record {
  time = ground arith;
  previous = λ p h. absurd (ground arith);
  daily = ground arith;
  weekly = ground arith;
}

evaluate_fare_accepts_example : IsValidInput policy input
evaluate_fare_accepts_example =
    evaluate_fare_accepts policy input online evaluate_fare-input definition-IsValidDefinition
      input-IsTyped

-- Caches of an hour and of twenty minutes ago, and provisional charges of up to 2.00.
abbrev context : OfflineEvaluationContext
context = record {
  policy_cached_at = at (pos 6_400_000);
  maximum_policy_age_milliseconds = 86_400_000;
  revocation_data_cached_at = at (pos 8_800_000);
  maximum_revocation_age_milliseconds = 3_600_000;
  provisional_charge_limit = usd (pos 200);
}

abbrev offline : OfflineFareEvaluation
offline = record {
  evaluation = record online {
    outcome = FareEvaluationOutcome.approved (usd (pos 150)) FareApprovalReason.offline_provisional;
  };
  policy_age_milliseconds = 3_600_000;
  revocation_data_age_milliseconds = 1_200_000;
  provisional_charge_limit = usd (pos 200);
}

context-IsValidContext : IsValidContext policy input context
context-IsValidContext = ground arith

evaluate_fare_offline-input : evaluate_fare_offline policy input context ≡ ok offline
unfolding evaluate_fare_offline validate_provisional_limit snapshot_age apply_freshness
    apply_offline_limit wrap_i64 ◌-ℤ◌ checked_cmp Currency-discrete
evaluate_fare_offline-input = rw evaluate_fare-input refl

evaluate_fare_offline_total_example :
    (e : FareEvaluation) × (o : OfflineFareEvaluation) × (evaluate_fare policy input ≡ ok e)
    × (evaluate_fare_offline policy input context ≡ ok o)
    × OfflinePost input context e o
evaluate_fare_offline_total_example =
    evaluate_fare_offline_total policy input context definition-IsValidDefinition
      definition-IsRepresentable (ground arith) input-IsValidInput context-IsValidContext

offline_approval_sound_example :
    (FareApprovalReason.offline_provisional ≡ FareApprovalReason.offline_provisional)
    × (pos 150 ≤ℤ pos 200)
    × (3_600_000 ≤ 86_400_000)
    × (1_200_000 ≤ 3_600_000)
    × ((e : FareEvaluation) × (online : FareApprovalReason) × (evaluate_fare policy input ≡ ok e)
        × (e.outcome ≡ FareEvaluationOutcome.approved (usd (pos 150)) online))
offline_approval_sound_example =
    offline_approval_sound policy input context definition-IsValidDefinition
      definition-IsRepresentable (ground arith) input-IsValidInput context-IsValidContext
      evaluate_fare_offline-input refl

-- ===== src/FareEngine/Examples/Stages.antt =====
-- The policy and the stages of the evaluation (crates/fare-engine) on concrete amounts.
use transit_guard.Base.{◌≡◌, ◌↔◌, some, arith}
use transit_guard.Base.Result.{ok}
use transit_guard.Base.Int.{pos}
use transit_guard.FareEngine.Policy.{validate}
use transit_guard.FareEngine.Policy.Validity.{IsValidDefinition, validate_iff}
use transit_guard.FareEngine.Transfer.{TransferApplication, apply_transfer}
use transit_guard.FareEngine.Transfer.Benefit.{TransferPost, apply_transfer_total}
use transit_guard.FareEngine.Cap.{FareCapApplication, apply_fare_caps}
use transit_guard.FareEngine.Cap.Bounds.{CapPost, apply_fare_caps_total}
use transit_guard.FareEngine.Product.{
  TransitProduct, TransitProductCoverage, ProductApplication, apply_transit_product,
}
use transit_guard.FareEngine.Product.Coverage.{ProductPost, apply_transit_product_total}
use transit_guard.FareEngine.Examples.{
  usd, definition, policy, at, input, definition-IsValidDefinition, definition-IsRepresentable,
  input-IsValidInput,
}

validate_iff_example :
    (validate definition ≡ ok policy) ↔ ((definition ≡ definition) × IsValidDefinition definition)
validate_iff_example = validate_iff definition policy

apply_fare_caps_total_example :
    (a : FareCapApplication) × (apply_fare_caps policy input.fare_cap_history (usd (pos 200))
      ≡ ok a)
    × CapPost policy input.fare_cap_history (usd (pos 200)) a
apply_fare_caps_total_example =
    apply_fare_caps_total policy input.fare_cap_history (usd (pos 200)) definition-IsValidDefinition
      definition-IsRepresentable input-IsValidInput.history (ground arith) (ground arith)

-- A transfer at the last millisecond of the window.
apply_transfer_total_example :
    (a : TransferApplication) × (apply_transfer policy
        (at (pos 10_000_000))
        (record { previous_paid_fare_event_time = some (at (pos 4_600_000)) })
        (usd (pos 325))
      ≡ ok a)
    × TransferPost policy
        (at (pos 10_000_000))
        (record { previous_paid_fare_event_time = some (at (pos 4_600_000)) })
        (usd (pos 325))
        a
apply_transfer_total_example =
    apply_transfer_total policy (at (pos 10_000_000))
      (record { previous_paid_fare_event_time = some (at (pos 4_600_000)) }) (usd (pos 325))
      definition-IsValidDefinition (ground arith) (ground arith) (ground arith) (ground arith)

-- A pass for zones 1 to 4.
abbrev pass : TransitProduct
pass = record {
  definition = record {
    product_id = 21;
    instance_id = 22;
    valid_from = at (pos 9_000_000);
    valid_until = at (pos 11_000_000);
    coverage = TransitProductCoverage.zone_range (record { value = 1 }) (record { value = 4 });
  };
}

apply_transit_product_total_example :
    (a : ProductApplication) × (apply_transit_product policy
        (some pass)
        input.event_time
        input.origin_zone
        input.destination_zone
        (usd (pos 150))
      ≡ ok a)
    × ProductPost policy input.event_time input.origin_zone input.destination_zone
        (some pass)
        (usd (pos 150))
        a
apply_transit_product_total_example =
    apply_transit_product_total policy input.event_time input.origin_zone input.destination_zone
      (usd (pos 150)) (some pass) (ground arith) (ground arith)

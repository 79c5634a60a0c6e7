-- ===== src/FareEngine/Product.antt =====
-- crates/fare-engine/src/product.rs: transit products, their validity and coverage.
pub mod Coverage
use transit_guard.Base.{ℕ, Bool, true, not, ◌&&◌, ◌||◌, Option, some, none, ite}
use transit_guard.Base.Tests.{if◌then◌else◌, leb, ltb}
use transit_guard.Base.Result.{Result, ok, err, ◌>>=◌, ◌>>◌, map_err}
use transit_guard.Base.Int.{ℤ, ltb_ℤ}
use transit_guard.Domain.Identifier.{FarePolicyId, TransitProductId, TransitProductInstanceId}
use transit_guard.Domain.Money.{
  Currency, Currency-discrete, Money, is_negative, zero_money, checked_subtract,
}
use transit_guard.Domain.Transaction.{FarePolicyVersion, EventTime}
use transit_guard.FareEngine.Policy.{FarePolicy, ZoneId}

pub data TransitProductError : Type 0 where
  invalid_validity_interval : ℤ → ℤ → TransitProductError
  invalid_zone_range : ℕ → ℕ → TransitProductError

-- `ZoneRange { first_zone, last_zone }` is inclusive at both ends.
pub data TransitProductCoverage : Type 0 where
  all_zones : TransitProductCoverage
  zone_range : ZoneId → ZoneId → TransitProductCoverage

-- `TransitProductCoverage::zone_range`, the checked constructor.
unfoldable pub new_zone_range : ZoneId → ZoneId → Result TransitProductCoverage TransitProductError
new_zone_range first_zone last_zone =
    if ltb last_zone.value first_zone.value
    then err (TransitProductError.invalid_zone_range first_zone.value last_zone.value)
    else ok (TransitProductCoverage.zone_range first_zone last_zone)

unfoldable pub covers : TransitProductCoverage → ZoneId → Bool
covers TransitProductCoverage.all_zones zone = true
covers (TransitProductCoverage.zone_range first_zone last_zone) zone =
    leb first_zone.value zone.value && leb zone.value last_zone.value

pub record TransitProductDefinition : Type 0 where
  pub product_id : TransitProductId
  pub instance_id : TransitProductInstanceId
  pub valid_from : EventTime
  pub valid_until : EventTime
  pub coverage : TransitProductCoverage

-- The validated product. Its accessors are those of the definition.
pub record TransitProduct : Type 0 where
  pub definition : TransitProductDefinition
  pub open definition use *

-- The derived order of `EventTime`.
abbrev pub earlier : EventTime → EventTime → Bool
earlier a b = ltb_ℤ a.unix_milliseconds b.unix_milliseconds

-- `TransitProduct::validate`.
unfoldable pub validate_product :
    TransitProductDefinition → Result TransitProduct TransitProductError
validate_product definition =
    if earlier definition.valid_until definition.valid_from
    then err (
        TransitProductError.invalid_validity_interval definition.valid_from.unix_milliseconds
          definition.valid_until.unix_milliseconds)
    else ok (record { definition = definition })

pub data ProductInvalidReason : Type 0 where
  not_yet_valid expired outside_zone_coverage : ProductInvalidReason

pub data ProductApplicationOutcome : Type 0 where
  not_presented : ProductApplicationOutcome
  covered : ProductApplicationOutcome
  invalid : ProductInvalidReason → ProductApplicationOutcome

pub data ProductEvaluationError : Type 0 where
  currency_mismatch : Currency → Currency → ProductEvaluationError
  negative_fare : Money → ProductEvaluationError
  arithmetic_failure : ProductEvaluationError

pub record ProductApplication : Type 0 where
  pub policy_id : FarePolicyId
  pub policy_version : FarePolicyVersion
  pub product_id : Option TransitProductId
  pub instance_id : Option TransitProductInstanceId
  pub outcome : ProductApplicationOutcome
  pub discount_applied : Money
  pub fare_after_product : Money

unfoldable pub validate_fare : FarePolicy → Money → Result (Unit {0}) ProductEvaluationError
validate_fare policy fare =
    ite (Currency-discrete fare.currency policy.currency)
      (if is_negative fare then err (ProductEvaluationError.negative_fare fare) else ok tt)
      (err (ProductEvaluationError.currency_mismatch policy.currency fare.currency))

unfoldable pub determine_outcome :
    TransitProduct → EventTime → ZoneId → ZoneId → ProductApplicationOutcome
determine_outcome product event_time origin_zone destination_zone =
    if earlier event_time product.valid_from
    then ProductApplicationOutcome.invalid ProductInvalidReason.not_yet_valid
    else if earlier product.valid_until event_time
    then ProductApplicationOutcome.invalid ProductInvalidReason.expired
    else if not (covers product.coverage origin_zone)
        || not (covers product.coverage destination_zone)
    then ProductApplicationOutcome.invalid ProductInvalidReason.outside_zone_coverage
    else ProductApplicationOutcome.covered

-- `match outcome { Covered => fare_after_caps, NotPresented | Invalid { .. } => zero }`.
product_discount_for : ProductApplicationOutcome → FarePolicy → Money → Money
product_discount_for ProductApplicationOutcome.covered policy fare = fare
product_discount_for _ policy fare = zero_money policy.currency

-- The two sides of `let Some(product) = product else { return … }`.
unfoldable pub apply_presented :
    FarePolicy
    → Option TransitProduct
    → EventTime
    → ZoneId
    → ZoneId
    → Money
    → Result ProductApplication ProductEvaluationError
unfolding product_discount_for
apply_presented policy none event_time origin_zone destination_zone fare_after_caps = ok (record {
  policy_id = policy.id;
  policy_version = policy.version;
  product_id = none;
  instance_id = none;
  outcome = ProductApplicationOutcome.not_presented;
  discount_applied = zero_money policy.currency;
  fare_after_product = fare_after_caps;
})
apply_presented policy (some product) event_time origin_zone destination_zone fare_after_caps = do
  let outcome = determine_outcome product event_time origin_zone destination_zone
  let discount_applied = product_discount_for outcome policy fare_after_caps
  fare_after_product ←
      map_err (λ _. ProductEvaluationError.arithmetic_failure)
        (checked_subtract fare_after_caps discount_applied)
  ok (record {
    policy_id = policy.id;
    policy_version = policy.version;
    product_id = some product.product_id;
    instance_id = some product.instance_id;
    outcome = outcome;
    discount_applied = discount_applied;
    fare_after_product = fare_after_product;
  })

unfoldable pub apply_transit_product :
    FarePolicy
    → Option TransitProduct
    → EventTime
    → ZoneId
    → ZoneId
    → Money
    → Result ProductApplication ProductEvaluationError
apply_transit_product policy product event_time origin_zone destination_zone fare_after_caps = do
  validate_fare policy fare_after_caps
  apply_presented policy product event_time origin_zone destination_zone fare_after_caps

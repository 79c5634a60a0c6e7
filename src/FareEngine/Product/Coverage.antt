-- ===== src/FareEngine/Product/Coverage.antt =====
-- Which journeys a transit product covers (crates/fare-engine/src/product.rs), and what it pays.
use transit_guard.Base.{◌≡◌, refl, ◌≤◌, ◌↔◌, ◌⊎◌, true, Option, some, none, arith}
use transit_guard.Base.Result.{ok}
use transit_guard.Base.Int.{pos, ◌+ℤ◌, ◌-ℤ◌, ◌≤ℤ◌, ◌<ℤ◌}
use transit_guard.Domain.Money.{Money, IsMoney, from_minor_units, zero_money, checked_subtract}
use transit_guard.Domain.Transaction.{EventTime}
use transit_guard.FareEngine.Policy.{FarePolicy, ZoneId}
use transit_guard.FareEngine.Policy.Validity.{IsAmount}
use transit_guard.FareEngine.Product.{
  TransitProduct, TransitProductCoverage, ProductApplication, ProductApplicationOutcome,
  ProductInvalidReason, covers, determine_outcome, apply_transit_product, apply_presented,
  product_discount_for, validate_fare,
}

-- The zones of a coverage.
abbrev pub Covers : TransitProductCoverage → ZoneId → Type 0
Covers TransitProductCoverage.all_zones zone = Unit {0}
Covers (TransitProductCoverage.zone_range first last) zone =
    (first.value ≤ zone.value) × (zone.value ≤ last.value)

pub covers_iff : (c : TransitProductCoverage) (z : ZoneId) → (covers c z ≡ true) ↔ Covers c z
unfolding covers
covers_iff TransitProductCoverage.all_zones z = (λ h. tt, λ h. refl)
covers_iff (TransitProductCoverage.zone_range first last) z = (λ h. ground arith, λ h. ground arith)

-- A product is valid at a time of its inclusive interval.
abbrev pub ValidAt : TransitProduct → EventTime → Type 0
ValidAt p t =
    (p.valid_from.unix_milliseconds ≤ℤ t.unix_milliseconds)
    × (t.unix_milliseconds ≤ℤ p.valid_until.unix_milliseconds)

module _ (p : TransitProduct) (t : EventTime) (origin destination : ZoneId) where
  -- A product covers a journey exactly if it is valid at the event time and covers both zones.
  pub determine_outcome-covered_iff :
      (determine_outcome p t origin destination ≡ ProductApplicationOutcome.covered)
      ↔ (ValidAt p t × Covers p.coverage origin × Covers p.coverage destination)
  unfolding determine_outcome
  determine_outcome-covered_iff =
      let a = covers_iff p.coverage origin in
      let b = covers_iff p.coverage destination in
      (λ h. ground (arith, a, b), λ h. ground (arith, a, b))

  -- The reason of a refusal is the first rule that the product breaks: validity not begun, validity
  -- over, a zone outside.
  abbrev pub RefusedBy : ProductApplicationOutcome → Type 0
  RefusedBy outcome =
      ((outcome ≡ ProductApplicationOutcome.invalid ProductInvalidReason.not_yet_valid)
        ↔ (t.unix_milliseconds <ℤ p.valid_from.unix_milliseconds))
      × ((outcome ≡ ProductApplicationOutcome.invalid ProductInvalidReason.expired) ↔ (
          (p.valid_from.unix_milliseconds ≤ℤ t.unix_milliseconds)
          × (p.valid_until.unix_milliseconds <ℤ t.unix_milliseconds)))
      × ((outcome ≡ ProductApplicationOutcome.invalid ProductInvalidReason.outside_zone_coverage)
          ↔ (ValidAt p t × ((¬ Covers p.coverage origin) ⊎ (¬ Covers p.coverage destination))))
      × (¬ (outcome ≡ ProductApplicationOutcome.not_presented))

  -- A presented product is never reported as not presented, and is refused by its rules.
  pub determine_outcome_reason : RefusedBy (determine_outcome p t origin destination)
  unfolding determine_outcome
  determine_outcome_reason =
      let a = covers_iff p.coverage origin in
      let b = covers_iff p.coverage destination in
      (
        (λ h. ground (arith, a, b), λ h. ground (arith, a, b)),
        (λ h. ground (arith, a, b), λ h. ground (arith, a, b)),
        (λ h. ground (arith, a, b), λ h. ground (arith, a, b)),
        λ h. ground (arith, a, b),
      )

-- A product was presented that is valid at the event time and covers both zones.
abbrev pub CoversJourney : Option TransitProduct → EventTime → ZoneId → ZoneId → Type 0
CoversJourney none t origin destination = ⊥
CoversJourney (some p) t origin destination =
    ValidAt p t × Covers p.coverage origin × Covers p.coverage destination

-- How a presented product is refused.
abbrev pub Refusal :
    Option TransitProduct → EventTime → ZoneId → ZoneId → ProductApplicationOutcome → Type 0
Refusal none t origin destination outcome = outcome ≡ ProductApplicationOutcome.not_presented
Refusal (some p) t origin destination outcome = RefusedBy p t origin destination outcome

-- What a product application for `fare` on a journey says.
pub record ProductPost (policy : FarePolicy) (t : EventTime) (origin destination : ZoneId)
    (presented : Option TransitProduct) (fare : Money) (a : ProductApplication) : Type 0 where
  pub discount : IsAmount policy.currency a.discount_applied
  pub after : IsAmount policy.currency a.fare_after_product
  pub splits : a.discount_applied.minor_units +ℤ a.fare_after_product.minor_units ≡ fare.minor_units
  pub presented_iff : (a.outcome ≡ ProductApplicationOutcome.not_presented) ↔ (presented ≡ none)
  pub covered_iff :
      (a.outcome ≡ ProductApplicationOutcome.covered) ↔ CoversJourney presented t origin destination
  pub refusal : Refusal presented t origin destination a.outcome
  pub pays_all :
      a.outcome ≡ ProductApplicationOutcome.covered → a.fare_after_product.minor_units ≡ pos 0
  pub pays_nothing :
      (a.outcome ≡ ProductApplicationOutcome.covered → ⊥) → a.fare_after_product ≡ fare

module _ (policy : FarePolicy) (t : EventTime) (origin destination : ZoneId) (fare : Money) where
  apply_presented_lem :
      (presented : Option TransitProduct)
      → IsAmount policy.currency fare
      → IsMoney fare
      → (a : ProductApplication) × (apply_presented policy presented t origin destination fare
          ≡ ok a)
        × ProductPost policy t origin destination presented fare a
  unfolding apply_presented product_discount_for checked_subtract ◌-ℤ◌ ◌+ℤ◌
  apply_presented_lem none amount range = (
    record {
      policy_id = policy.id;
      policy_version = policy.version;
      product_id = none;
      instance_id = none;
      outcome = ProductApplicationOutcome.not_presented;
      discount_applied = zero_money policy.currency;
      fare_after_product = fare;
    },
    refl,
    ground arith,
  )
  apply_presented_lem (some p) amount range =
      let outcome = determine_outcome p t origin destination in
      let discount = product_discount_for outcome policy fare in
      (
        record {
          policy_id = policy.id;
          policy_version = policy.version;
          product_id = some p.product_id;
          instance_id = some p.instance_id;
          outcome = outcome;
          discount_applied = discount;
          fare_after_product =
              from_minor_units (fare.minor_units -ℤ discount.minor_units) fare.currency;
        },
        ground (arith, (determine_outcome_reason p t origin destination).3),
        record {
          discount = ground arith;
          after = ground arith;
          splits = ground arith;
          presented_iff = ground (arith, (determine_outcome_reason p t origin destination).3);
          covered_iff = determine_outcome-covered_iff p t origin destination;
          refusal = determine_outcome_reason p t origin destination;
          pays_all = ground arith;
          pays_nothing = ground arith;
        },
      )

  -- On a fare of zero or more in the policy's currency the product stage succeeds: what the product
  -- pays and what is left are not negative and add up to the fare. The outcome is covered exactly
  -- when a product was presented that is valid at the event time, ends included, and covers both
  -- zones; the product then pays the whole fare, and any other outcome leaves the fare as it was.
  -- A product is refused as not yet valid exactly before its interval, as expired exactly after it,
  -- and for its zones exactly within the interval if a zone is outside; the outcome says that no
  -- product was presented exactly when there was none.
  pub apply_transit_product_total :
      (presented : Option TransitProduct)
      → IsAmount policy.currency fare
      → IsMoney fare
      → (a : ProductApplication) × (apply_transit_product policy presented t origin destination fare
          ≡ ok a)
        × ProductPost policy t origin destination presented fare a
  unfolding apply_transit_product validate_fare
  apply_transit_product_total presented amount range =
      let (a, e, post) = apply_presented_lem presented amount range in (a, ground arith, post)

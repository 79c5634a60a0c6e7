-- ===== src/Domain/Money/Laws.antt =====
-- The checked operations of crates/domain/src/money.rs against integer arithmetic.
use transit_guard.Base.{◌↔◌, ◌≡◌, arith}
use transit_guard.Base.Result.{ok}
use transit_guard.Base.Int.{pos, ◌+ℤ◌, ◌-ℤ◌, ◌≤ℤ◌, InI64, -ℤ_parts, -ℤ_one_sign, ◌<ℤ◌}
use transit_guard.Domain.Money.{
  Money, IsMoney, checked_add, checked_subtract, checked_cmp, CmpOrdering, from_minor_units,
}

-- Subtraction and addition, within one currency and in the range of `i64`.
module _ (a b : Money) where
  pub checked_subtract_in_range :
      a.currency ≡ b.currency
      → InI64 (a.minor_units -ℤ b.minor_units)
      → checked_subtract a b ≡ ok (from_minor_units (a.minor_units -ℤ b.minor_units) a.currency)
  unfolding checked_subtract
  checked_subtract_in_range c h = ground arith

  pub checked_add_in_range :
      a.currency ≡ b.currency
      → InI64 (a.minor_units +ℤ b.minor_units)
      → checked_add a b ≡ ok (from_minor_units (a.minor_units +ℤ b.minor_units) a.currency)
  unfolding checked_add
  checked_add_in_range c h = ground arith

  -- What is taken from an amount and is no more than it leaves an amount.
  pub checked_subtract_within :
      a.currency ≡ b.currency
      → IsMoney a
      → pos 0 ≤ℤ b.minor_units
      → b.minor_units ≤ℤ a.minor_units
      → checked_subtract a b ≡ ok (from_minor_units (a.minor_units -ℤ b.minor_units) a.currency)
  checked_subtract_within c r p le = checked_subtract_in_range c (
      ground (arith, -ℤ_parts a.minor_units b.minor_units, -ℤ_one_sign a.minor_units b.minor_units))

  pub checked_subtract_inv :
      {c : Money}
      → checked_subtract a b ≡ ok c
      → (a.currency ≡ b.currency)
        × (c ≡ from_minor_units (a.minor_units -ℤ b.minor_units) a.currency)
        × InI64 (a.minor_units -ℤ b.minor_units)
  unfolding checked_subtract
  checked_subtract_inv h = ground arith

  pub checked_add_inv :
      {c : Money}
      → checked_add a b ≡ ok c
      → (a.currency ≡ b.currency)
        × (c ≡ from_minor_units (a.minor_units +ℤ b.minor_units) a.currency)
        × InI64 (a.minor_units +ℤ b.minor_units)
  unfolding checked_add
  checked_add_inv h = ground arith

-- A checked subtraction from an `i64` amount is undone by a checked addition.
pub add-subtract :
    (a b : Money) {c : Money} → IsMoney a → checked_subtract a b ≡ ok c → checked_add c b ≡ ok a
unfolding checked_subtract checked_add ◌-ℤ◌ ◌+ℤ◌
add-subtract a b r h = ground arith

-- A successful comparison orders the amounts of one currency as the integers are ordered.
pub checked_cmp_iff :
    (a b : Money)
    → a.currency ≡ b.currency
    → ((checked_cmp a b ≡ ok CmpOrdering.less) ↔ (a.minor_units <ℤ b.minor_units))
      × ((checked_cmp a b ≡ ok CmpOrdering.equal) ↔ (a ≡ b))
      × ((checked_cmp a b ≡ ok CmpOrdering.greater) ↔ (b.minor_units <ℤ a.minor_units))
unfolding checked_cmp
checked_cmp_iff a b c = (
  (λ h. ground arith, λ h. ground arith),
  (λ h. ground arith, λ h. ground arith),
  (λ h. ground arith, λ h. ground arith),
)

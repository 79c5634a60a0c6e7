-- ===== src/Base/Int.antt =====
-- Signed integers over the native numbers, and Rust's `i64` arithmetic on them.
use Prim.Native.Nat.{ℕ, suc, ◌+◌, ◌-◌, ◌*◌, ◌/◌, ◌%◌, ◌^◌, ◌≤◌, ◌<◌}
use mathlib.Core.Path.{◌≡◌}
use mathlib.Core.Logic.{◌⊎◌}
use mathlib.Core.Bool.{Bool, ◌&&◌}
use mathlib.Core.Option.{Option, none, some}
use native.Mathlib.Omega.{arith}
use transit_guard.Base.Tests.{ltb, leb, if◌then◌else◌}

-- `negsuc n` is -(n + 1).
pub data ℤ : Type 0 where
  pos : ℕ → ℤ
  negsuc : ℕ → ℤ

abbrev pub pos_part : ℤ → ℕ
pos_part (pos n) = n
pos_part (negsuc n) = 0

abbrev pub neg_part : ℤ → ℕ
neg_part (pos n) = 0
neg_part (negsuc n) = suc n

-- a - b, as an integer.
abbrev pub sub_ℕ : ℕ → ℕ → ℤ
sub_ℕ a b = if leb b a then pos (a - b) else negsuc (b - a - 1)

infixl 65 ◌+ℤ◌ ◌-ℤ◌
infixl 70 ◌*ℤ◌
infix 50 ◌≤ℤ◌ ◌<ℤ◌
unfoldable pub ◌+ℤ◌ : ℤ → ℤ → ℤ
a +ℤ b = sub_ℕ (pos_part a + pos_part b) (neg_part a + neg_part b)

unfoldable pub ◌-ℤ◌ : ℤ → ℤ → ℤ
a -ℤ b = sub_ℕ (pos_part a + neg_part b) (neg_part a + pos_part b)

unfoldable pub ◌*ℤ◌ : ℤ → ℤ → ℤ
a *ℤ b =
    sub_ℕ (pos_part a * pos_part b + neg_part a * neg_part b)
      (pos_part a * neg_part b + neg_part a * pos_part b)

-- Rust's `/` by a positive number: it rounds towards zero.
unfoldable pub div_trunc : ℤ → ℕ → ℤ
div_trunc (pos n) k = pos (n / k)
div_trunc (negsuc n) k = sub_ℕ 0 (suc n / k)

abbrev pub ◌≤ℤ◌ : ℤ → ℤ → Type 0
a ≤ℤ b = pos_part a + neg_part b ≤ pos_part b + neg_part a

abbrev pub ◌<ℤ◌ : ℤ → ℤ → Type 0
a <ℤ b = suc (pos_part a + neg_part b) ≤ pos_part b + neg_part a

abbrev pub ltb_ℤ : ℤ → ℤ → Bool
ltb_ℤ a b = ltb (pos_part a + neg_part b) (pos_part b + neg_part a)

abbrev pub leb_ℤ : ℤ → ℤ → Bool
leb_ℤ a b = leb (pos_part a + neg_part b) (pos_part b + neg_part a)

abbrev pub eqb_ℤ : ℤ → ℤ → Bool
eqb_ℤ a b = leb_ℤ a b && leb_ℤ b a

-- `Ord::min`.
abbrev pub min_ℤ : ℤ → ℤ → ℤ
min_ℤ a b = if leb_ℤ a b then a else b

-- `unsigned_abs`.
abbrev pub unsigned_abs : ℤ → ℕ
unsigned_abs a = pos_part a + neg_part a

-- The range of `i64`: from -(2 ^ 63) to 2 ^ 63 - 1.
abbrev pub InI64 : ℤ → Type 0
InI64 a = (pos_part a + 1 ≤ 2 ^ 63) × (neg_part a ≤ 2 ^ 63)

abbrev pub in_i64 : ℤ → Bool
in_i64 a = ltb (pos_part a) (2 ^ 63) && leb (neg_part a) (2 ^ 63)

-- The result of a `checked_*` operation, or of `i64::try_from`, from the true value.
abbrev pub checked_i64 : ℤ → Option ℤ
checked_i64 a = if in_i64 a then some a else none

-- The residue of an integer modulo 2 ^ 64.
abbrev pub residue_u64 : ℤ → ℕ
residue_u64 (pos n) = n % 2 ^ 64
residue_u64 (negsuc n) = 2 ^ 64 - 1 - n % 2 ^ 64

-- An unchecked `i64` operation of a release build: the true value, wrapped to two's complement.
unfoldable pub wrap_i64 : ℤ → ℤ
wrap_i64 a =
    if ltb (residue_u64 a) (2 ^ 63)
    then pos (residue_u64 a)
    else negsuc (2 ^ 64 - 1 - residue_u64 a)

-- With these the operations can stay shut.
pub +ℤ_parts :
    (a b : ℤ)
    → pos_part (a +ℤ b) + neg_part a + neg_part b ≡ neg_part (a +ℤ b) + pos_part a + pos_part b
unfolding ◌+ℤ◌
+ℤ_parts a b = ground arith

pub -ℤ_parts :
    (a b : ℤ)
    → pos_part (a -ℤ b) + neg_part a + pos_part b ≡ neg_part (a -ℤ b) + pos_part a + neg_part b
unfolding ◌-ℤ◌
-ℤ_parts a b = ground arith

-- One of the two parts of a difference is zero.
pub -ℤ_one_sign : (a b : ℤ) → (pos_part (a -ℤ b) ≡ 0) ⊎ (neg_part (a -ℤ b) ≡ 0)
unfolding ◌-ℤ◌
-ℤ_one_sign a b = ground arith

pub eq_of_parts : (a b : ℤ) → pos_part a + neg_part b ≡ pos_part b + neg_part a → a ≡ b
eq_of_parts a b h = ground arith

pub ruleset int_laws = (arith, +ℤ_parts, -ℤ_parts, eq_of_parts)

-- An operation whose true value is in range does not wrap.
pub wrap_i64-eq_self : (a : ℤ) → InI64 a → wrap_i64 a ≡ a
unfolding wrap_i64
wrap_i64-eq_self (pos n) h = ground arith
wrap_i64-eq_self (negsuc n) h = ground arith

-- The product of two numbers that are not negative.
pub *ℤ-pos : (a b : ℕ) → pos a *ℤ pos b ≡ pos (a * b)
unfolding ◌*ℤ◌
*ℤ-pos a b = ground arith

-- A number below 2 ^ 63 passes the range check.
pub checked_i64-pos : (a : ℕ) → a < 2 ^ 63 → checked_i64 (pos a) ≡ some (pos a)
checked_i64-pos a h = ground arith

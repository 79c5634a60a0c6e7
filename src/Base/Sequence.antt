-- ===== src/Base/Sequence.antt =====
-- Slices over the native numbers, `first` and `last`, and the two shapes of a sequence that the code
-- checks: keys that grow, and keys of which none comes twice.
use Prim.Native.Nat.{ℕ, zero, suc, ◌+◌, ◌<◌, ◌≤◌}
use mathlib.Core.Path.{◌≡◌}
use mathlib.Core.Logic.{◌≢◌}
use mathlib.Core.Option.{Option, none, some}
use mathlib.Core.List.{List, [], ◌∷◌, ◌++◌}
use native.Mathlib.Omega.{arith}

module _ {ℓ} {A : Type ℓ} where
  abbrev pub length : List A → ℕ
  length [] = 0
  length (x ∷ xs) = suc (length xs)

  -- The slice methods `first` and `last`.
  abbrev pub first : List A → Option A
  first [] = none
  first (x ∷ xs) = some x

  abbrev pub last_from : A → List A → A
  last_from x [] = x
  last_from x (y ∷ ys) = last_from y ys

  abbrev pub last : List A → Option A
  last [] = none
  last (x ∷ xs) = some (last_from x xs)

  abbrev pub take : ℕ → List A → List A
  take zero xs = []
  take (suc n) [] = []
  take (suc n) (x ∷ xs) = x ∷ take n xs

  pub length-append : (xs ys : List A) → length (xs ++ ys) ≡ length xs + length ys
  length-append [] ys = omega arith
  length-append (x ∷ xs) ys = omega (arith, length-append xs ys)

-- Every number is below the next one.
abbrev pub GrowsFrom : ℕ → List ℕ → Type 0
GrowsFrom x [] = Unit
GrowsFrom x (y ∷ ys) = (x < y) × GrowsFrom y ys

abbrev pub Grows : List ℕ → Type 0
Grows [] = Unit
Grows (x ∷ xs) = GrowsFrom x xs

-- A number stands nowhere in a sequence.
abbrev pub Avoids : ℕ → List ℕ → Type 0
Avoids x [] = Unit
Avoids x (y ∷ ys) = (x ≢ y) × Avoids x ys

abbrev pub AllDistinct : List ℕ → Type 0
AllDistinct [] = Unit
AllDistinct (x ∷ xs) = Avoids x xs × AllDistinct xs

-- A growing sequence ends at least as far up as it has steps.
pub GrowsFrom-last : (x : ℕ) (xs : List ℕ) → GrowsFrom x xs → x + length xs ≤ last_from x xs
GrowsFrom-last x [] grows = omega arith
GrowsFrom-last x (y ∷ ys) (step, grows) = omega (arith, GrowsFrom-last y ys grows)

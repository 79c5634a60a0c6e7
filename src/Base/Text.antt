-- ===== src/Base/Text.antt =====
-- Rust's `str`: its characters, its bytes, `trim`, and the tests of `char` that the code uses.
use Prim.Native.Nat.{ℕ, ◌+◌, ◌/◌, ◌%◌}
use Prim.Native.Char.{code}
use Prim.Native.String.{String}
use mathlib.Core.Path.{◌≡◌, refl, ap, ◌∙◌}
use mathlib.Core.Logic.{inl, inr}
use mathlib.Core.Bool.{Bool, true, false, ◌&&◌, ◌||◌}
use mathlib.Core.List.{List, [], ◌∷◌, ◌++◌}
use native.Mathlib.Omega.{arith}
use transit_guard.Base.Tests.{ltb, leb, ◌==◌, if◌then◌else◌, Bool-cases}
use transit_guard.Base.Result.{Result, ok, err}
use text.Mathlib.Text.{◌==◌ as text_eq}
use text.Mathlib.TextEquality.{eq_iff}

-- `char::is_whitespace`: the Unicode property White_Space.
unfoldable pub is_whitespace : ℕ → Bool
is_whitespace c =
    (leb 9 c && leb c 13)
    || (c == 32 || c == 0x85 || c == 0xA0 || c == 0x1680)
    || (leb 0x2000 c && leb c 0x200A)
    || (c == 0x2028 || c == 0x2029 || c == 0x202F || c == 0x205F || c == 0x3000)

-- `char::is_control`: the general category Cc.
unfoldable pub is_control : ℕ → Bool
is_control c = ltb c 32 || (leb 127 c && ltb c 160)

abbrev pub is_empty : String → Bool
is_empty String.[] = true
is_empty (String.◌∷◌ c s) = false

-- `chars().any`.
unfoldable pub any_char : (ℕ → Bool) → String → Bool
any_char test String.[] = false
any_char test (String.◌∷◌ c s) = test (code c) || any_char test s

unfoldable pub trim_start : String → String
trim_start String.[] = String.[]
trim_start (String.◌∷◌ c s) = if is_whitespace (code c) then trim_start s else String.◌∷◌ c s

unfoldable pub trim_end : String → String
trim_end String.[] = String.[]
trim_end (String.◌∷◌ c s) =
    let rest = trim_end s in
    if is_empty rest && is_whitespace (code c) then String.[] else String.◌∷◌ c rest

unfoldable pub trim : String → String
unfolding trim_start trim_end is_whitespace
trim s = trim_end (trim_start s)

-- The UTF-8 form of a character.
unfoldable pub utf8 : ℕ → List ℕ
utf8 c =
    if ltb c 0x80
    then c ∷ []
    else if ltb c 0x800
    then (0xC0 + c / 0x40) ∷ (0x80 + c % 0x40) ∷ []
    else if ltb c 0x10000
    then (0xE0 + c / 0x1000) ∷ (0x80 + c / 0x40 % 0x40) ∷ (0x80 + c % 0x40) ∷ []
    else (0xF0 + c / 0x40000)
      ∷ (0x80 + c / 0x1000 % 0x40)
      ∷ (0x80 + c / 0x40 % 0x40)
      ∷ (0x80 + c % 0x40)
      ∷ []

unfoldable pub as_bytes : String → List ℕ
unfolding utf8
as_bytes String.[] = []
as_bytes (String.◌∷◌ c s) = utf8 (code c) ++ as_bytes s

trim_start-trim_end : (s : String) → trim_start (trim_end (trim_start s)) ≡ trim_end (trim_start s)
unfolding trim_start trim_end
trim_start-trim_end String.[] = refl
trim_start-trim_end (String.◌∷◌ c s) = ground (arith, trim_start-trim_end s)

trim_end_idem : (s : String) → trim_end (trim_end s) ≡ trim_end s
unfolding trim_end
trim_end_idem String.[] = refl
trim_end_idem (String.◌∷◌ c s) = ground (arith, trim_end_idem s)

-- What has been trimmed stays as it is.
pub trim_idem : (s : String) → trim (trim s) ≡ trim s
unfolding trim
trim_idem s = rw (trim_start-trim_end s) (trim_end_idem (trim_start s))

-- A `match` on a text whose arms are literals, with an error for every other text.
unfoldable pub match_text {ℓ κ} :
    {A : Type ℓ} {E : Type κ} → String → List (String × A) → E → Result A E
match_text value [] otherwise = err otherwise
match_text value ((literal, result) ∷ arms) otherwise =
    if text_eq value literal then ok result else match_text value arms otherwise

-- Each arm gives a value that is written as its literal.
abbrev pub ArmsOf {ℓ} : {A : Type ℓ} → (A → String) → List (String × A) → Type 0
ArmsOf write [] = Unit
ArmsOf write ((literal, result) ∷ arms) = (literal ≡ write result) × ArmsOf write arms

pub match_text-written {ℓ κ} :
    {A : Type ℓ} {E : Type κ} (write : A → String) (value : String) (arms : List (String × A))
    (otherwise : E) (result : A)
    → match_text value arms otherwise ≡ ok result
    → ArmsOf write arms
    → value ≡ write result
unfolding match_text
match_text-written write value [] otherwise result h written = absurd (ground arith)
match_text-written write value ((literal, a) ∷ arms) otherwise result h written =
    elim (Bool-cases (text_eq value literal)) [
      | inl same ↦
          let first : (a ≡ result) = ground arith in
          (eq_iff value literal).0 same ∙ written.0 ∙ ap write first
      | inr other ↦ match_text-written write value arms otherwise result (ground arith) written.1
    ]

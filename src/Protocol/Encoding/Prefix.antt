-- ===== src/Protocol/Encoding/Prefix.antt =====
-- The encodings of Encoding are prefix codes: from the bytes that begin with the encoding of a value
-- the value and the rest can be told.
use Prim.Native.Char.{code}
use transit_guard.Base.{
  ℕ, zero, suc, ◌/◌, ◌%◌, ◌^◌, ◌<◌, ◌≡◌, refl, String, List, [], ◌∷◌, ◌++◌, arith,
}
use transit_guard.Base.Int.{ℤ, pos, negsuc, InI64, residue_u64}
use transit_guard.Base.Sequence.{length, length-append}
use transit_guard.Base.Text.{utf8, as_bytes}
use text.Mathlib.TextEquality.{Char-path}
use mathlib.Core.List.{append_assoc}
use transit_guard.Protocol.Encoding.{
  to_be_bytes, update_u16, update_u64, update_i64, update_bytes, update_text,
}

pub append-injective :
    (us vs xs ys : List ℕ) → length us ≡ length vs → us ++ xs ≡ vs ++ ys → (us ≡ vs) × (xs ≡ ys)
append-injective [] [] xs ys same h = (refl, h)
append-injective [] (b ∷ vs) xs ys same h = absurd (omega arith)
append-injective (a ∷ us) [] xs ys same h = absurd (omega arith)
append-injective (a ∷ us) (b ∷ vs) xs ys same h = ground (arith, append-injective us vs xs ys)

length-to_be_bytes : (width value : ℕ) → length (to_be_bytes width value) ≡ width
unfolding to_be_bytes
length-to_be_bytes zero value = refl
length-to_be_bytes (suc width) value = omega (
  arith,
  length-to_be_bytes width (value / 256),
  length-append {0} (to_be_bytes width (value / 256)) ((value % 256) ∷ []),
)

to_be_bytes-injective :
    (width a b : ℕ)
    → a < 256 ^ width
    → b < 256 ^ width
    → to_be_bytes width a ≡ to_be_bytes width b
    → a ≡ b
unfolding to_be_bytes
to_be_bytes-injective zero a b ha hb h = omega arith
to_be_bytes-injective (suc width) a b ha hb h =
    let (tops, lows) =
      append-injective (to_be_bytes width (a / 256)) (to_be_bytes width (b / 256)) _ _
        (omega (arith, length-to_be_bytes width (a / 256), length-to_be_bytes width (b / 256))) h in
    let upper = to_be_bytes-injective width (a / 256) (b / 256) (omega arith) (omega arith) tops in
    ground arith

to_be_bytes-prefix :
    (width a b : ℕ) (xs ys : List ℕ)
    → a < 256 ^ width
    → b < 256 ^ width
    → to_be_bytes width a ++ xs ≡ to_be_bytes width b ++ ys
    → (a ≡ b) × (xs ≡ ys)
to_be_bytes-prefix width a b xs ys ha hb h =
    let (equal, rest) =
      append-injective (to_be_bytes width a) (to_be_bytes width b) xs ys
        (omega (arith, length-to_be_bytes width a, length-to_be_bytes width b)) h in
    (to_be_bytes-injective width a b ha hb equal, rest)

pub update_u16-prefix :
    (a b : ℕ) (xs ys : List ℕ)
    → a < 2 ^ 16
    → b < 2 ^ 16
    → update_u16 a ++ xs ≡ update_u16 b ++ ys
    → (a ≡ b) × (xs ≡ ys)
unfolding update_u16
update_u16-prefix a b xs ys ha hb h = to_be_bytes-prefix 2 a b xs ys (omega arith) (omega arith) h

pub update_u64-prefix :
    (a b : ℕ) (xs ys : List ℕ)
    → a < 2 ^ 64
    → b < 2 ^ 64
    → update_u64 a ++ xs ≡ update_u64 b ++ ys
    → (a ≡ b) × (xs ≡ ys)
unfolding update_u64
update_u64-prefix a b xs ys ha hb h = to_be_bytes-prefix 8 a b xs ys (omega arith) (omega arith) h

residue_u64-lt : (a : ℤ) → residue_u64 a < 2 ^ 64
residue_u64-lt (pos n) = omega arith
residue_u64-lt (negsuc n) = omega arith

residue_u64-injective : (a b : ℤ) → InI64 a → InI64 b → residue_u64 a ≡ residue_u64 b → a ≡ b
residue_u64-injective (pos n) (pos m) ha hb h = ground arith
residue_u64-injective (pos n) (negsuc m) ha hb h = absurd (omega arith)
residue_u64-injective (negsuc n) (pos m) ha hb h = absurd (omega arith)
residue_u64-injective (negsuc n) (negsuc m) ha hb h = ground arith

pub update_i64-prefix :
    (a b : ℤ) (xs ys : List ℕ)
    → InI64 a
    → InI64 b
    → update_i64 a ++ xs ≡ update_i64 b ++ ys
    → (a ≡ b) × (xs ≡ ys)
unfolding update_i64
update_i64-prefix a b xs ys ha hb h =
    let (equal, rest) =
      to_be_bytes-prefix 8 (residue_u64 a) (residue_u64 b) xs ys (omega (arith, residue_u64-lt a))
        (omega (arith, residue_u64-lt b)) h in
    (residue_u64-injective a b ha hb equal, rest)

update_bytes-prefix :
    (us vs xs ys : List ℕ)
    → length us < 2 ^ 64
    → length vs < 2 ^ 64
    → update_bytes us ++ xs ≡ update_bytes vs ++ ys
    → (us ≡ vs) × (xs ≡ ys)
unfolding update_bytes
update_bytes-prefix us vs xs ys ha hb h =
    let (lengths, rest) = update_u64-prefix (length us) (length vs) (us ++ xs) (vs ++ ys) ha hb (
      rw (← append_assoc (update_u64 (length us)) us xs)
        (rw (← append_assoc (update_u64 (length vs)) vs ys) h)) in
    append-injective us vs xs ys lengths rest

-- UTF-8 is a prefix code on the characters, by their first bytes.
utf8-prefix : (c d : ℕ) (xs ys : List ℕ) → utf8 c ++ xs ≡ utf8 d ++ ys → (c ≡ d) × (xs ≡ ys)
unfolding utf8
utf8-prefix c d xs ys h = ground arith

as_bytes-injective : (s t : String) → as_bytes s ≡ as_bytes t → s ≡ t
unfolding as_bytes utf8
as_bytes-injective String.[] String.[] h = refl
as_bytes-injective String.[] (String.◌∷◌ d t) h = absurd (ground arith)
as_bytes-injective (String.◌∷◌ c s) String.[] h = absurd (ground arith)
as_bytes-injective (String.◌∷◌ c s) (String.◌∷◌ d t) h =
    let (codes, rest) = utf8-prefix (code c) (code d) (as_bytes s) (as_bytes t) h in
    cc (Char-path c d codes, as_bytes-injective s t rest)

pub update_text-prefix :
    (s t : String) (xs ys : List ℕ)
    → length (as_bytes s) < 2 ^ 64
    → length (as_bytes t) < 2 ^ 64
    → update_text s ++ xs ≡ update_text t ++ ys
    → (s ≡ t) × (xs ≡ ys)
unfolding update_text
update_text-prefix s t xs ys hs ht h =
    let (bytes, rest) = update_bytes-prefix (as_bytes s) (as_bytes t) xs ys hs ht h in
    (as_bytes-injective s t bytes, rest)

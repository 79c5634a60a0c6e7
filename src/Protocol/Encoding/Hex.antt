-- ===== src/Protocol/Encoding/Hex.antt =====
-- The hexadecimal text of a fingerprint is read back, in either case of letters.
use transit_guard.Base.{ℕ, ◌+◌, ◌-◌, ◌*◌, ◌/◌, ◌%◌, ◌<◌, ◌≡◌, refl, map, List, [], ◌∷◌, ◌&&◌, arith}
use transit_guard.Base.Tests.{leb, if◌then◌else◌}
use transit_guard.Base.Result.{ok, >>=-eq-ok}
use transit_guard.Base.Sequence.{length}
use transit_guard.Protocol.Encoding.{
  synchronization_fingerprint_bytes, to_hex, hex_digit, decode_hexadecimal_digit, decode_pairs,
  parse_hex,
}

abbrev pub AllBytes : List ℕ → Type 0
AllBytes [] = Unit
AllBytes (b ∷ bytes) = (b < 256) × AllBytes bytes

-- The value of a digest: 32 bytes.
abbrev pub IsFingerprint : List ℕ → Type 0
IsFingerprint bytes = (length bytes ≡ synchronization_fingerprint_bytes) × AllBytes bytes

-- `u8::to_ascii_lowercase`.
abbrev pub to_ascii_lowercase : ℕ → ℕ
to_ascii_lowercase c = if leb b'A' c && leb c b'Z' then c + 32 else c

decode-hex_digit :
    (d position : ℕ) → d < 16 → decode_hexadecimal_digit (hex_digit d) position ≡ ok d
unfolding hex_digit decode_hexadecimal_digit
decode-hex_digit d position h = ground arith

hex_digit-decode :
    (c position d : ℕ)
    → decode_hexadecimal_digit c position ≡ ok d
    → (d < 16) × (hex_digit d ≡ to_ascii_lowercase c)
unfolding hex_digit decode_hexadecimal_digit
hex_digit-decode c position d h = ground arith

length-to_hex : (bytes : List ℕ) → length (to_hex bytes) ≡ length bytes * 2
unfolding to_hex
length-to_hex [] = omega arith
length-to_hex (b ∷ bytes) = omega (arith, length-to_hex bytes)

decode_pairs-to_hex :
    (position : ℕ) (bytes : List ℕ)
    → AllBytes bytes
    → decode_pairs position (to_hex bytes) ≡ ok bytes
unfolding decode_pairs to_hex
decode_pairs-to_hex position [] h = refl
decode_pairs-to_hex position (b ∷ bytes) h = ground (
  arith,
  decode-hex_digit (b / 16) position,
  decode-hex_digit (b % 16) (position + 1),
  decode_pairs-to_hex (position + 2) bytes,
)

to_hex-decode_pairs :
    (position half : ℕ) (text bytes : List ℕ)
    → length text ≡ half * 2
    → decode_pairs position text ≡ ok bytes
    → (length bytes ≡ half) × AllBytes bytes × (to_hex bytes ≡ map to_ascii_lowercase text)
unfolding decode_pairs to_hex
to_hex-decode_pairs position half [] bytes even h = ground arith
to_hex-decode_pairs position half (c ∷ []) bytes even h = absurd (omega arith)
to_hex-decode_pairs position half (c ∷ d ∷ text) bytes even h =
    let (high, e1, h1) = >>=-eq-ok (decode_hexadecimal_digit c position) _ h in
    let (low, e2, h2) = >>=-eq-ok (decode_hexadecimal_digit d (position + 1)) _ h1 in
    let (rest, e3, h3) = >>=-eq-ok (decode_pairs (position + 2) text) _ h2 in
    ground (
      arith,
      hex_digit-decode c position high e1,
      hex_digit-decode d (position + 1) low e2,
      to_hex-decode_pairs (position + 2) (half - 1) text rest (omega arith) e3,
    )

-- Printing a fingerprint, 32 bytes, and parsing the text gives it back.
pub parse_hex-to_hex : (bytes : List ℕ) → IsFingerprint bytes → parse_hex (to_hex bytes) ≡ ok bytes
unfolding parse_hex
parse_hex-to_hex bytes h = ground (arith, length-to_hex bytes, decode_pairs-to_hex 0 bytes h.1)

-- A text that is parsed gives a fingerprint, 32 bytes, whose own text is the parsed one with its
-- letters in lower case.
pub to_hex-parse_hex :
    (text bytes : List ℕ)
    → parse_hex text ≡ ok bytes
    → IsFingerprint bytes × (to_hex bytes ≡ map to_ascii_lowercase text)
unfolding parse_hex
to_hex-parse_hex text bytes h = ground (arith, to_hex-decode_pairs 0 32 text bytes)

-- ===== src/Protocol/Encoding.antt =====
-- crates/device-protocol/src/fingerprint.rs and payload_fingerprint.rs: what the two `calculate`
-- functions feed to SHA-256, and the hexadecimal text of a digest. The hash function is the `sha2`
-- crate's: here a call of `update` is the bytes that it feeds, and the bytes of consecutive calls
-- stand one after the other. The helpers have the same text in both files.
pub mod Prefix
pub mod Hex
use transit_guard.Base.{
  ℕ, zero, suc, ◌+◌, ◌-◌, ◌*◌, ◌/◌, ◌%◌, String, ◌&&◌, List, [], ◌∷◌, ◌++◌, not,
}
use transit_guard.Base.Tests.{leb, ◌==◌, if◌then◌else◌}
use transit_guard.Base.Result.{Result, ok, err, ◌>>=◌}
use transit_guard.Base.Int.{ℤ, residue_u64}
use transit_guard.Base.Sequence.{length}
use transit_guard.Base.Text.{as_bytes}

-- Consecutive calls of `update`, and what is fed after them.
abbrev pub feed : List (List ℕ) → List ℕ → List ℕ
feed [] rest = rest
feed (bytes ∷ calls) rest = bytes ++ feed calls rest

-- `to_be_bytes` of an integer of the given number of bytes.
unfoldable pub to_be_bytes : ℕ → ℕ → List ℕ
to_be_bytes zero value = []
to_be_bytes (suc width) value = to_be_bytes width (value / 256) ++ ((value % 256) ∷ [])

unfoldable pub update_u16 : ℕ → List ℕ
unfolding to_be_bytes
update_u16 value = to_be_bytes 2 value

unfoldable pub update_u64 : ℕ → List ℕ
unfolding to_be_bytes
update_u64 value = to_be_bytes 8 value

unfoldable pub update_i64 : ℤ → List ℕ
unfolding to_be_bytes
update_i64 value = to_be_bytes 8 (residue_u64 value)

unfoldable pub update_bytes : List ℕ → List ℕ
unfolding update_u64
update_bytes value = update_u64 (length value) ++ value

unfoldable pub update_text : String → List ℕ
unfolding update_bytes as_bytes
update_text value = update_bytes (as_bytes value)

abbrev pub synchronization_fingerprint_bytes : ℕ
synchronization_fingerprint_bytes = 32

abbrev pub synchronization_fingerprint_hex_length : ℕ
synchronization_fingerprint_hex_length = synchronization_fingerprint_bytes * 2

pub data FingerprintParseError : Type 0 where
  invalid_length : ℕ → FingerprintParseError
  invalid_hexadecimal_character : ℕ → FingerprintParseError

-- `HEX_DIGITS`: the bytes of "0123456789abcdef".
abbrev hex_digits : List ℕ
hex_digits =
    b'0' ∷ b'1' ∷ b'2' ∷ b'3' ∷ b'4' ∷ b'5' ∷ b'6' ∷ b'7' ∷ b'8' ∷ b'9' ∷ b'a' ∷ b'b' ∷ b'c' ∷ b'd'
    ∷ b'e' ∷ b'f' ∷ []

-- An element of the table. The indices are below its length.
abbrev index_table : List ℕ → ℕ → ℕ
index_table [] index = 0
index_table (digit ∷ digits) zero = digit
index_table (digit ∷ digits) (suc index) = index_table digits index

unfoldable pub hex_digit : ℕ → ℕ
hex_digit index = index_table hex_digits index

-- `to_hex`, as the bytes of its text. `byte >> 4` and `byte & 0x0f` are the quotient and the
-- remainder by 16.
unfoldable pub to_hex : List ℕ → List ℕ
unfolding hex_digit
to_hex [] = []
to_hex (byte ∷ bytes) = hex_digit (byte / 16) ∷ hex_digit (byte % 16) ∷ to_hex bytes

unfoldable pub decode_hexadecimal_digit : ℕ → ℕ → Result ℕ FingerprintParseError
decode_hexadecimal_digit value position =
    if leb b'0' value && leb value b'9'
    then ok (value - b'0')
    else if leb b'a' value && leb value b'f'
    then ok (value - b'a' + 10)
    else if leb b'A' value && leb value b'F'
    then ok (value - b'A' + 10)
    else err (FingerprintParseError.invalid_hexadecimal_character position)

-- The loop of `from_str`: `position` is `index * 2`, and `(high << 4) | low` has no common bits. The
-- length test before the loop leaves no single byte over.
decode_pairs : ℕ → List ℕ → Result (List ℕ) FingerprintParseError
decode_pairs position [] = ok []
decode_pairs position (single ∷ []) = ok []
decode_pairs position (high_byte ∷ low_byte ∷ encoded) =
    let decode_rest = decode_pairs (position + 2) encoded in
    decode_hexadecimal_digit high_byte position >>= λ high.
    decode_hexadecimal_digit low_byte (position + 1) >>= λ low.
    decode_rest >>= λ decoded. ok ((high * 16 + low) ∷ decoded)

unfoldable pub parse_hex : List ℕ → Result (List ℕ) FingerprintParseError
unfolding decode_pairs decode_hexadecimal_digit
parse_hex value =
    if not (length value == synchronization_fingerprint_hex_length)
    then err (FingerprintParseError.invalid_length (length value))
    else decode_pairs 0 value

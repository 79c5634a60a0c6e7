-- ===== src/Domain/Identifier/Parsing.antt =====
-- Which texts are identifiers (crates/domain/src/identifier.rs).
use transit_guard.Base.{◌≡◌, ◌↔◌, String, true, false, arith}
use transit_guard.Base.Result.{ok}
use transit_guard.Domain.Identifier.{Uuid, UuidCrate, validate_uuid, from_str}

-- A UUID of version 7 that is not nil.
abbrev pub IsIdentifier : UuidCrate → Uuid → Type 0
IsIdentifier crate value =
    (crate.is_nil value ≡ false)
    × (crate.is_rfc4122 value ≡ true)
    × (crate.is_sort_rand value ≡ true)

-- A text is parsed into an identifier exactly if the `uuid` crate parses it into that UUID, and the
-- UUID is not nil, has the RFC variant and is of version 7.
pub from_str-ok_iff :
    (crate : UuidCrate) (kind text : String) (id : Uuid)
    → (from_str crate kind text ≡ ok id) ↔ ((crate.parse_str text ≡ ok id) × IsIdentifier crate id)
unfolding from_str validate_uuid
from_str-ok_iff crate kind text id = (λ h. ground arith, λ h. ground arith)

-- Printing an identifier and parsing the text gives the identifier back, where the `uuid` crate
-- parses what it prints of that UUID into the UUID.
pub from_str-to_string :
    (crate : UuidCrate) (kind : String) (id : Uuid)
    → crate.parse_str (crate.to_string id) ≡ ok id
    → IsIdentifier crate id
    → from_str crate kind (crate.to_string id) ≡ ok id
from_str-to_string crate kind id prints valid =
    (from_str-ok_iff crate kind (crate.to_string id) id).1 (prints, valid)

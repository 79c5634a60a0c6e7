-- ===== src/Domain/Identifier.antt =====
-- crates/domain/src/identifier.rs: the identifier newtypes, their validation and parsing. The
-- `uuid` crate is not part of the repository: what the code asks of it is a parameter.
pub mod Parsing
use transit_guard.Base.{ℕ, String, Bool, not}
use transit_guard.Base.Tests.{if◌then◌else◌}
use transit_guard.Base.Result.{Result, ok, err, ◌>>=◌, map_err}

-- The 128 bits of a `Uuid`, as a number. The newtypes `FareCredentialId`, `ReaderId` and so on
-- wrap one each, and compare as it does.
abbrev pub Uuid : Type 0
Uuid = ℕ

abbrev pub TransitAccountId : Type 0
TransitAccountId = Uuid

abbrev pub RiderId : Type 0
RiderId = Uuid

abbrev pub FareCredentialId : Type 0
FareCredentialId = Uuid

abbrev pub ReaderId : Type 0
ReaderId = Uuid

abbrev pub EquipmentKeyId : Type 0
EquipmentKeyId = Uuid

abbrev pub FareTransactionId : Type 0
FareTransactionId = Uuid

abbrev pub FarePolicyId : Type 0
FarePolicyId = Uuid

abbrev pub TransitProductId : Type 0
TransitProductId = Uuid

abbrev pub TransitProductInstanceId : Type 0
TransitProductInstanceId = Uuid

abbrev pub DomainEventId : Type 0
DomainEventId = Uuid

abbrev pub SynchronizationBatchId : Type 0
SynchronizationBatchId = Uuid

-- `JourneyId` is declared by the code and used by none of these files.
-- The text of a parsing error of the crate stands for the error.
pub data IdentifierError : Type 0 where
  nil : String → IdentifierError
  invalid_variant : String → IdentifierError
  unsupported_version : String → IdentifierError
  invalid_format : String → String → IdentifierError

-- What the code uses of the `uuid` crate: the three tests, `parse_str` and `Display`.
pub record UuidCrate : Type 0 where
  pub is_nil : Uuid → Bool
  pub is_rfc4122 : Uuid → Bool
  pub is_sort_rand : Uuid → Bool
  pub parse_str : String → Result Uuid String
  pub to_string : Uuid → String

unfoldable pub validate_uuid : UuidCrate → String → Uuid → Result Uuid IdentifierError
validate_uuid crate kind value =
    if crate.is_nil value
    then err (IdentifierError.nil kind)
    else if not (crate.is_rfc4122 value)
    then err (IdentifierError.invalid_variant kind)
    else if not (crate.is_sort_rand value)
    then err (IdentifierError.unsupported_version kind)
    else ok value

unfoldable pub from_str : UuidCrate → String → String → Result Uuid IdentifierError
from_str crate kind value = do
  parsed ← map_err (IdentifierError.invalid_format kind) (crate.parse_str value)
  validate_uuid crate kind parsed

-- ===== src/Protocol/Version.antt =====
-- crates/device-protocol/src/version.rs: the protocol's version number.
use transit_guard.Base.{ℕ}
use transit_guard.Base.Tests.{◌==◌, if◌then◌else◌}
use transit_guard.Base.Result.{Result, ok, err}

pub data DeviceProtocolVersionError : Type 0 where
  zero_version : DeviceProtocolVersionError

-- The number is a `u16`.
pub record DeviceProtocolVersion : Type 0 where
  pub value : ℕ

abbrev pub current : DeviceProtocolVersion
current = record { value = 1 }

unfoldable pub new_version : ℕ → Result DeviceProtocolVersion DeviceProtocolVersionError
new_version value =
    if value == 0
    then err DeviceProtocolVersionError.zero_version
    else ok (record { value = value })

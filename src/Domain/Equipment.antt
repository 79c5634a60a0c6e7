-- ===== src/Domain/Equipment.antt =====
-- crates/domain/src/equipment.rs: the life of a reader and its equipment identity.
pub mod Lifecycle
use transit_guard.Base.{Bool, true, false, Option, some, none}
use transit_guard.Base.Tests.{if◌then◌else◌}
use transit_guard.Base.Result.{ok, err, Mutation}
use transit_guard.Domain.Identifier.{ReaderId, EquipmentKeyId}

pub data ReaderEquipmentStatus : Type 0 where
  pending_registration active offline disabled revoked decommissioned : ReaderEquipmentStatus

unfoldable pub ReaderEquipmentStatus-discrete : Discrete ReaderEquipmentStatus
ReaderEquipmentStatus-discrete = hlevel

-- `ReaderEquipmentStatus::is_terminal`.
abbrev pub is_terminal : ReaderEquipmentStatus → Bool
is_terminal ReaderEquipmentStatus.revoked = true
is_terminal ReaderEquipmentStatus.decommissioned = true
is_terminal _ = false

pub data ReaderDisablementReason : Type 0 where
  suspected_compromise lost_equipment invalid_configuration : ReaderDisablementReason
  administrative_action test_cleanup : ReaderDisablementReason

pub data ReaderRevocationReason : Type 0 where
  suspected_compromise credential_exposure administrative_action : ReaderRevocationReason
  security_incident test_cleanup : ReaderRevocationReason

pub record EquipmentIdentity : Type 0 where
  pub reader_id : ReaderId
  pub key_id : EquipmentKeyId

abbrev replace_key : EquipmentKeyId → EquipmentIdentity → EquipmentIdentity
replace_key key_id self = record self { key_id = key_id }

pub data ReaderEquipmentError : Type 0 where
  invalid_status_transition : ReaderEquipmentStatus → ReaderEquipmentStatus → ReaderEquipmentError
  terminal_equipment : ReaderEquipmentStatus → ReaderEquipmentError

pub record ReaderEquipment : Type 0 where
  pub id : ReaderId
  pub identity : EquipmentIdentity
  pub status : ReaderEquipmentStatus
  pub disablement_reason : Option ReaderDisablementReason
  pub revocation_reason : Option ReaderRevocationReason

abbrev pub EquipmentCall : Type 0
EquipmentCall = Mutation ReaderEquipment ReaderEquipmentError

unfoldable pub new_pending : ReaderId → EquipmentKeyId → ReaderEquipment
new_pending id key_id = record {
  id = id;
  identity = record { reader_id = id; key_id = key_id };
  status = ReaderEquipmentStatus.pending_registration;
  disablement_reason = none;
  revocation_reason = none;
}

-- `matches!(self.status, Active | Offline)`.
abbrev status_is_operating : ReaderEquipmentStatus → Bool
status_is_operating ReaderEquipmentStatus.active = true
status_is_operating ReaderEquipmentStatus.offline = true
status_is_operating _ = false

unfoldable pub can_accept_fare_presentations : ReaderEquipment → Bool
can_accept_fare_presentations self = status_is_operating self.status

unfoldable pub may_authenticate_to_backend : ReaderEquipment → Bool
may_authenticate_to_backend self = status_is_operating self.status

-- The refusal of a transition to `to`.
abbrev refuse : ReaderEquipmentStatus → ReaderEquipment → EquipmentCall
refuse to self = (err (ReaderEquipmentError.invalid_status_transition self.status to), self)

-- Each `…_on` is the `match self.status` of the method that stands under it.
activate_on : ReaderEquipmentStatus → ReaderEquipment → EquipmentCall
activate_on ReaderEquipmentStatus.pending_registration self =
    (ok tt, record self { status = ReaderEquipmentStatus.active })
activate_on ReaderEquipmentStatus.active self = (ok tt, self)
activate_on _ self = refuse ReaderEquipmentStatus.active self

unfoldable pub activate : ReaderEquipment → EquipmentCall
unfolding activate_on
activate self = activate_on self.status self

mark_offline_on : ReaderEquipmentStatus → ReaderEquipment → EquipmentCall
mark_offline_on ReaderEquipmentStatus.active self =
    (ok tt, record self { status = ReaderEquipmentStatus.offline })
mark_offline_on ReaderEquipmentStatus.offline self = (ok tt, self)
mark_offline_on _ self = refuse ReaderEquipmentStatus.offline self

unfoldable pub mark_offline : ReaderEquipment → EquipmentCall
unfolding mark_offline_on
mark_offline self = mark_offline_on self.status self

mark_online_on : ReaderEquipmentStatus → ReaderEquipment → EquipmentCall
mark_online_on ReaderEquipmentStatus.offline self =
    (ok tt, record self { status = ReaderEquipmentStatus.active })
mark_online_on ReaderEquipmentStatus.active self = (ok tt, self)
mark_online_on _ self = refuse ReaderEquipmentStatus.active self

unfoldable pub mark_online : ReaderEquipment → EquipmentCall
unfolding mark_online_on
mark_online self = mark_online_on self.status self

disable_on : ReaderEquipmentStatus → ReaderDisablementReason → ReaderEquipment → EquipmentCall
disable_on ReaderEquipmentStatus.disabled reason self = (ok tt, self)
disable_on ReaderEquipmentStatus.revoked reason self = refuse ReaderEquipmentStatus.disabled self
disable_on ReaderEquipmentStatus.decommissioned reason self =
    refuse ReaderEquipmentStatus.disabled self
disable_on _ reason self = (
  ok tt,
  record self { status = ReaderEquipmentStatus.disabled; disablement_reason = some reason },
)

unfoldable pub disable : ReaderDisablementReason → ReaderEquipment → EquipmentCall
unfolding disable_on
disable reason self = disable_on self.status reason self

enable_on : ReaderEquipmentStatus → ReaderEquipment → EquipmentCall
enable_on ReaderEquipmentStatus.disabled self =
    (ok tt, record self { status = ReaderEquipmentStatus.active; disablement_reason = none })
enable_on ReaderEquipmentStatus.active self = (ok tt, self)
enable_on _ self = refuse ReaderEquipmentStatus.active self

unfoldable pub enable : ReaderEquipment → EquipmentCall
unfolding enable_on
enable self = enable_on self.status self

revoke_on : ReaderEquipmentStatus → ReaderRevocationReason → ReaderEquipment → EquipmentCall
revoke_on ReaderEquipmentStatus.revoked reason self = (ok tt, self)
revoke_on ReaderEquipmentStatus.decommissioned reason self =
    refuse ReaderEquipmentStatus.revoked self
revoke_on _ reason self = (
  ok tt,
  record self {
    status = ReaderEquipmentStatus.revoked;
    disablement_reason = none;
    revocation_reason = some reason;
  },
)

unfoldable pub revoke : ReaderRevocationReason → ReaderEquipment → EquipmentCall
unfolding revoke_on
revoke reason self = revoke_on self.status reason self

decommission_on : ReaderEquipmentStatus → ReaderEquipment → EquipmentCall
decommission_on ReaderEquipmentStatus.decommissioned self = (ok tt, self)
decommission_on ReaderEquipmentStatus.revoked self =
    refuse ReaderEquipmentStatus.decommissioned self
decommission_on _ self = (
  ok tt,
  record self {
    status = ReaderEquipmentStatus.decommissioned;
    disablement_reason = none;
    revocation_reason = none;
  },
)

unfoldable pub decommission : ReaderEquipment → EquipmentCall
unfolding decommission_on
decommission self = decommission_on self.status self

unfoldable pub rotate_equipment_key : EquipmentKeyId → ReaderEquipment → EquipmentCall
rotate_equipment_key key_id self =
    if is_terminal self.status
    then (err (ReaderEquipmentError.terminal_equipment self.status), self)
    else (ok tt, record self { identity = replace_key key_id self.identity })

-- ===== src/Domain/Equipment/Lifecycle.antt =====
-- The life of a reader (crates/domain/src/equipment.rs) under any sequence of calls.
use transit_guard.Base.{◌≡◌, ◌≢◌, ◌↔◌, ◌⊎◌, true, false, none, List, arith}
use transit_guard.Base.Result.{ok, err}
use transit_guard.Base.Machine.{run, run_inv, run_fixed}
use transit_guard.Domain.Identifier.{ReaderId, EquipmentKeyId}
use transit_guard.Domain.Equipment.{
  ReaderEquipment, ReaderEquipmentStatus, ReaderEquipmentError, ReaderDisablementReason,
  ReaderRevocationReason, EquipmentCall, is_terminal, new_pending, activate, mark_offline,
  mark_online, disable, enable, revoke, decommission, rotate_equipment_key,
  can_accept_fare_presentations, may_authenticate_to_backend,
}

-- A call of one of the methods that take `&mut self`.
pub data EquipmentOp : Type 0 where
  activate_op mark_offline_op mark_online_op enable_op decommission_op : EquipmentOp
  disable_op : ReaderDisablementReason → EquipmentOp
  revoke_op : ReaderRevocationReason → EquipmentOp
  rotate_op : EquipmentKeyId → EquipmentOp

unfoldable pub step : EquipmentOp → ReaderEquipment → EquipmentCall
step EquipmentOp.activate_op r = activate r
step EquipmentOp.mark_offline_op r = mark_offline r
step EquipmentOp.mark_online_op r = mark_online r
step EquipmentOp.enable_op r = enable r
step EquipmentOp.decommission_op r = decommission r
step (EquipmentOp.disable_op reason) r = disable reason r
step (EquipmentOp.revoke_op reason) r = revoke reason r
step (EquipmentOp.rotate_op key) r = rotate_equipment_key key r

-- Each reason is recorded exactly in the status that it explains, and the identity is the
-- reader's own.
pub record IsConsistent (r : ReaderEquipment) : Type 0 where
  pub disabled_iff : (r.status ≡ ReaderEquipmentStatus.disabled) ↔ (r.disablement_reason ≢ none)
  pub revoked_iff : (r.status ≡ ReaderEquipmentStatus.revoked) ↔ (r.revocation_reason ≢ none)
  pub own_identity : r.identity.reader_id ≡ r.id

new_pending-IsConsistent :
    (id : ReaderId) (key : EquipmentKeyId) → IsConsistent (new_pending id key)
unfolding new_pending
new_pending-IsConsistent id key = ground arith

step-IsConsistent :
    (op : EquipmentOp) (r : ReaderEquipment) → IsConsistent r → IsConsistent (step op r).1
unfolding step activate mark_offline mark_online disable enable revoke decommission
    rotate_equipment_key
step-IsConsistent EquipmentOp.activate_op r h = ground arith
step-IsConsistent EquipmentOp.mark_offline_op r h = ground arith
step-IsConsistent EquipmentOp.mark_online_op r h = ground arith
step-IsConsistent EquipmentOp.enable_op r h = ground arith
step-IsConsistent EquipmentOp.decommission_op r h = ground arith
step-IsConsistent (EquipmentOp.disable_op reason) r h = ground arith
step-IsConsistent (EquipmentOp.revoke_op reason) r h = ground arith
step-IsConsistent (EquipmentOp.rotate_op key) r h = ground arith

-- Whatever calls are made on a new reader, a disablement reason is recorded exactly while it is
-- disabled, a revocation reason exactly while it is revoked, and its identity names it.
pub run_equipment-IsConsistent :
    (ops : List EquipmentOp) (id : ReaderId) (key : EquipmentKeyId)
    → IsConsistent (run step ops (new_pending id key))
run_equipment-IsConsistent ops id key =
    run_inv step IsConsistent step-IsConsistent ops (new_pending id key)
      (new_pending-IsConsistent id key)

step_terminal :
    (op : EquipmentOp) (r : ReaderEquipment) → is_terminal r.status ≡ true → (step op r).1 ≡ r
unfolding step activate mark_offline mark_online disable enable revoke decommission
    rotate_equipment_key
step_terminal EquipmentOp.activate_op r h = ground arith
step_terminal EquipmentOp.mark_offline_op r h = ground arith
step_terminal EquipmentOp.mark_online_op r h = ground arith
step_terminal EquipmentOp.enable_op r h = ground arith
step_terminal EquipmentOp.decommission_op r h = ground arith
step_terminal (EquipmentOp.disable_op reason) r h = ground arith
step_terminal (EquipmentOp.revoke_op reason) r h = ground arith
step_terminal (EquipmentOp.rotate_op key) r h = ground arith

terminal_excluded :
    (r : ReaderEquipment)
    → is_terminal r.status ≡ true
    → (can_accept_fare_presentations r ≡ false) × (may_authenticate_to_backend r ≡ false)
unfolding can_accept_fare_presentations may_authenticate_to_backend
terminal_excluded r h = ground arith

-- A revoked or decommissioned reader never changes again, not even its key: it never accepts fares
-- and never authenticates to the backend.
pub run_equipment_terminal :
    (ops : List EquipmentOp) (r : ReaderEquipment)
    → is_terminal r.status ≡ true
    → (run step ops r ≡ r)
      × (can_accept_fare_presentations (run step ops r) ≡ false)
      × (may_authenticate_to_backend (run step ops r) ≡ false)
run_equipment_terminal ops r h =
    let same = run_fixed step ops r (λ op. step_terminal op r h) in
    let excluded = terminal_excluded r h in (same, rw same excluded.0, rw same excluded.1)

-- The statuses in which a call is allowed.
abbrev pub Allowed : EquipmentOp → ReaderEquipmentStatus → Type 0
Allowed EquipmentOp.activate_op s =
    (s ≡ ReaderEquipmentStatus.pending_registration) ⊎ (s ≡ ReaderEquipmentStatus.active)
Allowed EquipmentOp.mark_offline_op s =
    (s ≡ ReaderEquipmentStatus.active) ⊎ (s ≡ ReaderEquipmentStatus.offline)
Allowed EquipmentOp.mark_online_op s =
    (s ≡ ReaderEquipmentStatus.active) ⊎ (s ≡ ReaderEquipmentStatus.offline)
Allowed EquipmentOp.enable_op s =
    (s ≡ ReaderEquipmentStatus.disabled) ⊎ (s ≡ ReaderEquipmentStatus.active)
Allowed EquipmentOp.decommission_op s =
    (is_terminal s ≡ false) ⊎ (s ≡ ReaderEquipmentStatus.decommissioned)
Allowed (EquipmentOp.disable_op _) s = is_terminal s ≡ false
Allowed (EquipmentOp.revoke_op _) s = (is_terminal s ≡ false) ⊎ (s ≡ ReaderEquipmentStatus.revoked)
Allowed (EquipmentOp.rotate_op _) s = is_terminal s ≡ false

-- The status after a call that succeeds.
abbrev pub status_after : EquipmentOp → ReaderEquipmentStatus → ReaderEquipmentStatus
status_after EquipmentOp.activate_op s = ReaderEquipmentStatus.active
status_after EquipmentOp.mark_offline_op s = ReaderEquipmentStatus.offline
status_after EquipmentOp.mark_online_op s = ReaderEquipmentStatus.active
status_after EquipmentOp.enable_op s = ReaderEquipmentStatus.active
status_after EquipmentOp.decommission_op s = ReaderEquipmentStatus.decommissioned
status_after (EquipmentOp.disable_op _) s = ReaderEquipmentStatus.disabled
status_after (EquipmentOp.revoke_op _) s = ReaderEquipmentStatus.revoked
status_after (EquipmentOp.rotate_op _) s = s

-- A call on a reader succeeds exactly in the statuses of the transition diagram, with the diagram's status
-- after it; a refused call leaves the reader as it was; and a call that succeeded once succeeds
-- again and changes nothing more, so a first reason stays.
pub equipment_step-ok_iff :
    (op : EquipmentOp) (r : ReaderEquipment)
    → (((step op r).0 ≡ ok tt) ↔ Allowed op r.status)
      × ((step op r).0 ≡ ok tt → (step op r).1.status ≡ status_after op r.status)
      × ((x : ReaderEquipmentError) → (step op r).0 ≡ err x → (step op r).1 ≡ r)
      × ((step op r).0 ≡ ok tt → step op (step op r).1 ≡ (ok tt, (step op r).1))
unfolding step activate mark_offline mark_online disable enable revoke decommission
    rotate_equipment_key
equipment_step-ok_iff EquipmentOp.activate_op r = (
  (λ h. ground arith, λ h. ground arith),
  λ h. ground arith,
  λ x h. ground arith,
  λ h. ground arith,
)
equipment_step-ok_iff EquipmentOp.mark_offline_op r = (
  (λ h. ground arith, λ h. ground arith),
  λ h. ground arith,
  λ x h. ground arith,
  λ h. ground arith,
)
equipment_step-ok_iff EquipmentOp.mark_online_op r = (
  (λ h. ground arith, λ h. ground arith),
  λ h. ground arith,
  λ x h. ground arith,
  λ h. ground arith,
)
equipment_step-ok_iff EquipmentOp.enable_op r = (
  (λ h. ground arith, λ h. ground arith),
  λ h. ground arith,
  λ x h. ground arith,
  λ h. ground arith,
)
equipment_step-ok_iff EquipmentOp.decommission_op r = (
  (λ h. ground arith, λ h. ground arith),
  λ h. ground arith,
  λ x h. ground arith,
  λ h. ground arith,
)
equipment_step-ok_iff (EquipmentOp.disable_op reason) r = (
  (λ h. ground arith, λ h. ground arith),
  λ h. ground arith,
  λ x h. ground arith,
  λ h. ground arith,
)
equipment_step-ok_iff (EquipmentOp.revoke_op reason) r = (
  (λ h. ground arith, λ h. ground arith),
  λ h. ground arith,
  λ x h. ground arith,
  λ h. ground arith,
)
equipment_step-ok_iff (EquipmentOp.rotate_op key) r = (
  (λ h. ground arith, λ h. ground arith),
  λ h. ground arith,
  λ x h. ground arith,
  λ h. ground arith,
)

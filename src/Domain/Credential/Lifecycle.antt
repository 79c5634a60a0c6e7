-- ===== src/Domain/Credential/Lifecycle.antt =====
-- The life of a fare credential (crates/domain/src/credential.rs) under any sequence of calls.
use transit_guard.Base.{◌≡◌, ◌≢◌, ◌↔◌, ◌⊎◌, true, false, some, none, List, arith}
use transit_guard.Base.Result.{ok, err}
use transit_guard.Base.Machine.{run, run_inv, run_fixed}
use transit_guard.Domain.Identifier.{FareCredentialId, TransitAccountId}
use transit_guard.Domain.Credential.{
  FareCredential, FareCredentialKind, FareCredentialStatus, FareCredentialError, RevocationReason,
  CredentialCall, is_terminal, new_pending, activate, suspend, reactivate, revoke, expire,
  replace_with, is_usable,
}

-- A call of one of the methods that take `&mut self`.
pub data CredentialOp : Type 0 where
  activate_op suspend_op reactivate_op expire_op : CredentialOp
  revoke_op : RevocationReason → CredentialOp
  replace_op : FareCredentialId → CredentialOp

unfoldable pub step : CredentialOp → FareCredential → CredentialCall
step CredentialOp.activate_op c = activate c
step CredentialOp.suspend_op c = suspend c
step CredentialOp.reactivate_op c = reactivate c
step CredentialOp.expire_op c = expire c
step (CredentialOp.revoke_op reason) c = revoke reason c
step (CredentialOp.replace_op successor) c = replace_with successor c

-- The reason and the successor are recorded exactly in the status that they explain, and a
-- credential is not its own successor.
pub record IsConsistent (c : FareCredential) : Type 0 where
  pub reason_iff : (c.status ≡ FareCredentialStatus.revoked) ↔ (c.revocation_reason ≢ none)
  pub successor_iff : (c.status ≡ FareCredentialStatus.replaced) ↔ (c.replacement_id ≢ none)
  pub not_own_successor : c.replacement_id ≢ some c.id

new_pending-IsConsistent :
    (id : FareCredentialId) (account : TransitAccountId) (kind : FareCredentialKind)
    → IsConsistent (new_pending id account kind)
unfolding new_pending
new_pending-IsConsistent id account kind = ground arith

step-IsConsistent :
    (op : CredentialOp) (c : FareCredential) → IsConsistent c → IsConsistent (step op c).1
unfolding step activate suspend reactivate revoke expire replace_with
step-IsConsistent CredentialOp.activate_op c h = ground arith
step-IsConsistent CredentialOp.suspend_op c h = ground arith
step-IsConsistent CredentialOp.reactivate_op c h = ground arith
step-IsConsistent CredentialOp.expire_op c h = ground arith
step-IsConsistent (CredentialOp.revoke_op reason) c h = ground arith
step-IsConsistent (CredentialOp.replace_op successor) c h = ground arith

-- Whatever calls are made on a new credential, a revocation reason is recorded exactly while it is
-- revoked, a successor exactly while it is replaced, and it is never its own successor.
pub run_credential-IsConsistent :
    (ops : List CredentialOp) (id : FareCredentialId) (account : TransitAccountId)
    (kind : FareCredentialKind)
    → IsConsistent (run step ops (new_pending id account kind))
run_credential-IsConsistent ops id account kind =
    run_inv step IsConsistent step-IsConsistent ops (new_pending id account kind)
      (new_pending-IsConsistent id account kind)

step_terminal :
    (op : CredentialOp) (c : FareCredential) → is_terminal c.status ≡ true → (step op c).1 ≡ c
unfolding step activate suspend reactivate revoke expire replace_with
step_terminal CredentialOp.activate_op c h = ground arith
step_terminal CredentialOp.suspend_op c h = ground arith
step_terminal CredentialOp.reactivate_op c h = ground arith
step_terminal CredentialOp.expire_op c h = ground arith
step_terminal (CredentialOp.revoke_op reason) c h = ground arith
step_terminal (CredentialOp.replace_op successor) c h = ground arith

terminal-unusable : (c : FareCredential) → is_terminal c.status ≡ true → is_usable c ≡ false
unfolding is_usable
terminal-unusable c h = ground arith

-- A revoked, expired or replaced credential never changes again, so it is never usable again and
-- keeps its first reason or successor.
pub run_credential_terminal :
    (ops : List CredentialOp) (c : FareCredential)
    → is_terminal c.status ≡ true
    → (run step ops c ≡ c) × (is_usable (run step ops c) ≡ false)
run_credential_terminal ops c h =
    let same = run_fixed step ops c (λ op. step_terminal op c h) in
    (same, rw same (terminal-unusable c h))

-- The status that a call asks for.
abbrev pub target : CredentialOp → FareCredentialStatus
target CredentialOp.activate_op = FareCredentialStatus.active
target CredentialOp.suspend_op = FareCredentialStatus.suspended
target CredentialOp.reactivate_op = FareCredentialStatus.active
target CredentialOp.expire_op = FareCredentialStatus.expired
target (CredentialOp.revoke_op _) = FareCredentialStatus.revoked
target (CredentialOp.replace_op _) = FareCredentialStatus.replaced

-- The transition diagram: a status may be asked for again, an unused or suspended credential may
-- become active, an active one suspended, one in use replaced, and any that is not terminal may be
-- revoked or expire.
abbrev pub MayBecome : FareCredentialStatus → FareCredentialStatus → Type 0
MayBecome from FareCredentialStatus.active =
    (from ≡ FareCredentialStatus.pending)
    ⊎ (from ≡ FareCredentialStatus.active)
    ⊎ (from ≡ FareCredentialStatus.suspended)
MayBecome from FareCredentialStatus.suspended =
    (from ≡ FareCredentialStatus.active) ⊎ (from ≡ FareCredentialStatus.suspended)
MayBecome from FareCredentialStatus.revoked =
    (is_terminal from ≡ false) ⊎ (from ≡ FareCredentialStatus.revoked)
MayBecome from FareCredentialStatus.expired =
    (is_terminal from ≡ false) ⊎ (from ≡ FareCredentialStatus.expired)
MayBecome from FareCredentialStatus.replaced =
    (from ≡ FareCredentialStatus.active) ⊎ (from ≡ FareCredentialStatus.suspended)
MayBecome from FareCredentialStatus.pending = ⊥

-- A replacement also names another credential, and an already replaced one its successor.
abbrev pub Allowed : CredentialOp → FareCredential → Type 0
Allowed (CredentialOp.replace_op successor) c =
    (successor ≢ c.id)
    × (MayBecome c.status FareCredentialStatus.replaced
        ⊎ ((c.status ≡ FareCredentialStatus.replaced) × (c.replacement_id ≡ some successor)))
Allowed op c = MayBecome c.status (target op)

-- A call on a credential succeeds exactly when the transition diagram allows it, and then the credential has the
-- status that was asked for and keeps its identity, account and kind.
pub credential_step-ok_iff :
    (op : CredentialOp) (c : FareCredential)
    → (((step op c).0 ≡ ok tt) ↔ Allowed op c)
      × ((step op c).0 ≡ ok tt
          → ((step op c).1.status ≡ target op)
            × ((step op c).1.id ≡ c.id)
            × ((step op c).1.transit_account_id ≡ c.transit_account_id)
            × ((step op c).1.kind ≡ c.kind))
unfolding step activate suspend reactivate revoke expire replace_with
credential_step-ok_iff CredentialOp.activate_op c =
    ((λ h. ground arith, λ h. ground arith), λ h. ground arith)
credential_step-ok_iff CredentialOp.suspend_op c =
    ((λ h. ground arith, λ h. ground arith), λ h. ground arith)
credential_step-ok_iff CredentialOp.reactivate_op c =
    ((λ h. ground arith, λ h. ground arith), λ h. ground arith)
credential_step-ok_iff CredentialOp.expire_op c =
    ((λ h. ground arith, λ h. ground arith), λ h. ground arith)
credential_step-ok_iff (CredentialOp.revoke_op reason) c =
    ((λ h. ground arith, λ h. ground arith), λ h. ground arith)
credential_step-ok_iff (CredentialOp.replace_op successor) c =
    ((λ h. ground arith, λ h. ground arith), λ h. ground arith)

-- A refused call on a credential leaves it as it was, and a call that succeeded once succeeds again and
-- changes nothing more, so a first revocation reason stays.
pub credential_step_atomic :
    (op : CredentialOp) (c : FareCredential)
    → ((x : FareCredentialError) → (step op c).0 ≡ err x → (step op c).1 ≡ c)
      × ((step op c).0 ≡ ok tt → step op (step op c).1 ≡ (ok tt, (step op c).1))
unfolding step activate suspend reactivate revoke expire replace_with
credential_step_atomic CredentialOp.activate_op c = (λ x h. ground arith, λ h. ground arith)
credential_step_atomic CredentialOp.suspend_op c = (λ x h. ground arith, λ h. ground arith)
credential_step_atomic CredentialOp.reactivate_op c = (λ x h. ground arith, λ h. ground arith)
credential_step_atomic CredentialOp.expire_op c = (λ x h. ground arith, λ h. ground arith)
credential_step_atomic (CredentialOp.revoke_op reason) c = (λ x h. ground arith, λ h. ground arith)
credential_step_atomic (CredentialOp.replace_op successor) c =
    (λ x h. ground arith, λ h. ground arith)

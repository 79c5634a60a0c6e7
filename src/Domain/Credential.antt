-- ===== src/Domain/Credential.antt =====
-- crates/domain/src/credential.rs: the life of a fare credential.
pub mod Lifecycle
use transit_guard.Base.{Bool, true, false, Option, some, none, ite, ℕ_discrete}
use transit_guard.Base.Result.{ok, err, Mutation}
use transit_guard.Domain.Identifier.{FareCredentialId, TransitAccountId}

pub data FareCredentialKind : Type 0 where
  card mobile development_test_token : FareCredentialKind

pub data FareCredentialStatus : Type 0 where
  pending active suspended revoked expired replaced : FareCredentialStatus

unfoldable pub FareCredentialStatus-discrete : Discrete FareCredentialStatus
FareCredentialStatus-discrete = hlevel

-- `FareCredentialStatus::is_terminal`.
abbrev pub is_terminal : FareCredentialStatus → Bool
is_terminal FareCredentialStatus.revoked = true
is_terminal FareCredentialStatus.expired = true
is_terminal FareCredentialStatus.replaced = true
is_terminal _ = false

pub data RevocationReason : Type 0 where
  reported_lost reported_stolen replaced account_suspended : RevocationReason
  administrative_action security_incident test_cleanup : RevocationReason

pub data FareCredentialError : Type 0 where
  invalid_status_transition : FareCredentialStatus → FareCredentialStatus → FareCredentialError
  self_replacement : FareCredentialError
  replacement_already_recorded : FareCredentialId → FareCredentialId → FareCredentialError

pub record FareCredential : Type 0 where
  pub id : FareCredentialId
  pub transit_account_id : TransitAccountId
  pub kind : FareCredentialKind
  pub status : FareCredentialStatus
  pub revocation_reason : Option RevocationReason
  pub replacement_id : Option FareCredentialId

abbrev pub CredentialCall : Type 0
CredentialCall = Mutation FareCredential FareCredentialError

unfoldable pub new_pending :
    FareCredentialId → TransitAccountId → FareCredentialKind → FareCredential
new_pending id transit_account_id kind = record {
  id = id;
  transit_account_id = transit_account_id;
  kind = kind;
  status = FareCredentialStatus.pending;
  revocation_reason = none;
  replacement_id = none;
}

-- `matches!(self.status, Active)`.
abbrev status_is_usable : FareCredentialStatus → Bool
status_is_usable FareCredentialStatus.active = true
status_is_usable _ = false

unfoldable pub is_usable : FareCredential → Bool
is_usable self = status_is_usable self.status

-- The refusal of a transition to `to`.
abbrev refuse : FareCredentialStatus → FareCredential → CredentialCall
refuse to self = (err (FareCredentialError.invalid_status_transition self.status to), self)

-- Each `…_on` is the `match self.status` of the method that stands under it.
activate_on : FareCredentialStatus → FareCredential → CredentialCall
activate_on FareCredentialStatus.pending self =
    (ok tt, record self { status = FareCredentialStatus.active })
activate_on FareCredentialStatus.suspended self =
    (ok tt, record self { status = FareCredentialStatus.active })
activate_on FareCredentialStatus.active self = (ok tt, self)
activate_on _ self = refuse FareCredentialStatus.active self

unfoldable pub activate : FareCredential → CredentialCall
unfolding activate_on
activate self = activate_on self.status self

suspend_on : FareCredentialStatus → FareCredential → CredentialCall
suspend_on FareCredentialStatus.active self =
    (ok tt, record self { status = FareCredentialStatus.suspended })
suspend_on FareCredentialStatus.suspended self = (ok tt, self)
suspend_on _ self = refuse FareCredentialStatus.suspended self

unfoldable pub suspend : FareCredential → CredentialCall
unfolding suspend_on
suspend self = suspend_on self.status self

unfoldable pub reactivate : FareCredential → CredentialCall
unfolding activate
reactivate self = activate self

revoke_on : FareCredentialStatus → RevocationReason → FareCredential → CredentialCall
revoke_on FareCredentialStatus.revoked reason self = (ok tt, self)
revoke_on FareCredentialStatus.expired reason self = refuse FareCredentialStatus.revoked self
revoke_on FareCredentialStatus.replaced reason self = refuse FareCredentialStatus.revoked self
revoke_on _ reason self = (
  ok tt,
  record self {
    status = FareCredentialStatus.revoked;
    revocation_reason = some reason;
    replacement_id = none;
  },
)

unfoldable pub revoke : RevocationReason → FareCredential → CredentialCall
unfolding revoke_on
revoke reason self = revoke_on self.status reason self

expire_on : FareCredentialStatus → FareCredential → CredentialCall
expire_on FareCredentialStatus.expired self = (ok tt, self)
expire_on FareCredentialStatus.revoked self = refuse FareCredentialStatus.expired self
expire_on FareCredentialStatus.replaced self = refuse FareCredentialStatus.expired self
expire_on _ self = (
  ok tt,
  record self {
    status = FareCredentialStatus.expired;
    revocation_reason = none;
    replacement_id = none;
  },
)

unfoldable pub expire : FareCredential → CredentialCall
unfolding expire_on
expire self = expire_on self.status self

-- The inner `match self.replacement_id` of an already replaced credential.
replaced_again : Option FareCredentialId → FareCredentialId → FareCredential → CredentialCall
replaced_again (some existing) replacement_id self =
    ite (ℕ_discrete existing replacement_id) (ok tt, self)
      (err (FareCredentialError.replacement_already_recorded existing replacement_id), self)
replaced_again none replacement_id self = (
  err (
      FareCredentialError.invalid_status_transition FareCredentialStatus.replaced
        FareCredentialStatus.replaced),
  self,
)

replace_on : FareCredentialStatus → FareCredentialId → FareCredential → CredentialCall
unfolding replaced_again
replace_on FareCredentialStatus.replaced replacement_id self =
    replaced_again self.replacement_id replacement_id self
replace_on FareCredentialStatus.pending replacement_id self =
    refuse FareCredentialStatus.replaced self
replace_on FareCredentialStatus.revoked replacement_id self =
    refuse FareCredentialStatus.replaced self
replace_on FareCredentialStatus.expired replacement_id self =
    refuse FareCredentialStatus.replaced self
replace_on _ replacement_id self = (
  ok tt,
  record self {
    status = FareCredentialStatus.replaced;
    revocation_reason = none;
    replacement_id = some replacement_id;
  },
)

unfoldable pub replace_with : FareCredentialId → FareCredential → CredentialCall
unfolding replace_on
replace_with replacement_id self =
    ite (ℕ_discrete replacement_id self.id) (err FareCredentialError.self_replacement, self)
      (replace_on self.status replacement_id self)

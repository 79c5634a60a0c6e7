-- ===== src/Application/Examples.antt =====
-- Ports on a world in memory, and runs of the use cases on it.
mod Steady
use transit_guard.Base.{
  ℕ_discrete, ◌≡◌, refl, ap, ◌+◌, Bool, true, false, Option, some, none, List, [], ◌∷◌, arith,
}
use transit_guard.Base.Tests.{◌==◌, if◌then◌else◌}
use transit_guard.Base.Result.{ok, err, ok-injective}
use transit_guard.Base.Int.{pos}
use transit_guard.Domain.Identifier.{Uuid, FareCredentialId}
use transit_guard.Domain.Money.{Currency, from_minor_units}
use transit_guard.Domain.Account.{TransitAccount, TransitAccountStatus, EligibilityClassification}
use transit_guard.Domain.Credential.{
  FareCredential, FareCredentialKind, FareCredentialStatus, FareCredentialStatus-discrete,
  RevocationReason, revoke, replace_with, new_pending,
}
use transit_guard.Application.Ports.{
  Ports, Port, ApplicationError, RepositoryError, VersionedAggregate, SaveCondition, next_version,
}
use transit_guard.Domain.Event.{new_event, validate_payload, new_aggregate_version}
use transit_guard.Application.Effect.{◌>>=◌, lift, or_rollback, draw}
use transit_guard.Application.Events.{record_event}
use transit_guard.Application.Triples.{Operation, Transactional}
use transit_guard.Application.StatusChange.{
  StatusChange, ChangedFareCredential, change_status, change_loaded, update,
}
use transit_guard.Application.StatusChange.Post.{StatusChangePost}
use transit_guard.Application.StatusChange.Run.{change_status_atomic}
use transit_guard.Application.Issue.{
  IssueFareCredentialCommand, IssuedFareCredential, IsIssued, issue, issue_atomic,
}
use transit_guard.Application.Replace.{
  ReplaceFareCredentialCommand, ReplacedFareCredential, replace, supersede,
}
use transit_guard.Application.Replace.Post.{ReplacePost}
use transit_guard.Application.Replace.Run.{replace_atomic}

-- The credentials and the accounts that a transaction finds, what it did so far, what took effect,
-- and the next identifier.
record World : Type 0 where
  credentials : FareCredentialId → Option (VersionedAggregate FareCredential)
  accounts : Uuid → Option (VersionedAggregate TransitAccount)
  operations : List Operation
  history : List (List Operation)
  next_id : Uuid

abbrev done : Operation → World → World
done operation w = record w { operations = operation ∷ w.operations }

-- The save condition against what is stored.
abbrev permits : SaveCondition → Option (VersionedAggregate FareCredential) → Bool
permits SaveCondition.must_not_exist none = true
permits SaveCondition.must_not_exist (some stored) = false
permits (SaveCondition.if_version version) (some stored) = version.value == stored.version.value
permits (SaveCondition.if_version version) none = false

abbrev save_conflict : RepositoryError
save_conflict = record { entity = "fare credential"; operation = "save" }

abbrev save : FareCredential → SaveCondition → Port World (Unit {0}) RepositoryError
save c condition w =
    if permits condition (w.credentials c.id)
    then (ok tt, done (Operation.saved_credential c condition) w)
    else (err save_conflict, w)

abbrev ports : Ports World
ports = record {
  uuid = record {
    is_nil = λ value. value == 0;
    is_rfc4122 = λ value. true;
    is_sort_rand = λ value. true;
    parse_str = λ text. err text;
    to_string = λ value. "0190163d-8694-739b-aea5-966c26f8ad91";
  };
  begin = λ w. (ok tt, record w { operations = [] });
  find_transit_account =
      λ id w. (ok (w.accounts id), done (Operation.found_account id (w.accounts id)) w);
  find_fare_credential =
      λ id w. (ok (w.credentials id), done (Operation.found_credential id (w.credentials id)) w);
  save_fare_credential = save;
  append_domain_event = λ event w. (ok tt, done (Operation.appended_event event) w);
  commit = λ w. (ok tt, record w { operations = []; history = w.operations ∷ w.history });
  rollback = λ w. (ok tt, record w { operations = [] });
  now = λ w. (ok (record { unix_milliseconds = pos 10_000_000 }), w);
  generate_credential_id = λ w. (w.next_id, record w { next_id = w.next_id + 1 });
  generate_event_id = λ w. (w.next_id, record w { next_id = w.next_id + 1 });
}

save_lem :
    (c : FareCredential) (condition : SaveCondition) (w : World)
    → (save c condition w).0 ≡ ok tt
    → (save c condition w).1.operations ≡ Operation.saved_credential c condition ∷ w.operations
save_lem c condition w h = ground arith

save_history :
    (c : FareCredential) (condition : SaveCondition) (w : World)
    → (save c condition w).1.history ≡ w.history
save_history c condition w = ground arith

laws : Transactional ports
laws = record {
  committed = λ w. w.history;
  pending = λ w. w.operations;
  begin_ok = λ w same. refl;
  begin_durable = λ w. refl;
  find_account_ok =
      λ id w same. ap (λ o. Operation.found_account id o ∷ w.operations) (ok-injective same);
  find_account_durable = λ id w. refl;
  find_credential_ok =
      λ id w same. ap (λ o. Operation.found_credential id o ∷ w.operations) (ok-injective same);
  find_credential_durable = λ id w. refl;
  save_credential_ok = λ c condition w same. save_lem c condition w same;
  save_credential_durable = save_history;
  append_ok = λ event w same. refl;
  append_durable = λ event w. refl;
  commit_ok = λ w same. refl;
  commit_err = λ w same. cc;
  rollback_durable = λ w. refl;
  now_keeps = λ w. (refl, refl);
  credential_id_keeps = λ w. (refl, refl);
  event_id_keeps = λ w. (refl, refl);
}

abbrev card : VersionedAggregate FareCredential
card = record {
  aggregate = record {
    id = 3;
    transit_account_id = 1;
    kind = FareCredentialKind.card;
    status = FareCredentialStatus.active;
    revocation_reason = none;
    replacement_id = none;
  };
  version = record { value = 4 };
}

abbrev rider : VersionedAggregate TransitAccount
rider = record {
  aggregate = record {
    id = 1;
    rider_id = 2;
    status = TransitAccountStatus.active;
    eligibility = EligibilityClassification.standard;
    stored_value = record { amount = from_minor_units (pos 500) Currency.usd };
  };
  version = record { value = 1 };
}

abbrev world : World
world = record {
  credentials = λ id. if id == 3 then some card else none;
  accounts = λ id. if id == 1 then some rider else none;
  operations = [];
  history = [];
  next_id = 40;
}

abbrev revocation : StatusChange
revocation = StatusChange.revoke_change RevocationReason.reported_lost

change_status_atomic_example :
    ((x : ApplicationError)
      → (change_status ports revocation 3 world).0 ≡ err x
      → (change_status ports revocation 3 world).1.history ≡ [])
    × ((out : ChangedFareCredential)
        → (change_status ports revocation 3 world).0 ≡ ok out
        → (transaction : List Operation) × ((change_status ports revocation 3 world).1.history
            ≡ transaction ∷ [])
          × StatusChangePost revocation 3 out transaction)
unfolding laws
change_status_atomic_example = change_status_atomic laws revocation 3 world

abbrev issue_command : IssueFareCredentialCommand
issue_command = record { transit_account_id = 1; kind = FareCredentialKind.mobile }

issue_atomic_example :
    ((x : ApplicationError)
      → (issue ports issue_command world).0 ≡ err x
      → (issue ports issue_command world).1.history ≡ [])
    × ((out : IssuedFareCredential)
        → (issue ports issue_command world).0 ≡ ok out
        → (transaction : List Operation) × ((issue ports issue_command world).1.history
            ≡ transaction ∷ [])
          × IsIssued issue_command out transaction)
unfolding laws
issue_atomic_example = issue_atomic laws issue_command world

abbrev replace_command : ReplaceFareCredentialCommand
replace_command = record { credential_id = 3; replacement_kind = FareCredentialKind.mobile }

replace_atomic_example :
    ((x : ApplicationError)
      → (replace ports replace_command world).0 ≡ err x
      → (replace ports replace_command world).1.history ≡ [])
    × ((out : ReplacedFareCredential)
        → (replace ports replace_command world).0 ≡ ok out
        → (transaction : List Operation) × ((replace ports replace_command world).1.history
            ≡ transaction ∷ [])
          × ReplacePost replace_command out transaction)
unfolding laws
replace_atomic_example = replace_atomic laws replace_command world

-- The runs succeed: the revocation changes the card, and the replacement creates its successor.
revocation_run :
    (change_status ports revocation 3 world).0
    ≡ ok (record {
      credential_id = 3;
      previous_status = FareCredentialStatus.active;
      current_status = FareCredentialStatus.revoked;
      reason = some RevocationReason.reported_lost;
      changed = true;
    })
unfolding change_status ◌>>=◌ lift or_rollback change_loaded FareCredentialStatus-discrete update
    next_version new_aggregate_version revoke record_event draw new_event validate_payload
revocation_run = refl

replacement_run :
    (replace ports replace_command world).0
    ≡ ok (record {
      original_credential_id = 3;
      replacement_credential_id = 40;
      previous_status = FareCredentialStatus.active;
      current_status = FareCredentialStatus.replaced;
      replacement_status = FareCredentialStatus.pending;
      changed = true;
    })
unfolding replace ◌>>=◌ lift or_rollback FareCredentialStatus-discrete supersede next_version
    new_aggregate_version draw replace_with ℕ_discrete record_event new_event validate_payload
    new_pending
replacement_run = refl

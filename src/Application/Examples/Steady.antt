-- ===== src/Application/Examples/Steady.antt =====
-- An adapter in memory that enforces the save conditions and keeps changes provisional until a
-- commit, and runs that succeed on it.
use transit_guard.Base.{ℕ, ◌+◌, ◌≤◌, ◌≡◌, refl, inl, Option, some, none, List, [], ◌∷◌, arith}
use transit_guard.Base.Tests.{◌==◌, if◌then◌else◌}
use transit_guard.Base.Result.{Result, ok, err}
use transit_guard.Base.Int.{pos}
use transit_guard.Domain.Identifier.{TransitAccountId, FareCredentialId, DomainEventId}
use transit_guard.Domain.Account.{TransitAccount}
use transit_guard.Domain.Credential.{FareCredential, revoke}
use transit_guard.Domain.Event.{AggregateVersion, DomainEvent, new_aggregate_version}
use transit_guard.Application.Ports.{Ports, RepositoryError, VersionedAggregate, next_version}
use transit_guard.Application.Triples.Store.{Store, Conforming, saved_version}
use transit_guard.Application.StatusChange.{ChangedFareCredential, change_status}
use transit_guard.Application.StatusChange.Success.{Applied, change_status_succeeds}
use transit_guard.Application.Issue.{IssuedFareCredential, issue}
use transit_guard.Application.Issue.Success.{Issues, issue_succeeds}
use transit_guard.Application.Replace.{ReplacedFareCredential, replace}
use transit_guard.Application.Replace.Success.{Replaces, replace_succeeds}
use transit_guard.Application.Examples.{
  ports, save_conflict, card, rider, revocation, issue_command, replace_command,
}

-- The tables; a row hides those of the same credential behind it.
record Database : Type 0 where
  accounts : TransitAccountId → Option (VersionedAggregate TransitAccount)
  rows : List (VersionedAggregate FareCredential)
  events : List DomainEvent

-- What is committed, and what the open transaction has.
record Memory : Type 0 where
  committed : Database
  pending : Database
  next_event_id : DomainEventId

abbrev lookup :
    FareCredentialId
    → List (VersionedAggregate FareCredential)
    → Option (VersionedAggregate FareCredential)
lookup id [] = none
lookup id (row ∷ rows) =
    let others = lookup id rows in if id == row.aggregate.id then some row else others

-- An identifier above those of all rows.
abbrev fresh_id : List (VersionedAggregate FareCredential) → ℕ
fresh_id [] = 1
fresh_id (row ∷ rows) = (row.aggregate.id + 1) + fresh_id rows

lookup-fresh_id :
    (rows : List (VersionedAggregate FareCredential)) (id : ℕ)
    → fresh_id rows ≤ id
    → lookup id rows ≡ none
lookup-fresh_id [] id above = refl
lookup-fresh_id (row ∷ rows) id above = ground (arith, lookup-fresh_id rows id (omega arith))

abbrev insert :
    FareCredential → Option AggregateVersion → Memory → Result (Unit {0}) RepositoryError × Memory
insert c none memory = (err save_conflict, memory)
insert c (some version) memory = (
  ok tt,
  record memory {
    pending = record memory.pending {
      rows = (record { aggregate = c; version = version }) ∷ memory.pending.rows;
    };
  },
)

abbrev adapter : Ports Memory
adapter = record {
  uuid = ports.uuid;
  begin = λ memory. (ok tt, record memory { pending = memory.committed });
  find_transit_account = λ id memory. (ok (memory.pending.accounts id), memory);
  find_fare_credential = λ id memory. (ok (lookup id memory.pending.rows), memory);
  save_fare_credential = λ c condition memory.
      insert c (saved_version condition (lookup c.id memory.pending.rows)) memory;
  append_domain_event = λ event memory. (
    ok tt,
    record memory { pending = record memory.pending { events = event ∷ memory.pending.events } },
  );
  commit = λ memory. (ok tt, record memory { committed = memory.pending });
  rollback = λ memory. (ok tt, record memory { pending = memory.committed });
  now = λ memory. (ok (record { unix_milliseconds = pos 10_000_000 }), memory);
  generate_credential_id =
      λ memory. (fresh_id memory.committed.rows + fresh_id memory.pending.rows, memory);
  generate_event_id =
      λ memory. (memory.next_event_id, record memory { next_event_id = memory.next_event_id + 1 });
}

abbrev store_of : Database → Store
store_of database = record {
  accounts = database.accounts;
  credentials = λ id. lookup id database.rows;
  events = database.events;
}

abbrev adapter-Conforming : Conforming adapter
adapter-Conforming = record {
  durable = λ memory. store_of memory.committed;
  view = λ memory. store_of memory.pending;
  begins = λ memory. (refl, refl, refl);
  finds_account = λ id memory. (refl, refl, refl);
  finds_credential = λ id memory. (refl, refl, refl);
  saves = λ c condition version memory admitted. rw admitted (refl, refl, refl);
  enforces = λ c condition memory refused. rw refused (save_conflict, refl, refl);
  appends = λ event memory. (refl, refl, refl);
  commits = λ memory. (refl, refl);
  rolls_back = λ memory. refl;
  tells_time = λ memory. (record { unix_milliseconds = pos 10_000_000 }, refl, refl, refl);
  generates = λ memory. (
    lookup-fresh_id memory.committed.rows _ (omega arith),
    lookup-fresh_id memory.pending.rows _ (omega arith),
    refl,
    refl,
  );
  generates_event = λ memory. (refl, refl);
}

abbrev tables : Database
tables = record {
  accounts = λ id. if id == 1 then some rider else none;
  rows = card ∷ [];
  events = [];
}

abbrev memory : Memory
memory = record { committed = tables; pending = tables; next_event_id = 80 }

change_status_succeeds_example :
    (out : ChangedFareCredential) × ((change_status adapter revocation 3 memory).0 ≡ ok out)
    × Applied revocation 3 card
        (record { value = 5 })
        (store_of tables)
        out
        (store_of (change_status adapter revocation 3 memory).1.committed)
unfolding next_version new_aggregate_version revoke
change_status_succeeds_example =
    change_status_succeeds adapter-Conforming revocation 3 card (record { value = 5 }) memory refl
      refl refl refl

issue_succeeds_example :
    (out : IssuedFareCredential) × ((issue adapter issue_command memory).0 ≡ ok out)
    × Issues issue_command
        (store_of tables)
        out
        (store_of (issue adapter issue_command memory).1.committed)
issue_succeeds_example = issue_succeeds adapter-Conforming issue_command rider memory refl refl

replace_succeeds_example :
    (out : ReplacedFareCredential) × ((replace adapter replace_command memory).0 ≡ ok out)
    × Replaces replace_command card
        (record { value = 5 })
        (store_of tables)
        out
        (store_of (replace adapter replace_command memory).1.committed)
unfolding next_version new_aggregate_version
replace_succeeds_example =
    replace_succeeds adapter-Conforming replace_command card (record { value = 5 }) memory refl refl
      refl (inl refl)

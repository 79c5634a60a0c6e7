-- ===== src/Application/Replace/Success.antt =====
-- When a first replacement succeeds, and what it leaves
-- (crates/application/src/use_cases/replace_fare_credential.rs).
use transit_guard.Base.{◌≡◌, ◌≢◌, ◌⊎◌, refl, ap, ◌∙◌, some, none, true, arith}
use transit_guard.Base.Result.{ok, map_err}
use transit_guard.Domain.Identifier.{FareCredentialId}
use transit_guard.Domain.Credential.{
  FareCredential, FareCredentialStatus, FareCredentialStatus-discrete, new_pending, replace_with,
}
use transit_guard.Domain.Event.{AggregateVersion, DomainEvent, DomainEventTime, DomainEventPayload}
use transit_guard.Application.Ports.{
  Ports, ApplicationError, VersionedAggregate, SaveCondition, next_version,
}
use transit_guard.Application.Events.{Records}
use transit_guard.Application.Triples.{ite_triple, bind_triple, fact_triple, return_triple}
use transit_guard.Application.Triples.Store.{
  Store, Conforming, put, put-other, log, saved_version, saved_version-loaded, first_version,
  new_aggregate_version-first,
}
use transit_guard.Application.Triples.Sure.{
  Sure, At, begin_sure, commit_sure, now_sure, find_credential_sure, generate_sure, save_sure,
  append_sure, check_sure, pure_sure, or_rollback_sure, require_sure, record_event_sure, sure-ok,
}
use transit_guard.Application.Replace.{
  ReplaceFareCredentialCommand, ReplacedFareCredential, supersede, replace,
}
use transit_guard.Application.Replace.Post.{replaced_status}

-- The statuses that allow a replacement by another credential.
abbrev pub IsReplaceable : FareCredential → Type 0
IsReplaceable c =
    (c.status ≡ FareCredentialStatus.active) ⊎ (c.status ≡ FareCredentialStatus.suspended)

replace_allowed :
    (id : FareCredentialId) (c : FareCredential)
    → IsReplaceable c
    → id ≢ c.id
    → (replace_with id c).0 ≡ ok tt
unfolding replace_with
replace_allowed id c h other = ground arith

replace_with-id : (id : FareCredentialId) (c : FareCredential) → (replace_with id c).1.id ≡ c.id
unfolding replace_with
replace_with-id id c = ground arith

not_replaced : (c : FareCredential) → IsReplaceable c → c.status ≢ FareCredentialStatus.replaced
not_replaced c h = ground arith

-- The store that a replacement leaves: the one before with the replaced original under its next
-- version, with a new pending credential of the same account, under an identifier that was not in
-- use and the first version, and with the two events.
pub record Replaces (command : ReplaceFareCredentialCommand)
    (loaded : VersionedAggregate FareCredential) (next : AggregateVersion) (before : Store)
    (out : ReplacedFareCredential) (after : Store) : Type 0 where
  pub unused : before.credentials out.replacement_credential_id ≡ none
  pub allowed : (replace_with out.replacement_credential_id loaded.aggregate).0 ≡ ok tt
  pub time : DomainEventTime
  pub original_event : DomainEvent
  pub original_recorded :
      Records next time
        (DomainEventPayload.fare_credential_status_changed command.credential_id
          loaded.aggregate.status FareCredentialStatus.replaced)
        original_event
  pub replacement_event : DomainEvent
  pub replacement_recorded :
      Records first_version time
        (DomainEventPayload.fare_credential_issued out.replacement_credential_id
          loaded.aggregate.transit_account_id command.replacement_kind)
        replacement_event
  pub stored :
      after
      ≡ log replacement_event (
          log original_event (
            put
              (new_pending out.replacement_credential_id loaded.aggregate.transit_account_id
                command.replacement_kind)
              first_version
              (put (replace_with out.replacement_credential_id loaded.aggregate).1 next before)))
  pub reported : out ≡ record {
    original_credential_id = command.credential_id;
    replacement_credential_id = out.replacement_credential_id;
    previous_status = loaded.aggregate.status;
    current_status = FareCredentialStatus.replaced;
    replacement_status = FareCredentialStatus.pending;
    changed = true;
  }

module _ {ℓ} {W : Type ℓ} {ports : Ports W} (laws : Conforming ports)
    (command : ReplaceFareCredentialCommand) (loaded : VersionedAggregate FareCredential)
    (next : AggregateVersion) (before : Store)
    (stored : before.credentials command.credential_id ≡ some loaded)
    (keyed : loaded.aggregate.id ≡ command.credential_id)
    (versioned : next_version loaded ≡ some next)
    (replaceable : IsReplaceable loaded.aggregate) where
  abbrev Succeeds : ReplacedFareCredential → W → Type 0
  Succeeds out w = Replaces command loaded next before out (laws.durable w)

  differs : (id : FareCredentialId) → before.credentials id ≡ none → id ≢ loaded.aggregate.id
  differs id unused same = absurd (cc)

  admits_original :
      (id : FareCredentialId)
      → saved_version
          (SaveCondition.if_version loaded.version)
          (before.credentials (replace_with id loaded.aggregate).1.id)
        ≡ some next
  admits_original id =
      ap (λ key. saved_version (SaveCondition.if_version loaded.version) (before.credentials key))
        (replace_with-id id loaded.aggregate ∙ keyed)
      ∙ ap (saved_version (SaveCondition.if_version loaded.version)) stored
      ∙ saved_version-loaded loaded next versioned

  admits_replacement :
      (id : FareCredentialId)
      → before.credentials id ≡ none
      → saved_version SaveCondition.must_not_exist
          ((put (replace_with id loaded.aggregate).1 next before).credentials id)
        ≡ some first_version
  admits_replacement id unused = ap (saved_version SaveCondition.must_not_exist) (
      put-other (replace_with id loaded.aggregate).1 next before id
        (λ same. differs id unused (same ∙ replace_with-id id loaded.aggregate))
      ∙ unused)

  supersede_sure : Sure (At laws before before) (supersede ports command loaded) Succeeds
  unfolding supersede new_pending
  supersede_sure = bind_triple (require_sure ports _ _ versioned) (λ version. fact_triple (λ same.
      bind_triple
        (or_rollback_sure ports
          (pure_sure (λ v. v ≡ first_version) _ (ap (map_err _) new_aggregate_version-first) refl))
        (λ one. fact_triple (λ first. bind_triple (generate_sure laws) (λ id. fact_triple (λ fresh.
          let allowed = replace_allowed id loaded.aggregate replaceable (differs id fresh.0) in
          bind_triple
            (or_rollback_sure ports
              (check_sure _ (ap (map_err ApplicationError.fare_credential) allowed)))
            (λ done. bind_triple (or_rollback_sure ports (now_sure laws)) (λ time.
              bind_triple
                (record_event_sure laws _ _ version time _
                  (not_replaced loaded.aggregate replaceable))
                (λ original. fact_triple (λ changed.
                  bind_triple (record_event_sure laws _ _ one time _ tt) (λ replacement.
                    fact_triple (λ issued.
                      bind_triple (save_sure laws _ _ next (admits_original id)) (λ saved.
                        bind_triple
                          (save_sure laws _ SaveCondition.must_not_exist first_version
                            (admits_replacement id fresh.1))
                          (λ created. bind_triple (append_sure laws original) (λ appended.
                            bind_triple (append_sure laws replacement) (λ completed.
                              bind_triple (commit_sure laws) (λ committed. return_triple _ (λ w d.
                                record {
                                  unused = fresh.0;
                                  allowed = allowed;
                                  time = time;
                                  original_event = original;
                                  original_recorded = rw (← same) changed;
                                  replacement_event = replacement;
                                  replacement_recorded = rw (← first) issued;
                                  stored = d;
                                  reported = rw (replaced_status id loaded.aggregate allowed) refl;
                                }))))))))))))))))))

  replace_sure : Sure (λ w. laws.durable w ≡ before) (replace ports command) Succeeds
  unfolding replace
  replace_sure = bind_triple (begin_sure laws before) (λ begun.
      bind_triple (find_credential_sure laws command.credential_id stored) (λ o.
        fact_triple (λ found. bind_triple (require_sure ports _ o found) (λ c. fact_triple (λ same.
          rw same (
            ite_triple
              (FareCredentialStatus-discrete loaded.aggregate.status FareCredentialStatus.replaced)
              (λ was. absurd (not_replaced loaded.aggregate replaceable was))
              (λ other. supersede_sure)))))))

-- With an adapter that enforces the save conditions, generates unused identifiers and refuses
-- nothing else, the replacement of a durably stored credential that is active or suspended succeeds
-- if its version can be increased. The durable store then has the replaced original under its next
-- version, a new pending credential of the same account and the kind asked for, under an identifier
-- that was not in use and version 1, and one more event for each of the two, and nothing else
-- changed; the result names both credentials and their statuses.
pub replace_succeeds {ℓ} :
    {W : Type ℓ} {ports : Ports W} (laws : Conforming ports)
    (command : ReplaceFareCredentialCommand) (loaded : VersionedAggregate FareCredential)
    (next : AggregateVersion) (w : W)
    → (laws.durable w).credentials command.credential_id ≡ some loaded
    → loaded.aggregate.id ≡ command.credential_id
    → next_version loaded ≡ some next
    → IsReplaceable loaded.aggregate
    → (out : ReplacedFareCredential) × ((replace ports command w).0 ≡ ok out)
      × Replaces command loaded next (laws.durable w) out (laws.durable (replace ports command w).1)
replace_succeeds {ports = ports} laws command loaded next w stored keyed versioned replaceable =
    sure-ok (Succeeds laws command loaded next (laws.durable w) stored keyed versioned replaceable)
      (replace ports command)
      (replace_sure laws command loaded next (laws.durable w) stored keyed versioned replaceable) w
      refl

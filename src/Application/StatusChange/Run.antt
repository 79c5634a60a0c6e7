-- ===== src/Application/StatusChange/Run.antt =====
-- The runs of the activation, suspension and revocation services
-- (crates/application/src/use_cases).
use transit_guard.Base.{◌≡◌, refl, ap, sym, inl, inr, some, List, [], ◌∷◌}
use transit_guard.Base.Result.{ok, err, map_err-eq-ok}
use transit_guard.Domain.Identifier.{FareCredentialId}
use transit_guard.Domain.Credential.{FareCredential, FareCredentialStatus-discrete}
use transit_guard.Application.Ports.{Ports, ApplicationError, VersionedAggregate}
use transit_guard.Application.Events.{record_event_triple}
use transit_guard.Application.Triples.{
  Operation, Triple, Transactional, bind_triple, return_triple, fact_triple, ite_triple,
  triple_cases,
}
use transit_guard.Application.Triples.Steps.{
  Durable, Open, or_rollback_triple, require_triple, begin_triple, commit_triple,
  find_credential_triple, save_credential_triple, append_triple, now_triple, check_triple,
}
use transit_guard.Application.StatusChange.{
  StatusChange, ChangedFareCredential, target, reported_reason, unchanged, update, change_loaded,
  change_status,
}
use transit_guard.Application.StatusChange.Post.{
  Records-IsEventOf, mutate_same, mutate-target, StatusChangePost,
}

module _ {ℓ} {W : Type ℓ} {ports : Ports W} (laws : Transactional ports)
    (log : List (List Operation)) (change : StatusChange) (id : FareCredentialId)
    (loaded : VersionedAggregate FareCredential) where
  -- The result and the world after a successful run.
  abbrev pub Done : ChangedFareCredential → W → Type 0
  Done out w =
      (transaction : List Operation) × (laws.committed w ≡ transaction ∷ log)
      × StatusChangePost change id out transaction

  abbrev Reading : W → Type 0
  Reading = Open laws log (Operation.found_credential id (some loaded) ∷ [])

  unchanged_triple :
      loaded.aggregate.status ≡ target change
      → Triple Reading (unchanged ports change id loaded) Done (Durable laws log)
  unfolding unchanged
  unchanged_triple same = bind_triple (commit_triple laws log) (λ _. return_triple _ (λ w d. (
    Operation.found_credential id (some loaded) ∷ [],
    d,
    (
      loaded,
      refl,
      refl,
      refl,
      ap (reported_reason change) (sym (mutate_same change loaded.aggregate same)),
      inl (refl, same, refl),
    ),
  )))

  update_triple : Triple Reading (update ports change id loaded) Done (Durable laws log)
  unfolding update
  update_triple = bind_triple (require_triple laws log _ _) (λ next. fact_triple (λ versioned.
      bind_triple (check_triple laws log _) (λ done. fact_triple (λ allowed.
        bind_triple (or_rollback_triple laws log (now_triple laws log)) (λ time.
          bind_triple (record_event_triple laws log _ _ next time _) (λ event. fact_triple (λ made.
            bind_triple (or_rollback_triple laws log (save_credential_triple laws log _ _))
              (λ saved.
                bind_triple (or_rollback_triple laws log (append_triple laws log event))
                  (λ appended. bind_triple (commit_triple laws log) (λ committed.
                    return_triple _ (λ w d. (
                      _,
                      d,
                      (
                        loaded,
                        refl,
                        refl,
                        mutate-target change loaded.aggregate (map_err-eq-ok _ _ allowed),
                        refl,
                        inr (
                          refl,
                          map_err-eq-ok _ _ allowed,
                          (
                            event,
                            Records-IsEventOf change id loaded next time versioned made,
                            refl,
                          ),
                        ),
                      ),
                    ))))))))))))

module _ {ℓ} {W : Type ℓ} {ports : Ports W} (laws : Transactional ports) (change : StatusChange)
    (id : FareCredentialId) where
  change_triple :
      (log : List (List Operation))
      → Triple
          (Durable laws log)
          (change_status ports change id)
          (λ out w.
            (transaction : List Operation) × (laws.committed w ≡ transaction ∷ log)
            × StatusChangePost change id out transaction)
          (Durable laws log)
  unfolding change_status change_loaded
  change_triple log = bind_triple (begin_triple laws log) (λ begun.
      bind_triple (or_rollback_triple laws log (find_credential_triple laws log id)) (λ o.
        bind_triple (require_triple laws log _ o) (λ loaded. fact_triple (λ present. rw present (
          ite_triple (FareCredentialStatus-discrete loaded.aggregate.status (target change))
            (unchanged_triple laws log change id loaded)
            (λ other. update_triple laws log change id loaded))))))

  -- With ports that keep the promises of a transaction, the activation, suspension or revocation of
  -- a credential either fails, and then no transaction took effect, or succeeds, and then exactly
  -- one did. That one only read the credential, if it had the status; otherwise the domain allowed
  -- the change, and it saved the changed credential under the version that it read and appended the
  -- event of the change with the next version. The result reports the status before, the target
  -- status, and for a revocation the reason that the credential has.
  pub change_status_atomic :
      (w : W)
      → ((x : ApplicationError)
          → (change_status ports change id w).0 ≡ err x
          → laws.committed (change_status ports change id w).1 ≡ laws.committed w)
        × ((out : ChangedFareCredential)
            → (change_status ports change id w).0 ≡ ok out
            → (transaction : List Operation) × (laws.committed (change_status ports change id w).1
                ≡ transaction ∷ laws.committed w)
              × StatusChangePost change id out transaction)
  change_status_atomic w = triple_cases (change_triple (laws.committed w)) w refl

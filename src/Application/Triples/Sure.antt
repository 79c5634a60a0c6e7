-- ===== src/Application/Triples/Sure.antt =====
-- Steps that cannot fail, for the use cases on adapters that conform to the ports
-- (crates/application/src/unit_of_work.rs).
use transit_guard.Base.{sym, ap, subst, ◌∙◌, String, ◌≡◌, refl, true, Bool, Option, some, none}
use transit_guard.Base.Result.{Result, ok, err, map_err, ok-injective}
use transit_guard.Domain.Identifier.{TransitAccountId, FareCredentialId}
use transit_guard.Domain.Account.{TransitAccount}
use transit_guard.Domain.Credential.{FareCredential}
use transit_guard.Domain.Event.{DomainEvent, DomainEventTime, DomainEventPayload, AggregateVersion}
use transit_guard.Domain.Event.Payloads.{IsChange, new_event_iff}
use transit_guard.Application.Ports.{
  Ports, Port, ApplicationError, SaveCondition, VersionedAggregate,
}
use transit_guard.Application.Events.{record_event, Records}
use transit_guard.Application.Effect.{
  App, recovered, lift, query, draw, or_rollback, require, ensure, pure_result,
}
use transit_guard.Application.Triples.{Holds, Triple, lift_triple, draw_triple, bind_triple}
use transit_guard.Application.Triples.Store.{Store, Conforming, put, log, saved_version}

-- From a world of `P` the computation succeeds, with a value and a world of `Q`.
abbrev pub Sure {ℓ κ} :
    {W : Type ℓ} {T : Type κ} → (W → Type 0) → App W T → (T → W → Type 0) → Type ℓ
Sure P m Q = Triple P m Q (λ _. ⊥)

pub call_sure {ℓ κ μ} :
    {W : Type ℓ} {T : Type κ} {F : Type μ} {P : W → Type 0} (convert : F → ApplicationError)
    (call : Port W T F) (Q : T → W → Type 0)
    → ((w : W) → P w → (value : T) × ((call w).0 ≡ ok value) × Q value (call w).1)
    → Sure P (lift convert call) Q
call_sure convert call Q answers =
    lift_triple convert call
      (λ w p value same.
        let (given, e, q) = answers w p in
        subst (λ v. Q v (call w).1) (ok-injective (sym e ∙ same)) q)
      (λ w p x same. let (given, e, q) = answers w p in cc)

-- A computation without effect.
pub pure_sure {ℓ κ} :
    {W : Type ℓ} {T : Type κ} {P : W → Type 0} (F : T → Type 0) (r : Result T ApplicationError)
    {given : T}
    → r ≡ ok given
    → F given
    → Sure P (pure_result {W = W} r) (λ value w. P w × F value)
pure_sure F r e f = rw e (record { at = λ w p. (p, f) })

-- A computation without effect and without a value.
pub check_sure {ℓ} :
    {W : Type ℓ} {P : W → Type 0} (r : Result (Unit {0}) ApplicationError)
    → r ≡ ok tt
    → Sure P (pure_result {W = W} r) (λ _. P)
check_sure r e = rw e (record { at = λ w p. p })

module _ {ℓ} {W : Type ℓ} (ports : Ports W) where
  recovered_sure {κ} :
      {T : Type κ} (Q : T → W → Type 0) (r : Result T ApplicationError) (w : W)
      → Holds Q (λ _. ⊥) (r, w)
      → Holds Q (λ _. ⊥) (recovered ports (r, w))
  recovered_sure Q (ok value) w h = h
  recovered_sure Q (err e) w h = absurd h

  pub or_rollback_sure {κ} :
      {T : Type κ} {P : W → Type 0} {Q : T → W → Type 0} {m : App W T}
      → Sure P m Q
      → Sure P (or_rollback ports m) Q
  unfolding or_rollback
  or_rollback_sure {Q = Q} {m = m} h = record {
    at = λ w p. recovered_sure Q (m w).0 (m w).1 (h.at w p);
  }

  pub require_sure :
      {T : Type 0} {P : W → Type 0} (error : ApplicationError) (o : Option T) {given : T}
      → o ≡ some given
      → Sure P (require ports error o) (λ value w. P w × (value ≡ given))
  require_sure error o e = rw e (record { at = λ w p. (p, refl) })

  pub ensure_sure :
      {P : W → Type 0} (error : ApplicationError) (b : Bool)
      → b ≡ true
      → Sure P (ensure ports error b) (λ _. P)
  ensure_sure error b e = rw e (record { at = λ w p. p })

-- The calls of an adapter that conforms.
module _ {ℓ} {W : Type ℓ} {ports : Ports W} (laws : Conforming ports) where
  -- The stores that the world has: the durable one, and the view of the open transaction.
  abbrev pub At : Store → Store → W → Type 0
  At d v w = (laws.durable w ≡ d) × (laws.view w ≡ v)

  pub begin_sure : (d : Store) → Sure (λ w. laws.durable w ≡ d) (query ports.begin) (λ _. At d d)
  begin_sure d =
      call_sure ApplicationError.repository ports.begin (λ _. At d d)
        (λ w p. let (e, kept, seen) = laws.begins w in (tt, e, (kept ∙ p, seen ∙ p)))

  pub commit_sure : {d v : Store} → Sure (At d v) (query ports.commit) (λ _ w. laws.durable w ≡ v)
  commit_sure {v = v} =
      call_sure ApplicationError.repository ports.commit (λ _ w. laws.durable w ≡ v)
        (λ w p. let (e, made) = laws.commits w in (tt, e, made ∙ p.1))

  pub now_sure : {d v : Store} → Sure (At d v) (lift ApplicationError.clock ports.now) (λ _. At d v)
  now_sure {d} {v} =
      call_sure ApplicationError.clock ports.now (λ _. At d v)
        (λ w p.
          let (time, e, kept, seen) = laws.tells_time w in (time, e, (kept ∙ p.0, seen ∙ p.1)))

  -- The time, before a transaction is open.
  pub early_now_sure :
      {d : Store}
      → Sure
          (λ w. laws.durable w ≡ d)
          (lift ApplicationError.clock ports.now)
          (λ _ w. laws.durable w ≡ d)
  early_now_sure {d} =
      call_sure ApplicationError.clock ports.now (λ _ w. laws.durable w ≡ d)
        (λ w p. let (time, e, kept, seen) = laws.tells_time w in (time, e, kept ∙ p))

  pub find_account_sure :
      {d v : Store} (id : TransitAccountId) {account : VersionedAggregate TransitAccount}
      → v.accounts id ≡ some account
      → Sure
          (At d v)
          (or_rollback ports (query (ports.find_transit_account id)))
          (λ o w. At d v w × (o ≡ some account))
  find_account_sure {d} {v} id {account} stored = or_rollback_sure ports (
      call_sure ApplicationError.repository (ports.find_transit_account id)
        (λ o w. At d v w × (o ≡ some account))
        (λ w p.
          let (e, kept, seen) = laws.finds_account id w in
          (_, e, ((kept ∙ p.0, seen ∙ p.1), ap (λ s. s.accounts id) p.1 ∙ stored))))

  pub find_credential_sure :
      {d v : Store} (id : FareCredentialId) {loaded : VersionedAggregate FareCredential}
      → v.credentials id ≡ some loaded
      → Sure
          (At d v)
          (or_rollback ports (query (ports.find_fare_credential id)))
          (λ o w. At d v w × (o ≡ some loaded))
  find_credential_sure {d} {v} id {loaded} stored = or_rollback_sure ports (
      call_sure ApplicationError.repository (ports.find_fare_credential id)
        (λ o w. At d v w × (o ≡ some loaded))
        (λ w p.
          let (e, kept, seen) = laws.finds_credential id w in
          (_, e, ((kept ∙ p.0, seen ∙ p.1), ap (λ s. s.credentials id) p.1 ∙ stored))))

  -- A save that the condition admits on the view.
  pub save_sure :
      {d v : Store} (c : FareCredential) (condition : SaveCondition) (version : AggregateVersion)
      → saved_version condition (v.credentials c.id) ≡ some version
      → Sure
          (At d v)
          (or_rollback ports (query (ports.save_fare_credential c condition)))
          (λ _. At d (put c version v))
  save_sure {d} {v} c condition version admitted = or_rollback_sure ports (
      call_sure ApplicationError.repository (ports.save_fare_credential c condition)
        (λ _. At d (put c version v))
        (λ w p.
          let admits = ap (λ s. saved_version condition (s.credentials c.id)) p.1 ∙ admitted in
          let (e, kept, seen) = laws.saves c condition version w admits in
          (tt, e, (kept ∙ p.0, seen ∙ ap (put c version) p.1))))

  pub append_sure :
      {d v : Store} (event : DomainEvent)
      → Sure
          (At d v)
          (or_rollback ports (query (ports.append_domain_event event)))
          (λ _. At d (log event v))
  append_sure {d} {v} event = or_rollback_sure ports (
      call_sure ApplicationError.repository (ports.append_domain_event event)
        (λ _. At d (log event v))
        (λ w p.
          let (e, kept, seen) = laws.appends event w in
          (tt, e, (kept ∙ p.0, seen ∙ ap (log event) p.1))))

  abbrev pub Unused : Store → Store → FareCredentialId → Type 0
  Unused d v id = (d.credentials id ≡ none) × (v.credentials id ≡ none)

  -- The new identifier is in use neither durably nor in the transaction.
  pub generate_sure :
      {d v : Store}
      → Sure (At d v) (draw ports.generate_credential_id) (λ id w. At d v w × Unused d v id)
  generate_sure = draw_triple ports.generate_credential_id (λ w p.
      let (unused, unseen, kept, seen) = laws.generates w in
      let id = (ports.generate_credential_id w).0 in
      (
        (kept ∙ p.0, seen ∙ p.1),
        (
          ap (λ s. s.credentials id) (sym p.0) ∙ unused,
          ap (λ s. s.credentials id) (sym p.1) ∙ unseen,
        ),
      ))

  -- An event that records a change is made, and carries what it was made from.
  pub record_event_sure :
      {d v : Store} (operation reason : String) (version : AggregateVersion)
      (time : DomainEventTime) (payload : DomainEventPayload)
      → IsChange payload
      → Sure
          (At d v)
          (record_event ports operation reason version time payload)
          (λ event w. At d v w × Records version time payload event)
  unfolding record_event
  record_event_sure {d} {v} operation reason version time payload change =
      bind_triple
        (draw_triple {Q = λ _. At d v} ports.generate_event_id
          (λ w p. let (kept, seen) = laws.generates_event w in (kept ∙ p.0, seen ∙ p.1)))
        (λ event_id. or_rollback_sure ports (
          pure_sure (Records version time payload) _
            (ap (map_err (λ _. ApplicationError.conflict operation reason))
              ((new_event_iff event_id version time payload _).1 (change, refl)))
            (record {
              aggregate = refl;
              version_given = refl;
              time_given = refl;
              payload_given = refl;
            })))

-- The result of a computation that succeeds.
holds_ok {ℓ κ} :
    {W : Type ℓ} {T : Type κ} (Q : T → W → Type 0) (r : Result T ApplicationError) (w : W)
    → Holds Q (λ _. ⊥) (r, w)
    → (value : T) × (r ≡ ok value) × Q value w
holds_ok Q (ok value) w h = (value, refl, h)
holds_ok Q (err e) w h = absurd h

pub sure-ok {ℓ κ} :
    {W : Type ℓ} {T : Type κ} {P : W → Type 0} (Q : T → W → Type 0) (m : App W T)
    → Sure P m Q
    → (w : W) → P w
    → (value : T) × ((m w).0 ≡ ok value) × Q value (m w).1
sure-ok Q m h w p = holds_ok Q (m w).0 (m w).1 (h.at w p)

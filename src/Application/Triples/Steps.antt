-- ===== src/Application/Triples/Steps.antt =====
-- The steps of a use case, from the promises of the ports.
use transit_guard.Base.{Bool, true, false, ◌≡◌, refl, ap, ◌∙◌, List, [], ◌∷◌, Option, some, none}
use transit_guard.Base.Result.{Result, ok, err}
use transit_guard.Application.Ports.{Ports, ApplicationError, RepositoryError, SaveCondition}
use transit_guard.Domain.Identifier.{TransitAccountId, FareCredentialId}
use transit_guard.Domain.Credential.{FareCredential}
use transit_guard.Domain.Event.{DomainEvent}
use transit_guard.Application.Effect.{
  App, lift, draw, query, rollback_with, or_rollback, require, ensure, pure_result, rolled_back,
  recovered,
}
use transit_guard.Application.Triples.{
  Operation, Holds, Triple, Transactional, lift_triple, return_triple, result_triple, draw_triple,
}

module _ {ℓ} {W : Type ℓ} {ports : Ports W} (laws : Transactional ports)
    (log : List (List Operation)) where
  -- No transaction but those of `log` took effect.
  abbrev pub Durable : W → Type 0
  Durable w = laws.committed w ≡ log

  -- A transaction is open, and did `ops`.
  abbrev pub Open : List Operation → W → Type 0
  Open ops w = (laws.committed w ≡ log) × (laws.pending w ≡ ops)

  rolled_back_lem {κ} :
      {T : Type κ} (Q : T → W → Type 0) (error : ApplicationError)
      (r : Result (Unit {0}) RepositoryError) (w : W)
      → Durable w
      → Holds Q Durable (rolled_back error (r, w))
  rolled_back_lem Q error (ok v) w d = d
  rolled_back_lem Q error (err e) w d = d

  rollback_lem {κ} :
      {T : Type κ} (Q : T → W → Type 0) (error : ApplicationError) (w : W)
      → Durable w
      → Holds Q Durable (rollback_with ports error w)
  unfolding rollback_with
  rollback_lem Q error w d =
      rolled_back_lem Q error (ports.rollback w).0 (ports.rollback w).1
        (laws.rollback_durable w ∙ d)

  recovered_lem {κ} :
      {T : Type κ} (Q : T → W → Type 0) (r : Result T ApplicationError) (w : W)
      → Holds Q Durable (r, w)
      → Holds Q Durable (recovered ports (r, w))
  recovered_lem Q (ok value) w h = h
  recovered_lem Q (err e) w h = rollback_lem Q e w h

  -- A failing step is rolled back.
  pub or_rollback_triple {κ} :
      {T : Type κ} {P : W → Type 0} {Q : T → W → Type 0} {m : App W T}
      → Triple P m Q Durable
      → Triple P (or_rollback ports m) Q Durable
  unfolding or_rollback
  or_rollback_triple {Q = Q} {m = m} h = record {
    at = λ w p. recovered_lem Q (m w).0 (m w).1 (h.at w p);
  }

  require_lem {κ} :
      {T : Type κ} (Q : T → W → Type 0) (error : ApplicationError) (o : Option T) (w : W)
      → Durable w
      → ((value : T) → o ≡ some value → Q value w)
      → Holds Q Durable (require ports error o w)
  require_lem Q error (some value) w d h = h value refl
  require_lem Q error none w d h = rollback_lem Q error w d

  pub require_triple :
      {T : Type 0} {ops : List Operation} (error : ApplicationError) (o : Option T)
      → Triple (Open ops) (require ports error o) (λ value w. Open ops w × (o ≡ some value)) Durable
  require_triple {ops = ops} error o = record {
    at = λ w p.
        require_lem (λ value w. Open ops w × (o ≡ some value)) error o w p.0
          (λ value same. (p, same));
  }

  pub begin_triple : Triple Durable (query ports.begin) (λ _. Open []) Durable
  begin_triple =
      lift_triple ApplicationError.repository ports.begin
        (λ w d v same. (laws.begin_durable w ∙ d, laws.begin_ok w same))
        (λ w d e same. laws.begin_durable w ∙ d)

  pub commit_triple :
      {ops : List Operation}
      → Triple (Open ops) (query ports.commit) (λ _ w. laws.committed w ≡ ops ∷ log) Durable
  commit_triple =
      lift_triple ApplicationError.repository ports.commit
        (λ w p v same. laws.commit_ok w same ∙ rw (p.0, p.1) refl)
        (λ w p e same. laws.commit_err w same ∙ p.0)

  -- A call that adds an operation to the open transaction.
  module _ {ops : List Operation} where
    pub find_credential_triple :
        (id : FareCredentialId)
        → Triple
            (Open ops)
            (query (ports.find_fare_credential id))
            (λ o. Open (Operation.found_credential id o ∷ ops))
            Durable
    find_credential_triple id =
        lift_triple ApplicationError.repository (ports.find_fare_credential id)
          (λ w p o same. (
            laws.find_credential_durable id w ∙ p.0,
            laws.find_credential_ok id w same ∙ ap (λ l. Operation.found_credential id o ∷ l) p.1,
          ))
          (λ w p e same. laws.find_credential_durable id w ∙ p.0)

    pub find_account_triple :
        (id : TransitAccountId)
        → Triple
            (Open ops)
            (query (ports.find_transit_account id))
            (λ o. Open (Operation.found_account id o ∷ ops))
            Durable
    find_account_triple id =
        lift_triple ApplicationError.repository (ports.find_transit_account id)
          (λ w p o same. (
            laws.find_account_durable id w ∙ p.0,
            laws.find_account_ok id w same ∙ ap (λ l. Operation.found_account id o ∷ l) p.1,
          ))
          (λ w p e same. laws.find_account_durable id w ∙ p.0)

    pub save_credential_triple :
        (c : FareCredential) (condition : SaveCondition)
        → Triple
            (Open ops)
            (query (ports.save_fare_credential c condition))
            (λ _. Open (Operation.saved_credential c condition ∷ ops))
            Durable
    save_credential_triple c condition =
        lift_triple ApplicationError.repository (ports.save_fare_credential c condition)
          (λ w p v same. (
            laws.save_credential_durable c condition w ∙ p.0,
            laws.save_credential_ok c condition w same
                ∙ ap (λ l. Operation.saved_credential c condition ∷ l) p.1,
          ))
          (λ w p e same. laws.save_credential_durable c condition w ∙ p.0)

    pub append_triple :
        (event : DomainEvent)
        → Triple
            (Open ops)
            (query (ports.append_domain_event event))
            (λ _. Open (Operation.appended_event event ∷ ops))
            Durable
    append_triple event =
        lift_triple ApplicationError.repository (ports.append_domain_event event)
          (λ w p v same. (
            laws.append_durable event w ∙ p.0,
            laws.append_ok event w same ∙ ap (λ l. Operation.appended_event event ∷ l) p.1,
          ))
          (λ w p e same. laws.append_durable event w ∙ p.0)

    pub now_triple :
        Triple (Open ops) (lift ApplicationError.clock ports.now) (λ _. Open ops) Durable
    now_triple =
        lift_triple ApplicationError.clock ports.now
          (λ w p t same. ((laws.now_keeps w).0 ∙ p.0, (laws.now_keeps w).1 ∙ p.1))
          (λ w p e same. (laws.now_keeps w).0 ∙ p.0)

    pub event_id_triple : Triple (Open ops) (draw ports.generate_event_id) (λ _. Open ops) Durable
    event_id_triple =
        draw_triple ports.generate_event_id
          (λ w p. ((laws.event_id_keeps w).0 ∙ p.0, (laws.event_id_keeps w).1 ∙ p.1))

    pub credential_id_triple :
        Triple (Open ops) (draw ports.generate_credential_id) (λ _. Open ops) Durable
    credential_id_triple =
        draw_triple ports.generate_credential_id
          (λ w p. ((laws.credential_id_keeps w).0 ∙ p.0, (laws.credential_id_keeps w).1 ∙ p.1))

    -- A check whose failure is rolled back.
    pub check_triple :
        {T : Type 0} (r : Result T ApplicationError)
        → Triple
            (Open ops)
            (or_rollback ports (pure_result r))
            (λ value w. Open ops w × (r ≡ ok value))
            Durable
    check_triple r = or_rollback_triple (result_triple r (λ w p value same. (p, same)) (λ w p. p.0))

  -- The clock before a transaction is open.
  pub early_now_triple :
      Triple Durable (lift ApplicationError.clock ports.now) (λ _. Durable) Durable
  early_now_triple =
      lift_triple ApplicationError.clock ports.now (λ w d t same. (laws.now_keeps w).0 ∙ d)
        (λ w d e same. (laws.now_keeps w).0 ∙ d)

  -- A guard whose failure is rolled back.
  pub guard_triple :
      {ops : List Operation} (error : ApplicationError) (b : Bool)
      → Triple (Open ops) (ensure ports error b) (λ _ w. Open ops w × (b ≡ true)) Durable
  guard_triple {ops = ops} error true = return_triple tt (λ w p. (p, refl))
  guard_triple {ops = ops} error false = record {
    at = λ w p. rollback_lem (λ _ w. Open ops w × (false ≡ true)) error w p.0;
  }

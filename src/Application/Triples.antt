-- ===== src/Application/Triples.antt =====
-- What the ports promise (crates/application/src/unit_of_work.rs: changes stay provisional until a
-- commit succeeds, and are then durable together), and how the promises compose.
pub mod Steps
pub mod Store
pub mod Sure
use transit_guard.Base.{ite, subst, ◌≡◌, refl, List, [], ◌∷◌, Option, some, none, Bool}
use transit_guard.Base.Result.{Result, ok, err, map_err, ok-injective}
use transit_guard.Domain.Identifier.{TransitAccountId, FareCredentialId}
use transit_guard.Domain.Account.{TransitAccount}
use transit_guard.Domain.Credential.{FareCredential}
use transit_guard.Domain.Event.{DomainEvent}
use transit_guard.Application.Ports.{
  Ports, Port, VersionedAggregate, SaveCondition, ApplicationError, RepositoryError,
}
use transit_guard.Application.Effect.{
  App, proceed, ◌>>=◌, return, query, lift, rollback_with, or_rollback, require, pure_result, draw,
}

-- What a transaction did.
pub data Operation : Type 0 where
  found_account : TransitAccountId → Option (VersionedAggregate TransitAccount) → Operation
  found_credential : FareCredentialId → Option (VersionedAggregate FareCredential) → Operation
  saved_credential : FareCredential → SaveCondition → Operation
  appended_event : DomainEvent → Operation

-- A result `ok value` satisfies `Q value`, an error satisfies `E`.
abbrev pub Holds {ℓ κ} :
    {W : Type ℓ} {T : Type κ}
    → (T → W → Type 0)
    → (W → Type 0)
    → Result T ApplicationError × W
    → Type 0
Holds Q E (ok value, w) = Q value w
Holds Q E (err _, w) = E w

pub record Triple {ℓ κ} {W : Type ℓ} {T : Type κ} (P : W → Type 0) (m : App W T)
    (Q : T → W → Type 0) (E : W → Type 0) : Type ℓ where
  pub at : (w : W) → P w → Holds Q E (m w)

proceed_lem {ℓ κ μ} :
    {W : Type ℓ} {T : Type κ} {U : Type μ} (Q : T → W → Type 0) (R : U → W → Type 0)
    (E : W → Type 0) (r : Result T ApplicationError × W) (rest : T → App W U)
    → Holds Q E r
    → ((value : T) → Triple (Q value) (rest value) R E)
    → Holds R E (proceed r rest)
proceed_lem Q R E (ok value, w) rest h k = (k value).at w h
proceed_lem Q R E (err e, w) rest h k = h

-- Two steps in a row.
pub bind_triple {ℓ κ μ} :
    {W : Type ℓ} {T : Type κ} {U : Type μ} {P : W → Type 0} {Q : T → W → Type 0}
    {R : U → W → Type 0} {E : W → Type 0} {first : App W T} {rest : T → App W U}
    → Triple P first Q E
    → ((value : T) → Triple (Q value) (rest value) R E)
    → Triple P (first >>= rest) R E
unfolding ◌>>=◌
bind_triple {Q = Q} {R = R} {E = E} {first = first} {rest = rest} h k = record {
  at = λ w p. proceed_lem Q R E (first w) rest (h.at w p) k;
}

-- The last step.
pub return_triple {ℓ κ} :
    {W : Type ℓ} {T : Type κ} {P : W → Type 0} {Q : T → W → Type 0} {E : W → Type 0} (value : T)
    → ((w : W) → P w → Q value w)
    → Triple P (return {W = W} value) Q E
return_triple value h = record { at = h }

-- A fact that holds before a step can be assumed for it.
pub fact_triple {ℓ κ} :
    {W : Type ℓ} {T : Type κ} {P : W → Type 0} {F : Type 0} {m : App W T} {Q : T → W → Type 0}
    {E : W → Type 0}
    → (F → Triple P m Q E)
    → Triple (λ w. P w × F) m Q E
fact_triple h = record { at = λ w p. (h p.1).at w p.0 }

-- A step may promise less.
holds_weaken {ℓ κ} :
    {W : Type ℓ} {T : Type κ} (Q R : T → W → Type 0) (E : W → Type 0)
    (r : Result T ApplicationError) (w : W)
    → ((value : T) (w : W) → Q value w → R value w)
    → Holds Q E (r, w)
    → Holds R E (r, w)
holds_weaken Q R E (ok value) w weaken h = weaken value w h
holds_weaken Q R E (err e) w weaken h = h

pub weaken_triple {ℓ κ} :
    {W : Type ℓ} {T : Type κ} {P : W → Type 0} {m : App W T} (Q R : T → W → Type 0) {E : W → Type 0}
    → ((value : T) (w : W) → Q value w → R value w)
    → Triple P m Q E
    → Triple P m R E
weaken_triple {m = m} Q R {E = E} weaken h = record {
  at = λ w p. holds_weaken Q R E (m w).0 (m w).1 weaken (h.at w p);
}

-- A branch on a decision.
pub ite_triple {ℓ κ} :
    {W : Type ℓ} {T : Type κ} {D : Type 0} (d : Dec D) {m n : App W T} {P : W → Type 0}
    {Q : T → W → Type 0} {E : W → Type 0}
    → (D → Triple P m Q E)
    → ((¬ D) → Triple P n Q E)
    → Triple P (ite d m n) Q E
ite_triple (yes h) yes_case no_case = yes_case h
ite_triple (no h) yes_case no_case = no_case h

-- A call of a port.
lift_lem {ℓ κ μ} :
    {W : Type ℓ} {T : Type κ} {F : Type μ} (Q : T → W → Type 0) (E : W → Type 0)
    (convert : F → ApplicationError) (r : Result T F) (w : W)
    → ((value : T) → r ≡ ok value → Q value w)
    → ((e : F) → r ≡ err e → E w)
    → Holds Q E (map_err convert r, w)
lift_lem Q E convert (ok value) w good bad = good value refl
lift_lem Q E convert (err e) w good bad = bad e refl

pub lift_triple {ℓ κ μ} :
    {W : Type ℓ} {T : Type κ} {F : Type μ} {P : W → Type 0} {Q : T → W → Type 0} {E : W → Type 0}
    (convert : F → ApplicationError) (call : Port W T F)
    → ((w : W) → P w → (value : T) → (call w).0 ≡ ok value → Q value (call w).1)
    → ((w : W) → P w → (e : F) → (call w).0 ≡ err e → E (call w).1)
    → Triple P (lift convert call) Q E
unfolding lift
lift_triple {Q = Q} {E = E} convert call good bad = record {
  at = λ w p. lift_lem Q E convert (call w).0 (call w).1 (good w p) (bad w p);
}

-- A computation without effect.
result_lem {ℓ κ} :
    {W : Type ℓ} {T : Type κ} (Q : T → W → Type 0) (E : W → Type 0) (r : Result T ApplicationError)
    (w : W)
    → ((value : T) → r ≡ ok value → Q value w)
    → E w
    → Holds Q E (r, w)
result_lem Q E (ok value) w good bad = good value refl
result_lem Q E (err e) w good bad = bad

pub result_triple {ℓ κ} :
    {W : Type ℓ} {T : Type κ} {P : W → Type 0} {Q : T → W → Type 0} {E : W → Type 0}
    (r : Result T ApplicationError)
    → ((w : W) → P w → (value : T) → r ≡ ok value → Q value w)
    → ((w : W) → P w → E w)
    → Triple P (pure_result {W = W} r) Q E
result_triple {Q = Q} {E = E} r good bad = record {
  at = λ w p. result_lem Q E r w (good w p) (bad w p);
}

-- A generator.
pub draw_triple {ℓ κ} :
    {W : Type ℓ} {T : Type κ} {P : W → Type 0} {Q : T → W → Type 0} {E : W → Type 0}
    (generate : W → T × W)
    → ((w : W) → P w → Q (generate w).0 (generate w).1)
    → Triple P (draw generate) Q E
unfolding draw
draw_triple generate h = record { at = h }

-- Both outcomes of a run.
holds_cases {ℓ κ} :
    {W : Type ℓ} {T : Type κ} (Q : T → W → Type 0) (E : W → Type 0) (r : Result T ApplicationError)
    (w : W)
    → Holds Q E (r, w)
    → ((x : ApplicationError) → r ≡ err x → E w) × ((value : T) → r ≡ ok value → Q value w)
holds_cases Q E (ok value) w h = (λ x same. cc, λ v same. subst (λ v. Q v w) (ok-injective same) h)
holds_cases Q E (err e) w h = (λ x same. h, λ v same. cc)

pub triple_cases {ℓ κ} :
    {W : Type ℓ} {T : Type κ} {P : W → Type 0} {m : App W T} {Q : T → W → Type 0} {E : W → Type 0}
    → Triple P m Q E
    → (w : W) → P w
    → ((x : ApplicationError) → (m w).0 ≡ err x → E (m w).1)
      × ((value : T) → (m w).0 ≡ ok value → Q value (m w).1)
triple_cases {m = m} {Q = Q} {E = E} h w p = holds_cases Q E (m w).0 (m w).1 (h.at w p)

-- The promises. `committed` is the history of the transactions that took effect, the last one
-- first; `pending` is what the open one did so far, the last operation first.
pub record Transactional {ℓ} {W : Type ℓ} (ports : Ports W) : Type ℓ where
  pub committed : W → List (List Operation)
  pub pending : W → List Operation
  pub begin_ok : (w : W) {v : Unit {0}} → (ports.begin w).0 ≡ ok v → pending (ports.begin w).1 ≡ []
  pub begin_durable : (w : W) → committed (ports.begin w).1 ≡ committed w
  pub find_account_ok :
      (id : TransitAccountId) (w : W) {o : Option (VersionedAggregate TransitAccount)}
      → (ports.find_transit_account id w).0 ≡ ok o
      → pending (ports.find_transit_account id w).1 ≡ Operation.found_account id o ∷ pending w
  pub find_account_durable :
      (id : TransitAccountId) (w : W) → committed (ports.find_transit_account id w).1 ≡ committed w
  pub find_credential_ok :
      (id : FareCredentialId) (w : W) {o : Option (VersionedAggregate FareCredential)}
      → (ports.find_fare_credential id w).0 ≡ ok o
      → pending (ports.find_fare_credential id w).1 ≡ Operation.found_credential id o ∷ pending w
  pub find_credential_durable :
      (id : FareCredentialId) (w : W) → committed (ports.find_fare_credential id w).1 ≡ committed w
  pub save_credential_ok :
      (c : FareCredential) (condition : SaveCondition) (w : W) {v : Unit {0}}
      → (ports.save_fare_credential c condition w).0 ≡ ok v
      → pending (ports.save_fare_credential c condition w).1
        ≡ Operation.saved_credential c condition ∷ pending w
  pub save_credential_durable :
      (c : FareCredential) (condition : SaveCondition) (w : W)
      → committed (ports.save_fare_credential c condition w).1 ≡ committed w
  pub append_ok :
      (e : DomainEvent) (w : W) {v : Unit {0}}
      → (ports.append_domain_event e w).0 ≡ ok v
      → pending (ports.append_domain_event e w).1 ≡ Operation.appended_event e ∷ pending w
  pub append_durable :
      (e : DomainEvent) (w : W) → committed (ports.append_domain_event e w).1 ≡ committed w
  pub commit_ok :
      (w : W) {v : Unit {0}}
      → (ports.commit w).0 ≡ ok v
      → committed (ports.commit w).1 ≡ pending w ∷ committed w
  pub commit_err :
      (w : W) {e : RepositoryError}
      → (ports.commit w).0 ≡ err e
      → committed (ports.commit w).1 ≡ committed w
  pub rollback_durable : (w : W) → committed (ports.rollback w).1 ≡ committed w
  pub now_keeps :
      (w : W) → (committed (ports.now w).1 ≡ committed w) × (pending (ports.now w).1 ≡ pending w)
  pub credential_id_keeps :
      (w : W)
      → (committed (ports.generate_credential_id w).1 ≡ committed w)
        × (pending (ports.generate_credential_id w).1 ≡ pending w)
  pub event_id_keeps :
      (w : W)
      → (committed (ports.generate_event_id w).1 ≡ committed w)
        × (pending (ports.generate_event_id w).1 ≡ pending w)

-- ===== src/Persistence/ReaderQueueState/Lifecycle.antt =====
-- What the transitions do to the queue: no transaction is lost, reordered or given another identity, and
-- one that is finished stays as it is.
use transit_guard.Base.{
  ℕ, ◌≡◌, refl, sym, subst, ◌∙◌, ◌⊎◌, inl, inr, some, none, String, List, [], ◌∷◌, ◌&&◌, true,
  arith,
}
use transit_guard.Base.Tests.{Bool-cases}
use transit_guard.Base.Result.{Result, ok, err, Result-cases}
use transit_guard.Base.Int.{ℤ, pos, ◌≤ℤ◌, ltb_ℤ, leb_ℤ, int_laws}
use transit_guard.Base.Text.{trim, is_empty}
use text.Mathlib.Text.{◌==◌}
use text.Mathlib.TextEquality.{eq_iff}
use transit_guard.Domain.Identifier.{UuidCrate, FareTransactionId, ReaderId}
use transit_guard.Persistence.ReaderStore.{Engine, ReaderStore, StoredOfflineTransaction}
use transit_guard.Persistence.ReaderStore.Pointwise.{
  Pointwise, Pointwise-refl, Pointwise-trans, update_where-Pointwise,
}
use transit_guard.Persistence.ReaderQueue.{OfflineQueueState}
use transit_guard.Persistence.ReaderQueueState.{
  Update, restart_failure_category, require_changed_row, validate_operation_time,
  validate_failure_category, ReaderQueueStateError, execute, in_flight_update, retryable_update,
  final_update, finish_final, final_state_text, recovery_update, mark_offline_transaction_in_flight,
  record_retryable_queue_failure, record_permanent_queue_failure, record_manual_review_required,
  recover_interrupted_offline_queue,
}

-- The states that the queue never leaves.
abbrev pub IsFinal : String → Type 0
IsFinal state = (state ≡ "acknowledged") ⊎ (state ≡ "permanent_failure") ⊎ (state ≡ "manual_review")

-- How a row of the queue may change.
pub record Evolves (old new : StoredOfflineTransaction) : Type 0 where
  pub identity :
      record old {
        queue_state = new.queue_state;
        attempt_count = new.attempt_count;
        next_retry_at_unix_milliseconds = new.next_retry_at_unix_milliseconds;
        last_failure_category = new.last_failure_category;
        updated_at_unix_milliseconds = new.updated_at_unix_milliseconds;
      }
      ≡ new
  pub attempts : old.attempt_count ≤ℤ new.attempt_count
  pub later : old.updated_at_unix_milliseconds ≤ℤ new.updated_at_unix_milliseconds
  pub final : IsFinal old.queue_state → new ≡ old

pub Evolves-refl : (row : StoredOfflineTransaction) → Evolves row row
Evolves-refl row = record {
  identity = refl;
  attempts = omega arith;
  later = omega arith;
  final = λ _. refl;
}

pub Evolves-trans : (a b c : StoredOfflineTransaction) → Evolves a b → Evolves b c → Evolves a c
Evolves-trans a b c h k = record {
  identity = ground arith;
  attempts = omega arith;
  later = omega arith;
  final = λ finished.
      let same = h.final finished in
      k.final
        (subst (λ (row : StoredOfflineTransaction). IsFinal row.queue_state) (sym same) finished)
      ∙ same;
}

-- An update that the checks let through moves the rows that it selects along the life of a transaction.
abbrev IsSound : Result Update ReaderQueueStateError → Type 0
IsSound (err failure) = Unit
IsSound (ok update) =
    (row : StoredOfflineTransaction)
    → update.where_clause row ≡ true
    → Evolves row (update.assign row)

execute-Evolves :
    {A : Type 0} (engine : Engine) (store : ReaderStore)
    (checked : Result Update ReaderQueueStateError) (answer : ℕ → Result A ReaderQueueStateError)
    → IsSound checked
    → Pointwise Evolves store.offline_transactions
        (execute engine store checked answer).1.offline_transactions
unfolding execute
execute-Evolves engine store (err failure) answer sound =
    Pointwise-refl Evolves Evolves-refl store.offline_transactions
execute-Evolves engine store (ok update) answer sound =
    elim (Bool-cases (engine update.operation)) [
      | inl up ↦ rw up (
          update_where-Pointwise Evolves Evolves-refl update.where_clause update.assign sound
            store.offline_transactions)
      | inr down ↦ rw down (Pointwise-refl Evolves Evolves-refl store.offline_transactions)
    ]

-- The states from which a statement moves a row.
abbrev pub IsOpen : String → Type 0
IsOpen state =
    (state == "pending" ≡ true)
    ⊎ (state == "in_flight" ≡ true)
    ⊎ (state == "retryable_failure" ≡ true)
    ⊎ (state == "prepared" ≡ true)

pub not-IsFinal : (state : String) → IsOpen state → ¬ IsFinal state
not-IsFinal state open_state (inl q) =
    ground (arith, eq_iff "acknowledged" "pending", rw q at open_state)
not-IsFinal state open_state (inr (inl q)) = ground (arith, rw q at open_state)
not-IsFinal state open_state (inr (inr q)) = ground (arith, rw q at open_state)

module _ (crate : UuidCrate) where
  in_flight_update-IsSound :
      (reader_id : ReaderId) (id : FareTransactionId) (at : ℤ)
      → IsSound (in_flight_update crate reader_id id at)
  unfolding in_flight_update validate_operation_time
  in_flight_update-IsSound reader_id id at = elim (Bool-cases (ltb_ℤ at (pos 0))) [
    | inl early ↦ rw early tt
    | inr fine ↦ rw fine λ row selected. record {
      identity = refl;
      attempts = omega int_laws;
      later = ground arith;
      final = λ finished. absurd (not-IsFinal row.queue_state (ground arith) finished);
    }
  ]

  -- A row in flight that a statement moves, keeping its identity and its attempts.
  moved_in_flight :
      (at : ℤ) (row new : StoredOfflineTransaction)
      → row.queue_state == "in_flight" && leb_ℤ row.updated_at_unix_milliseconds at ≡ true
      → record row {
        queue_state = new.queue_state;
        next_retry_at_unix_milliseconds = new.next_retry_at_unix_milliseconds;
        last_failure_category = new.last_failure_category;
        updated_at_unix_milliseconds = at;
      }
        ≡ new
      → Evolves row new
  moved_in_flight at row new selected same = record {
    identity = ground arith;
    attempts = ground arith;
    later = ground arith;
    final = λ finished. absurd (not-IsFinal row.queue_state (ground arith) finished);
  }

  retryable_update-IsSound :
      (reader_id : ReaderId) (id : FareTransactionId) (category : String) (at retry_at : ℤ)
      → IsSound (retryable_update crate reader_id id category at retry_at)
  unfolding retryable_update validate_operation_time validate_failure_category
  retryable_update-IsSound reader_id id category at retry_at =
      elim (Bool-cases (ltb_ℤ at (pos 0))) [
        | inl early ↦ rw early tt
        | inr fine ↦ rw fine (elim (Bool-cases (ltb_ℤ retry_at (pos 0))) [
          | inl early ↦ rw early tt
          | inr fine' ↦ rw fine' (elim (Bool-cases (ltb_ℤ retry_at at)) [
            | inl backwards ↦ rw backwards tt
            | inr forwards ↦ rw forwards (elim (Bool-cases (is_empty (trim category))) [
              | inl blank ↦ rw blank tt
              | inr named ↦ rw named λ row selected.
                  moved_in_flight at row
                    (record row {
                      queue_state = "retryable_failure";
                      next_retry_at_unix_milliseconds = some retry_at;
                      last_failure_category = some (trim category);
                      updated_at_unix_milliseconds = at;
                    })
                    (ground arith) refl
            ])
          ])
        ])
      ]

  recovery_update-IsSound :
      (store : ReaderStore) (reader_id : ReaderId) (at : ℤ)
      → IsSound (recovery_update crate store reader_id at)
  unfolding recovery_update validate_operation_time
  recovery_update-IsSound store reader_id at = elim (Bool-cases (ltb_ℤ at (pos 0))) [
    | inl early ↦ rw early tt
    | inr fine ↦ rw fine λ row selected.
        moved_in_flight at row
          (record row {
            queue_state = "retryable_failure";
            next_retry_at_unix_milliseconds = some at;
            last_failure_category = some restart_failure_category;
            updated_at_unix_milliseconds = at;
          })
          (ground arith) refl
  ]

  abbrev IsSoundFinal : Result (String × Update) ReaderQueueStateError → Type 0
  IsSoundFinal (err failure) = Unit
  IsSoundFinal (ok (text, update)) = IsSound (ok update)

  final_update-IsSoundFinal :
      (reader_id : ReaderId) (id : FareTransactionId) (category : String) (at : ℤ)
      (target : OfflineQueueState)
      → IsSoundFinal (final_update crate reader_id id category at target)
  unfolding final_update validate_operation_time validate_failure_category
  final_update-IsSoundFinal reader_id id category at target = elim (Bool-cases (ltb_ℤ at (pos 0))) [
    | inl early ↦ rw early tt
    | inr fine ↦ rw fine (elim (Bool-cases (is_empty (trim category))) [
      | inl blank ↦ rw blank tt
      | inr named ↦ rw named (elim (Result-cases (final_state_text crate target id)) [
        | inr (_, refused) ↦ rw refused tt
        | inl (text, final) ↦ rw final λ row selected.
            moved_in_flight at row
              (record row {
                queue_state = text;
                next_retry_at_unix_milliseconds = none;
                last_failure_category = some (trim category);
                updated_at_unix_milliseconds = at;
              })
              (ground arith) refl
      ])
    ])
  ]

  finish_final-Evolves :
      (engine : Engine) (store : ReaderStore) (id : FareTransactionId)
      (checked : Result (String × Update) ReaderQueueStateError)
      → IsSoundFinal checked
      → Pointwise Evolves store.offline_transactions
          (finish_final crate engine store id checked).1.offline_transactions
  unfolding finish_final
  finish_final-Evolves engine store id (err failure) sound =
      Pointwise-refl Evolves Evolves-refl store.offline_transactions
  finish_final-Evolves engine store id (ok (text, update)) sound =
      execute-Evolves engine store (ok update) (λ n. require_changed_row n id text) sound

  -- The calls that a reader makes on its queue.
  pub data QueueOp : Type 0 where
    attempt : ReaderId → FareTransactionId → ℤ → QueueOp
    retry : ReaderId → FareTransactionId → String → ℤ → ℤ → QueueOp
    reject : ReaderId → FareTransactionId → String → ℤ → QueueOp
    review : ReaderId → FareTransactionId → String → ℤ → QueueOp
    recover : ReaderId → ℤ → QueueOp

  -- The database after a call, whatever its result.
  unfoldable pub queue_step : Engine → QueueOp → ReaderStore → ReaderStore
  queue_step engine (attempt reader id at) store =
      (mark_offline_transaction_in_flight crate engine store reader id at).1
  queue_step engine (retry reader id category at retry_at) store =
      (record_retryable_queue_failure crate engine store reader id category at retry_at).1
  queue_step engine (reject reader id category at) store =
      (record_permanent_queue_failure crate engine store reader id category at).1
  queue_step engine (review reader id category at) store =
      (record_manual_review_required crate engine store reader id category at).1
  queue_step engine (recover reader at) store =
      (recover_interrupted_offline_queue crate engine store reader at).1

  queue_step-Evolves :
      (engine : Engine) (op : QueueOp) (store : ReaderStore)
      → Pointwise Evolves store.offline_transactions
          (queue_step engine op store).offline_transactions
  unfolding queue_step mark_offline_transaction_in_flight record_retryable_queue_failure
      record_permanent_queue_failure record_manual_review_required recover_interrupted_offline_queue
  queue_step-Evolves engine (attempt reader id at) store =
      execute-Evolves engine store (in_flight_update crate reader id at) _
        (in_flight_update-IsSound reader id at)
  queue_step-Evolves engine (retry reader id category at retry_at) store =
      execute-Evolves engine store (retryable_update crate reader id category at retry_at) _
        (retryable_update-IsSound reader id category at retry_at)
  queue_step-Evolves engine (reject reader id category at) store =
      finish_final-Evolves engine store id _
        (final_update-IsSoundFinal reader id category at OfflineQueueState.permanent_failure)
  queue_step-Evolves engine (review reader id category at) store =
      finish_final-Evolves engine store id _
        (final_update-IsSoundFinal reader id category at OfflineQueueState.manual_review)
  queue_step-Evolves engine (recover reader at) store =
      execute-Evolves engine store (recovery_update crate store reader at) _
        (recovery_update-IsSound store reader at)

  -- The database after a sequence of calls. Each may meet another state of the engine.
  unfoldable pub run_queue : List (Engine × QueueOp) → ReaderStore → ReaderStore
  unfolding queue_step
  run_queue [] store = store
  run_queue ((engine, op) ∷ ops) store = run_queue ops (queue_step engine op store)

  -- Under any sequence of calls the queue keeps its rows in their order: each keeps its identity and its
  -- content, its attempts and its update time never go back, and one that is acknowledged, permanently
  -- failed or in manual review stays as it is.
  pub run_queue-Evolves :
      (ops : List (Engine × QueueOp)) (store : ReaderStore)
      → Pointwise Evolves store.offline_transactions (run_queue ops store).offline_transactions
  unfolding run_queue
  run_queue-Evolves [] store = Pointwise-refl Evolves Evolves-refl store.offline_transactions
  run_queue-Evolves ((engine, op) ∷ ops) store =
      Pointwise-trans Evolves Evolves-refl Evolves-trans store.offline_transactions
        (queue_step engine op store).offline_transactions _ (queue_step-Evolves engine op store)
        (run_queue-Evolves ops (queue_step engine op store))

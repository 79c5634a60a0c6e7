-- ===== src/Persistence/ReaderSyncState/Evolution.antt =====
-- How the rows of the two tables may change, and what each statement on a batch does to a row.
use transit_guard.Base.{
  Bool, ◌≡◌, refl, sym, subst, ◌∙◌, Option, none, some, String, ◌&&◌, true, arith,
}
use transit_guard.Base.Int.{ℤ, ◌≤ℤ◌, int_laws}
use transit_guard.Domain.Identifier.{UuidCrate, ReaderId, SynchronizationBatchId}
use transit_guard.Persistence.ReaderStore.{
  ReaderStore, StoredOfflineTransaction, StoredSynchronizationBatch,
}
use transit_guard.Persistence.ReaderQueueState.Lifecycle.{IsFinal, IsOpen, not-IsFinal, Evolves}
use transit_guard.Persistence.ReaderSyncState.{
  coalesce, is_due, starts, started_at, in_batch, attempted_at, failed_at, batch_in_flight_before,
}

-- How the row of a batch may change.
pub record BatchEvolves (old new : StoredSynchronizationBatch) : Type 0 where
  pub identity :
      record old {
        batch_state = new.batch_state;
        attempt_count = new.attempt_count;
        submitted_at_unix_milliseconds = new.submitted_at_unix_milliseconds;
        next_retry_at_unix_milliseconds = new.next_retry_at_unix_milliseconds;
        last_failure_category = new.last_failure_category;
        updated_at_unix_milliseconds = new.updated_at_unix_milliseconds;
      }
      ≡ new
  pub attempts : old.attempt_count ≤ℤ new.attempt_count
  pub later : old.updated_at_unix_milliseconds ≤ℤ new.updated_at_unix_milliseconds
  pub submission :
      (time : ℤ)
      → old.submitted_at_unix_milliseconds ≡ some time
      → new.submitted_at_unix_milliseconds ≡ some time
  pub final : IsFinal old.batch_state → new ≡ old

pub BatchEvolves-refl : (row : StoredSynchronizationBatch) → BatchEvolves row row
BatchEvolves-refl row = record {
  identity = refl;
  attempts = omega arith;
  later = omega arith;
  submission = λ time h. h;
  final = λ _. refl;
}

pub BatchEvolves-trans :
    (a b c : StoredSynchronizationBatch) → BatchEvolves a b → BatchEvolves b c → BatchEvolves a c
BatchEvolves-trans a b c h k = record {
  identity = ground arith;
  attempts = omega arith;
  later = omega arith;
  submission = λ time was. k.submission time (h.submission time was);
  final = λ finished.
      let same = h.final finished in
      k.final
        (subst (λ (row : StoredSynchronizationBatch). IsFinal row.batch_state) (sym same) finished)
      ∙ same;
}

coalesce-some : (o : Option ℤ) (time at : ℤ) → o ≡ some time → coalesce o at ≡ some time
coalesce-some none time at h = absurd (ground arith)
coalesce-some (some old) time at h = h

due-IsOpen :
    (row : StoredSynchronizationBatch) (at : ℤ) → is_due row at ≡ true → IsOpen row.batch_state
due-IsOpen row at due = ground arith

pub last_of_and : (a b : Bool) → a && b ≡ true → b ≡ true
last_of_and a b h = ground arith

module _ (crate : UuidCrate) where
  pub starts-BatchEvolves :
      (reader_id : ReaderId) (batch_id : SynchronizationBatchId) (at : ℤ)
      (row : StoredSynchronizationBatch)
      → starts crate reader_id batch_id at row ≡ true
      → BatchEvolves row (started_at crate at row)
  starts-BatchEvolves reader_id batch_id at row selected = record {
    identity = refl;
    attempts = omega int_laws;
    later = ground arith;
    submission = λ time was. coalesce-some row.submitted_at_unix_milliseconds time at was;
    final = λ finished.
        absurd
          (not-IsFinal row.batch_state (due-IsOpen row at (last_of_and _ _ selected)) finished);
  }

  pub fails-BatchEvolves :
      (at retry_at : ℤ) (category : String) (row : StoredSynchronizationBatch)
      → batch_in_flight_before crate at row ≡ true
      → BatchEvolves row (failed_at crate at retry_at category row)
  fails-BatchEvolves at retry_at category row selected = record {
    identity = refl;
    attempts = omega arith;
    later = ground arith;
    submission = λ time was. was;
    final = λ finished. absurd (not-IsFinal row.batch_state (ground arith) finished);
  }

  pub in_batch-Evolves :
      (store : ReaderStore) (reader_id : ReaderId) (batch_id : SynchronizationBatchId) (at : ℤ)
      (row : StoredOfflineTransaction)
      → in_batch crate store reader_id batch_id at row ≡ true
      → Evolves row (attempted_at crate at row)
  in_batch-Evolves store reader_id batch_id at row selected = record {
    identity = refl;
    attempts = omega int_laws;
    later = ground arith;
    final = λ finished. absurd (not-IsFinal row.queue_state (ground arith) finished);
  }

-- ===== src/Persistence/ReaderQueue/Insertion.antt =====
-- What a committed insertion into the queue did: the row that it appended, the number that it took,
-- and the transaction that the row holds.
use transit_guard.Base.{
  ℕ, ◌<◌, ◌≡◌, refl, subst, true, Option, none, some, String, List, [], ◌∷◌, ◌++◌, arith,
}
use transit_guard.Base.Tests.{if◌then◌else◌}
use transit_guard.Base.Result.{
  ok, err, >>=-eq-ok, map_err, map_err-eq-ok, ok_or, ok_or-eq-ok, ok-injective,
}
use transit_guard.Base.Int.{ℤ, pos, ◌+ℤ◌, ◌-ℤ◌, ◌≤ℤ◌, ◌<ℤ◌, checked_i64, int_laws}
use text.Mathlib.Text.{◌==◌}
use transit_guard.Domain.Identifier.{UuidCrate, ReaderId, from_str}
use transit_guard.Domain.Transaction.{LocalSequenceNumber, new_sequence_number, IsEventTime}
use transit_guard.Persistence.ReaderStore.{
  Engine, ReaderStore, ReaderStateRow, StoredOfflineTransaction,
}
use transit_guard.Persistence.ReaderStore.Select.{AllRows}
use transit_guard.Persistence.ReaderQueue.{
  QueueJson, QueuedOfflineTransaction, OfflineTransactionDraft, ReaderQueueError, stored_value,
  u64_try_from, run_statement, conflicts, assign_sequence, pending_row, pending_transaction,
  queue_state_as_str, enqueued,
}
use transit_guard.Persistence.ReaderQueue.Decoding.{Holds, sequence_inversion}

module _ (json : QueueJson) (crate : UuidCrate) where
  -- What the type of a draft and the checks of its values guarantee.
  pub record IsDraft (draft : OfflineTransactionDraft json) : Type 0 where
    pub event : IsEventTime draft.event_time
    pub policy : 0 < draft.fare_policy_version.value
    pub created : pos 0 ≤ℤ draft.created_at_unix_milliseconds

  -- What is asked of the crates for a draft: what they print they read back.
  pub record ReadsBack (reader_id : ReaderId) (draft : OfflineTransactionDraft json) : Type 0 where
    pub reader : from_str crate "reader identifier" (crate.to_string reader_id) ≡ ok reader_id
    pub transaction :
        from_str crate "fare transaction identifier" (crate.to_string draft.transaction_id)
        ≡ ok draft.transaction_id
    pub credential :
        from_str crate "fare credential identifier" (crate.to_string draft.fare_credential_id)
        ≡ ok draft.fare_credential_id
    pub decision :
        (text : String)
        → json.decision_to_string draft.provisional_decision ≡ ok text
        → json.decision_from_str text ≡ ok draft.provisional_decision
    pub envelope :
        (text : String)
        → json.value_to_string draft.transaction_envelope ≡ ok text
        → json.value_from_str text ≡ ok draft.transaction_envelope

  -- The sequence numbers of a reader's rows are all below the next one, which is positive.
  abbrev pub BelowNext : Option ReaderStateRow → List StoredOfflineTransaction → Type 0
  BelowNext none rows = Unit
  BelowNext (some state) rows =
      (pos 0 <ℤ state.next_local_sequence)
      × AllRows
          (λ (row : StoredOfflineTransaction).
            row.reader_id == state.reader_id ≡ true
            → row.local_sequence_number <ℤ state.next_local_sequence)
          rows

  abbrev pub IsSequenced : ReaderStore → Type 0
  IsSequenced store = BelowNext store.reader_state store.offline_transactions

  -- A committed insertion: the reader's next number, the new row, and the transaction that it holds.
  pub record Inserted (store : ReaderStore) (reader_id : ReaderId)
      (draft : OfflineTransactionDraft json) (queued : QueuedOfflineTransaction json)
      (store' : ReaderStore) : Type 0 where
    pub state : ReaderStateRow
    pub row : StoredOfflineTransaction
    pub before : store.reader_state ≡ some state
    pub bound : state.reader_id == crate.to_string reader_id ≡ true
    pub after :
        store'.reader_state
        ≡ some (record state {
          next_local_sequence = state.next_local_sequence +ℤ pos 1;
          updated_at_unix_milliseconds = draft.created_at_unix_milliseconds;
        })
    pub rows : store'.offline_transactions ≡ store.offline_transactions ++ (row ∷ [])
    pub owner : row.reader_id ≡ crate.to_string reader_id
    pub number : row.local_sequence_number ≡ state.next_local_sequence
    pub holds : Holds json crate row queued

  next_number : (n : ℤ) → (n +ℤ pos 1) -ℤ pos 1 ≡ n
  next_number n = omega int_laws

  assigned_inversion :
      (found : Option ReaderStateRow) (reader : String) (at : ℤ) (store : ReaderStore)
      (assigned : ℤ × ReaderStore)
      → assign_sequence json crate found reader at store ≡ some assigned
      → (state : ReaderStateRow) × (found ≡ some state)
        × (state.reader_id == reader ≡ true)
        × (assigned.0 ≡ state.next_local_sequence)
        × (assigned.1 ≡ record store {
          reader_state = some (record state {
            next_local_sequence = state.next_local_sequence +ℤ pos 1;
            updated_at_unix_milliseconds = at;
          });
        })
  unfolding assign_sequence
  assigned_inversion none reader at store assigned h = absurd (ground arith)
  assigned_inversion (some state) reader at store assigned h =
      let numbers = next_number state.next_local_sequence in
      (state, refl, ground arith, ground arith, ground arith)

  insertion-Inserted :
      (store : ReaderStore) (reader_id : ReaderId) (draft : OfflineTransactionDraft json)
      (assigned : ℤ × ReaderStore) (number : ℕ) (sequence : LocalSequenceNumber) (policy : ℤ)
      (decision_json envelope_json : String)
      → IsDraft draft
      → ReadsBack reader_id draft
      → json.decision_to_string draft.provisional_decision ≡ ok decision_json
      → json.value_to_string draft.transaction_envelope ≡ ok envelope_json
      → assign_sequence json crate store.reader_state
          (crate.to_string reader_id)
          draft.created_at_unix_milliseconds
          store
        ≡ some assigned
      → u64_try_from assigned.0 ≡ ok number
      → new_sequence_number number ≡ ok sequence
      → checked_i64 (pos draft.fare_policy_version.value) ≡ some policy
      → Inserted store reader_id draft
          (pending_transaction json crate draft reader_id sequence)
          (record assigned.1 {
            offline_transactions =
                assigned.1.offline_transactions
                ++ (pending_row json crate draft reader_id assigned.0 policy decision_json
                      envelope_json
                    ∷ []);
          })
  unfolding queue_state_as_str
  insertion-Inserted store reader_id draft assigned number sequence policy decision_json
        envelope_json valid reads decided enveloped found numbered sequenced versioned =
      let (state, before, bound, first, second) =
        assigned_inversion store.reader_state (crate.to_string reader_id)
          draft.created_at_unix_milliseconds store assigned found in
      let (value, positive) = sequence_inversion assigned.0 number sequence numbered sequenced in
      record {
        state = state;
        row = pending_row json crate draft reader_id assigned.0 policy decision_json envelope_json;
        before = before;
        bound = bound;
        after = cc second;
        rows = cc second;
        owner = refl;
        number = first;
        holds = record {
          transaction = reads.transaction;
          reader = reads.reader;
          sequence = value;
          sequence_positive = positive;
          credential = reads.credential;
          event = refl;
          event_since_epoch = valid.event.0;
          policy = ground arith;
          policy_positive = valid.policy;
          decision = reads.decision decision_json decided;
          envelope = reads.envelope envelope_json enveloped;
          state = refl;
          attempts = refl;
          attempts_fit = omega arith;
          retry = refl;
          retry_since_epoch = refl;
          failure = refl;
          created = refl;
          created_since_epoch = valid.created;
          updated = refl;
          updated_later = omega arith;
        };
      }

  pub enqueued-Inserted :
      (engine : Engine) (store : ReaderStore) (reader_id : ReaderId)
      (draft : OfflineTransactionDraft json) (queued : QueuedOfflineTransaction json)
      (store' : ReaderStore)
      → IsDraft draft
      → ReadsBack reader_id draft
      → enqueued json crate engine store reader_id draft ≡ ok (queued, store')
      → Inserted store reader_id draft queued store'
  unfolding enqueued
  enqueued-Inserted engine store reader_id draft queued store' valid reads h =
      let (a1, e1, h1) =
        >>=-eq-ok
          (map_err (λ _. ReaderQueueError.serialization "provisional_decision")
            (json.decision_to_string draft.provisional_decision))
          _ h in
      let (a2, e2, h2) =
        >>=-eq-ok
          (map_err (λ _. ReaderQueueError.serialization "transaction_envelope")
            (json.value_to_string draft.transaction_envelope))
          _ h1 in
      let (_, _, h3) = >>=-eq-ok (run_statement json crate engine "begin queue insertion") _ h2 in
      let (_, _, h4) = >>=-eq-ok (run_statement json crate engine "assign local sequence") _ h3 in
      let (a5, e5, h5) =
        >>=-eq-ok
          (ok_or
            (assign_sequence json crate store.reader_state (crate.to_string reader_id)
              draft.created_at_unix_milliseconds store)
            (ReaderQueueError.sequence_unavailable reader_id))
          _ h4 in
      let (a6, e6, h6) =
        >>=-eq-ok (stored_value "local_sequence_number" (u64_try_from a5.0)) _ h5 in
      let (a7, e7, h7) =
        >>=-eq-ok (stored_value "local_sequence_number" (new_sequence_number a6)) _ h6 in
      let (a8, e8, h8) =
        >>=-eq-ok
          (ok_or (checked_i64 (pos draft.fare_policy_version.value))
            (ReaderQueueError.invalid_stored_value "fare_policy_version"))
          _ h7 in
      let row = pending_row json crate draft reader_id a5.0 a8 a1 a2 in
      let (_, _, h9) =
        >>=-eq-ok
          (if conflicts json crate a5.1 row then err ReaderQueueError.write_conflict else ok tt) _
          h8 in
      let (_, _, h10) =
        >>=-eq-ok (run_statement json crate engine "insert offline transaction") _ h9 in
      let (_, _, h11) =
        >>=-eq-ok (run_statement json crate engine "commit queue insertion") _ h10 in
      subst
        (λ (done : QueuedOfflineTransaction json × ReaderStore).
          Inserted store reader_id draft done.0 done.1)
        (ok-injective h11)
        (insertion-Inserted store reader_id draft a5 a6 a7 a8 a1 a2 valid reads
          (map_err-eq-ok _ _ e1) (map_err-eq-ok _ _ e2) (ok_or-eq-ok _ _ e5) (map_err-eq-ok _ _ e6)
          (map_err-eq-ok _ _ e7) (ok_or-eq-ok _ _ e8))

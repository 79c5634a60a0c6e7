-- ===== src/Persistence/ReaderQueue/Fifo.antt =====
-- The queue is first in, first out: a transaction that is enqueued is loaded as it was returned, after
-- all that were there.
use transit_guard.Base.{◌≡◌, subst, ap, Bool, some, inl, inr, List, [], ◌∷◌, ◌++◌, arith}
use transit_guard.Base.Tests.{Bool-cases}
use transit_guard.Base.Result.{Result, Result-cases, ok, >>=-eq-ok, ok-injective}
use transit_guard.Base.Int.{ℤ, ◌≤ℤ◌, int_laws}
use text.Mathlib.Text.{◌==◌}
use text.Mathlib.TextPositions.{eq_refl}
use text.Mathlib.TextEquality.{eq_iff}
use transit_guard.Domain.Identifier.{UuidCrate, ReaderId}
use transit_guard.Persistence.ReaderStore.{
  Engine, ReaderStore, StoredOfflineTransaction, select_where, order_by,
}
use transit_guard.Persistence.ReaderStore.Select.{
  AllRows, AllRows-append, AllRows-map, select_where-AllRows, select_where-append, order_by-append,
}
use transit_guard.Persistence.ReaderQueue.{
  QueueJson, QueuedOfflineTransaction, OfflineTransactionDraft, ReaderQueueError, enqueued,
  enqueue_offline_transaction, decode_all, decode_stored_transaction, load_offline_queue,
}
use transit_guard.Persistence.ReaderQueue.Decoding.{Holds-decode}
use transit_guard.Persistence.ReaderQueue.Insertion.{
  IsDraft, ReadsBack, BelowNext, IsSequenced, Inserted, enqueued-Inserted,
}

module _ (json : QueueJson) (crate : UuidCrate) where
  decode_all-append :
      (rows : List StoredOfflineTransaction) (qs : List (QueuedOfflineTransaction json))
      (last : StoredOfflineTransaction) (q : QueuedOfflineTransaction json)
      → decode_all json crate rows ≡ ok qs
      → decode_stored_transaction json crate last ≡ ok q
      → decode_all json crate (rows ++ (last ∷ [])) ≡ ok (qs ++ (q ∷ []))
  unfolding decode_all
  decode_all-append [] qs last q h k = ground arith
  decode_all-append (row ∷ rows) qs last q h k =
      let (first, e, h1) = >>=-eq-ok (decode_stored_transaction json crate row) _ h in
      let (rest, e2, h2) = >>=-eq-ok (decode_all json crate rows) _ h1 in
      rw e (
        rw (decode_all-append rows rest last q e2 k) (
          let grow : (List (QueuedOfflineTransaction json)
              → Result (List (QueuedOfflineTransaction json)) ReaderQueueError) =
            λ all. ok (all ++ (q ∷ [])) in
          ap grow (ok-injective h2)))

  abbrev number_of : StoredOfflineTransaction → ℤ
  number_of row = row.local_sequence_number

  abbrev owned_by : ReaderId → StoredOfflineTransaction → Bool
  owned_by reader_id row = row.reader_id == crate.to_string reader_id

  load-Inserted :
      (engine : Engine) (store : ReaderStore) (reader_id : ReaderId)
      (draft : OfflineTransactionDraft json) (queued : QueuedOfflineTransaction json)
      (store' : ReaderStore) (old : List (QueuedOfflineTransaction json))
      → IsSequenced json crate store
      → (done : Inserted json crate store reader_id draft queued store')
      → load_offline_queue json crate engine store reader_id ≡ ok old
      → load_offline_queue json crate engine store' reader_id ≡ ok (old ++ (queued ∷ []))
  unfolding load_offline_queue
  load-Inserted engine store reader_id draft queued store' old sequenced done loaded =
      let below : BelowNext json crate (some done.state) store.offline_transactions =
        subst (λ found. BelowNext json crate found store.offline_transactions) done.before
          sequenced in
      let owner : done.state.reader_id ≡ crate.to_string reader_id =
        (eq_iff done.state.reader_id (crate.to_string reader_id)).0 done.bound in
      let smaller : AllRows
          (λ (row : StoredOfflineTransaction). number_of row ≤ℤ number_of done.row)
          (select_where (owned_by reader_id) store.offline_transactions) =
        select_where-AllRows (owned_by reader_id)
          (λ (row : StoredOfflineTransaction). number_of row ≤ℤ number_of done.row)
          store.offline_transactions
          (AllRows-map _ _ (λ row lower mine. rw done.number (omega (arith, lower (rw owner mine))))
            store.offline_transactions below.1) in
      elim (Bool-cases (engine "load offline queue")) [
        | inr down ↦ absurd (ground arith)
        | inl up ↦
            rw (up, done.rows)
              (rw
                (select_where-append (owned_by reader_id) store.offline_transactions done.row
                  (rw done.owner (eq_refl (crate.to_string reader_id))))
                (rw
                  (order_by-append number_of
                    (select_where (owned_by reader_id) store.offline_transactions) done.row smaller)
                  (decode_all-append
                    (order_by number_of
                      (select_where (owned_by reader_id) store.offline_transactions))
                    old done.row queued (rw up at loaded)
                    (Holds-decode json crate done.row queued done.holds))))
      ]

  Inserted-IsSequenced :
      (store : ReaderStore) (reader_id : ReaderId) (draft : OfflineTransactionDraft json)
      (queued : QueuedOfflineTransaction json) (store' : ReaderStore)
      → IsSequenced json crate store
      → Inserted json crate store reader_id draft queued store'
      → IsSequenced json crate store'
  Inserted-IsSequenced store reader_id draft queued store' sequenced done =
      let below : BelowNext json crate (some done.state) store.offline_transactions =
        subst (λ found. BelowNext json crate found store.offline_transactions) done.before
          sequenced in
      rw (done.after, done.rows)
        (
          omega (int_laws, below.0),
          AllRows-append _ store.offline_transactions done.row
              (AllRows-map _ _ (λ row lower mine. omega (int_laws, lower mine))
                store.offline_transactions below.1)
              (λ mine. rw done.number (omega int_laws)),
        )

  -- Where the stored numbers are below the reader's next one, and the crates read back what they print of
  -- the draft: after a successful insertion the reader's queue is loaded as it was before, followed by the
  -- transaction that was returned, and the stored numbers are below the next one again.
  pub enqueue-load :
      (engine : Engine) (store : ReaderStore) (reader_id : ReaderId)
      (draft : OfflineTransactionDraft json) (queued : QueuedOfflineTransaction json)
      (store' : ReaderStore) (old : List (QueuedOfflineTransaction json))
      → IsDraft json crate draft
      → ReadsBack json crate reader_id draft
      → IsSequenced json crate store
      → enqueue_offline_transaction json crate engine store reader_id draft ≡ (ok queued, store')
      → load_offline_queue json crate engine store reader_id ≡ ok old
      → (load_offline_queue json crate engine store' reader_id ≡ ok (old ++ (queued ∷ [])))
        × IsSequenced json crate store'
  unfolding enqueue_offline_transaction
  enqueue-load engine store reader_id draft queued store' old valid reads sequenced enqueued_ok
        loaded =
      elim (Result-cases (enqueued json crate engine store reader_id draft)) [
        | inr (_, failed) ↦ absurd (ground arith)
        | inl (pair, committed) ↦
            let inserted =
              enqueued-Inserted json crate engine store reader_id draft queued store' valid reads
                (ground arith) in
            (
              load-Inserted engine store reader_id draft queued store' old sequenced inserted
                  loaded,
              Inserted-IsSequenced store reader_id draft queued store' sequenced inserted,
            )
      ]

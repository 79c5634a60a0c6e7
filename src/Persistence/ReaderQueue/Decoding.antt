-- ===== src/Persistence/ReaderQueue/Decoding.antt =====
-- Which rows are decoded, and into what.
use transit_guard.Base.{ℕ, ◌^◌, ◌<◌, ◌≡◌, ◌↔◌, refl, subst, Bool, String, true, false, arith}
use transit_guard.Base.Result.{ok, >>=-eq-ok, map_err, map_err-eq-ok, ok-injective}
use transit_guard.Base.Int.{ℤ, pos, negsuc, ◌≤ℤ◌, ltb_ℤ}
use transit_guard.Base.Text.{match_text, match_text-written}
use transit_guard.Domain.Identifier.{UuidCrate, from_str}
use transit_guard.Domain.Transaction.{
  LocalSequenceNumber, FarePolicyVersion, EventTime, new_sequence_number, new_policy_version,
  from_unix_milliseconds,
}
use transit_guard.Persistence.ReaderStore.{StoredOfflineTransaction}
use transit_guard.Persistence.ReaderQueue.{
  OfflineQueueState, QueueJson, QueuedOfflineTransaction, ReaderQueueError, queue_state_as_str,
  queue_state_arms, parse_queue_state, decode_stored_transaction, u64_try_from, u32_try_from,
  stored_value, refuse_if, is_negative_time,
}

parse-as_str : (state : OfflineQueueState) → parse_queue_state (queue_state_as_str state) ≡ ok state
unfolding parse_queue_state queue_state_as_str match_text
parse-as_str OfflineQueueState.pending = refl
parse-as_str _ = refl

pub parse_queue_state-ok_iff :
    (text : String) (state : OfflineQueueState)
    → (parse_queue_state text ≡ ok state) ↔ (text ≡ queue_state_as_str state)
unfolding parse_queue_state queue_state_as_str match_text
parse_queue_state-ok_iff text state = (
  λ h.
      match_text-written queue_state_as_str text queue_state_arms
        (ReaderQueueError.invalid_stored_value "queue_state") state h
        (refl, (refl, (refl, (refl, (refl, (refl, tt)))))),
  λ same. rw same (parse-as_str state),
)

pub sequence_inversion :
    (stored : ℤ) (value : ℕ) (sequence : LocalSequenceNumber)
    → u64_try_from stored ≡ ok value
    → new_sequence_number value ≡ ok sequence
    → (stored ≡ pos sequence.value) × (0 < sequence.value)
unfolding new_sequence_number
sequence_inversion (pos n) value sequence h k = ground arith
sequence_inversion (negsuc n) value sequence h k = absurd (ground arith)

policy_inversion :
    (stored : ℤ) (value : ℕ) (version : FarePolicyVersion)
    → u64_try_from stored ≡ ok value
    → new_policy_version value ≡ ok version
    → (stored ≡ pos version.value) × (0 < version.value)
unfolding new_policy_version
policy_inversion (pos n) value version h k = ground arith
policy_inversion (negsuc n) value version h k = absurd (ground arith)

event_inversion :
    (stored : ℤ) (time : EventTime)
    → from_unix_milliseconds stored ≡ ok time
    → (stored ≡ time.unix_milliseconds) × (pos 0 ≤ℤ stored)
unfolding from_unix_milliseconds
event_inversion stored time h = ground arith

attempts_inversion :
    (stored : ℤ) (count : ℕ)
    → u32_try_from stored ≡ ok count
    → (stored ≡ pos count) × (count < 2 ^ 32)
attempts_inversion (pos n) count h = ground arith
attempts_inversion (negsuc n) count h = absurd (ground arith)

not_refused : (refused : Bool) (field : String) → refuse_if refused field ≡ ok tt → refused ≡ false
not_refused true field h = absurd (ground arith)
not_refused false field h = refl

not_before : (a b : ℤ) → ltb_ℤ b a ≡ false → a ≤ℤ b
not_before a b h = ground arith

pub sequence_made :
    (sequence : LocalSequenceNumber)
    → 0 < sequence.value
    → new_sequence_number sequence.value ≡ ok sequence
unfolding new_sequence_number
sequence_made sequence positive = ground arith

policy_made :
    (version : FarePolicyVersion)
    → 0 < version.value
    → new_policy_version version.value ≡ ok version
unfolding new_policy_version
policy_made version positive = ground arith

event_made :
    (stored : ℤ)
    → pos 0 ≤ℤ stored
    → from_unix_milliseconds stored ≡ ok (record { unix_milliseconds = stored })
unfolding from_unix_milliseconds
event_made stored later = ground arith

attempts_made : (count : ℕ) → count < 2 ^ 32 → u32_try_from (pos count) ≡ ok count
attempts_made count fits = ground arith

refused_not : (refused : Bool) (field : String) → refused ≡ false → refuse_if refused field ≡ ok tt
refused_not refused field h = ground arith

before_not : (a b : ℤ) → a ≤ℤ b → ltb_ℤ b a ≡ false
before_not a b h = ground arith

-- A row holds a transaction: each column is the text or the number of the field, within its range.
module _ (json : QueueJson) (crate : UuidCrate) where
  pub record Holds (row : StoredOfflineTransaction) (q : QueuedOfflineTransaction json)
      : Type 0 where
    pub transaction :
        from_str crate "fare transaction identifier" row.fare_transaction_id ≡ ok q.transaction_id
    pub reader : from_str crate "reader identifier" row.reader_id ≡ ok q.reader_id
    pub sequence : row.local_sequence_number ≡ pos q.local_sequence_number.value
    pub sequence_positive : 0 < q.local_sequence_number.value
    pub credential :
        from_str crate "fare credential identifier" row.fare_credential_id ≡ ok q.fare_credential_id
    pub event : row.event_time_unix_milliseconds ≡ q.event_time.unix_milliseconds
    pub event_since_epoch : pos 0 ≤ℤ row.event_time_unix_milliseconds
    pub policy : row.fare_policy_version ≡ pos q.fare_policy_version.value
    pub policy_positive : 0 < q.fare_policy_version.value
    pub decision : json.decision_from_str row.provisional_decision_json ≡ ok q.provisional_decision
    pub envelope : json.value_from_str row.transaction_envelope_json ≡ ok q.transaction_envelope
    pub state : row.queue_state ≡ queue_state_as_str q.queue_state
    pub attempts : row.attempt_count ≡ pos q.attempt_count
    pub attempts_fit : q.attempt_count < 2 ^ 32
    pub retry : row.next_retry_at_unix_milliseconds ≡ q.next_retry_at_unix_milliseconds
    pub retry_since_epoch : is_negative_time row.next_retry_at_unix_milliseconds ≡ false
    pub failure : row.last_failure_category ≡ q.last_failure_category
    pub created : row.created_at_unix_milliseconds ≡ q.created_at_unix_milliseconds
    pub created_since_epoch : pos 0 ≤ℤ row.created_at_unix_milliseconds
    pub updated : row.updated_at_unix_milliseconds ≡ q.updated_at_unix_milliseconds
    pub updated_later : row.created_at_unix_milliseconds ≤ℤ row.updated_at_unix_milliseconds

  decode-Holds :
      (row : StoredOfflineTransaction) (q : QueuedOfflineTransaction json)
      → decode_stored_transaction json crate row ≡ ok q
      → Holds row q
  unfolding decode_stored_transaction
  decode-Holds row q h =
      let (a1, e1, h1) =
        >>=-eq-ok
          (stored_value "fare_transaction_id"
            (from_str crate "fare transaction identifier" row.fare_transaction_id))
          _ h in
      let (a2, e2, h2) =
        >>=-eq-ok (stored_value "reader_id" (from_str crate "reader identifier" row.reader_id)) _
          h1 in
      let (a3, e3, h3) =
        >>=-eq-ok (stored_value "local_sequence_number" (u64_try_from row.local_sequence_number)) _
          h2 in
      let (a4, e4, h4) =
        >>=-eq-ok (stored_value "local_sequence_number" (new_sequence_number a3)) _ h3 in
      let (a5, e5, h5) =
        >>=-eq-ok
          (stored_value "fare_credential_id"
            (from_str crate "fare credential identifier" row.fare_credential_id))
          _ h4 in
      let (a6, e6, h6) =
        >>=-eq-ok
          (stored_value "event_time_unix_milliseconds"
            (from_unix_milliseconds row.event_time_unix_milliseconds))
          _ h5 in
      let (a7, e7, h7) =
        >>=-eq-ok (stored_value "fare_policy_version" (u64_try_from row.fare_policy_version)) _
          h6 in
      let (a8, e8, h8) =
        >>=-eq-ok (stored_value "fare_policy_version" (new_policy_version a7)) _ h7 in
      let (a9, e9, h9) =
        >>=-eq-ok
          (map_err (λ _. ReaderQueueError.serialization "provisional_decision")
            (json.decision_from_str row.provisional_decision_json))
          _ h8 in
      let (a10, e10, h10) =
        >>=-eq-ok
          (map_err (λ _. ReaderQueueError.serialization "transaction_envelope")
            (json.value_from_str row.transaction_envelope_json))
          _ h9 in
      let (a11, e11, h11) = >>=-eq-ok (parse_queue_state row.queue_state) _ h10 in
      let (a12, e12, h12) =
        >>=-eq-ok (stored_value "attempt_count" (u32_try_from row.attempt_count)) _ h11 in
      let (a13, e13, h13) =
        >>=-eq-ok
          (refuse_if (is_negative_time row.next_retry_at_unix_milliseconds)
            "next_retry_at_unix_milliseconds")
          _ h12 in
      let (a14, e14, h14) =
        >>=-eq-ok
          (refuse_if (ltb_ℤ row.created_at_unix_milliseconds (pos 0))
            "created_at_unix_milliseconds")
          _ h13 in
      let (a15, e15, h15) =
        >>=-eq-ok
          (refuse_if (ltb_ℤ row.updated_at_unix_milliseconds row.created_at_unix_milliseconds)
            "updated_at_unix_milliseconds")
          _ h14 in
      let sequence =
        sequence_inversion row.local_sequence_number a3 a4 (map_err-eq-ok _ _ e3)
          (map_err-eq-ok _ _ e4) in
      let event = event_inversion row.event_time_unix_milliseconds a6 (map_err-eq-ok _ _ e6) in
      let policy =
        policy_inversion row.fare_policy_version a7 a8 (map_err-eq-ok _ _ e7)
          (map_err-eq-ok _ _ e8) in
      let attempts = attempts_inversion row.attempt_count a12 (map_err-eq-ok _ _ e12) in
      subst (Holds row) (ok-injective h15) (record {
        transaction = map_err-eq-ok _ _ e1;
        reader = map_err-eq-ok _ _ e2;
        sequence = sequence.0;
        sequence_positive = sequence.1;
        credential = map_err-eq-ok _ _ e5;
        event = event.0;
        event_since_epoch = event.1;
        policy = policy.0;
        policy_positive = policy.1;
        decision = map_err-eq-ok _ _ e9;
        envelope = map_err-eq-ok _ _ e10;
        state = (parse_queue_state-ok_iff row.queue_state a11).0 e11;
        attempts = attempts.0;
        attempts_fit = attempts.1;
        retry = refl;
        retry_since_epoch =
            not_refused (is_negative_time row.next_retry_at_unix_milliseconds) _ e13;
        failure = refl;
        created = refl;
        created_since_epoch =
            not_before (pos 0) row.created_at_unix_milliseconds
              (not_refused (ltb_ℤ row.created_at_unix_milliseconds (pos 0)) _ e14);
        updated = refl;
        updated_later =
            not_before row.created_at_unix_milliseconds row.updated_at_unix_milliseconds (
              not_refused (ltb_ℤ row.updated_at_unix_milliseconds row.created_at_unix_milliseconds)
                _ e15);
      })

  pub Holds-decode :
      (row : StoredOfflineTransaction) (q : QueuedOfflineTransaction json)
      → Holds row q
      → decode_stored_transaction json crate row ≡ ok q
  unfolding decode_stored_transaction
  Holds-decode row q h = rw h.transaction (
      rw h.reader (
        rw h.sequence (
          rw (sequence_made q.local_sequence_number h.sequence_positive) (
            rw h.credential (
              rw (event_made row.event_time_unix_milliseconds h.event_since_epoch) (
                rw h.policy (
                  rw (policy_made q.fare_policy_version h.policy_positive) (
                    rw h.decision (
                      rw h.envelope (
                        rw ((parse_queue_state-ok_iff row.queue_state q.queue_state).1 h.state) (
                          rw h.attempts (
                            rw (attempts_made q.attempt_count h.attempts_fit) (
                              rw
                                (refused_not (is_negative_time row.next_retry_at_unix_milliseconds)
                                  "next_retry_at_unix_milliseconds" h.retry_since_epoch)
                                (rw
                                  (before_not (pos 0) row.created_at_unix_milliseconds
                                    h.created_since_epoch)
                                  (rw
                                    (before_not row.created_at_unix_milliseconds
                                      row.updated_at_unix_milliseconds h.updated_later)
                                    (cc (
                                      h.event, h.retry, h.failure, h.created, h.updated,
                                    )))))))))))))))))

  -- A row is decoded into a transaction exactly if it holds it: each text column is the text of the
  -- field, and each number is the field's and within its range, with an update no earlier than the
  -- creation.
  pub decode-ok_iff :
      (row : StoredOfflineTransaction) (q : QueuedOfflineTransaction json)
      → (decode_stored_transaction json crate row ≡ ok q) ↔ Holds row q
  decode-ok_iff row q = (decode-Holds row q, Holds-decode row q)

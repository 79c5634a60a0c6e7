-- ===== src/Protocol/PayloadFingerprint/Injective.antt =====
-- The message that is hashed tells an acknowledgement but for its `replayed` marker.
use transit_guard.Base.{
  ℕ, ◌^◌, ◌<◌, ◌≡◌, ◌↔◌, refl, ap, false, Option, some, none, List, [], ◌∷◌, ◌++◌, arith,
}
use transit_guard.Base.Int.{ℤ, InI64}
use transit_guard.Base.Sequence.{length}
use transit_guard.Base.Text.{as_bytes}
use transit_guard.Domain.Identifier.{UuidCrate}
use transit_guard.Protocol.Synchronization.{SynchronizationEntryOutcome}
use transit_guard.Protocol.Synchronization.Category.{
  SynchronizationFailureCategory, category_as_str, category_as_str-injective, category_as_str-fits,
}
use transit_guard.Protocol.Acknowledgement.{
  SynchronizationAcknowledgementEntry, SynchronizationBatchAcknowledgement, with_replayed,
}
use transit_guard.Protocol.Encoding.{update_bytes, update_text, update_i64}
use transit_guard.Protocol.Encoding.Prefix.{
  append-injective, update_u16-prefix, update_u64-prefix, update_i64-prefix, update_text-prefix,
}
use transit_guard.Protocol.Fingerprint.Injective.{FitsText, PrintsId, update_uuid-prefix}
use transit_guard.Protocol.PayloadFingerprint.{
  acknowledgement_domain, encode_outcome, encode_category, encode_retry_time, results_message,
  acknowledgement_message,
}

abbrev FitsTime : Option ℤ → Type 0
FitsTime none = Unit
FitsTime (some retry_at) = InI64 retry_at

abbrev pub FitResults : UuidCrate → List SynchronizationAcknowledgementEntry → Type 0
FitResults crate [] = Unit
FitResults crate (e ∷ entries) =
    PrintsId crate e.transaction_id
    × (e.local_sequence_number.value < 2 ^ 64)
    × FitsTime e.next_retry_at_unix_milliseconds
    × FitResults crate entries

-- What the types of the fields give: the ranges of `u16`, `u64`, `i64` and of a length, and that the
-- identifiers are such as the `uuid` crate.
pub record FitsWords (crate : UuidCrate) (a : SynchronizationBatchAcknowledgement) : Type 0 where
  pub version : a.protocol_version.value < 2 ^ 16
  pub environment : FitsText a.environment_id.text
  pub reader : PrintsId crate a.reader_id
  pub batch : PrintsId crate a.batch_id
  pub first_sequence : a.first_local_sequence_number.value < 2 ^ 64
  pub last_sequence : a.last_local_sequence_number.value < 2 ^ 64
  pub received : InI64 a.received_at_unix_milliseconds
  pub count : length a.entries < 2 ^ 64
  pub each : FitResults crate a.entries

encode_outcome-injective :
    (a b : SynchronizationEntryOutcome) → encode_outcome a ≡ encode_outcome b → a ≡ b
unfolding encode_outcome
encode_outcome-injective a b h = ground arith

encode_category-prefix :
    (a b : Option SynchronizationFailureCategory) (xs ys : List ℕ)
    → encode_category a ++ xs ≡ encode_category b ++ ys
    → (a ≡ b) × (xs ≡ ys)
unfolding encode_category
encode_category-prefix none none xs ys h = ground arith
encode_category-prefix none (some b) xs ys h = absurd (ground arith)
encode_category-prefix (some a) none xs ys h = absurd (ground arith)
encode_category-prefix (some a) (some b) xs ys h =
    let tails : (update_text (category_as_str a) ++ xs ≡ update_text (category_as_str b) ++ ys) =
      ground arith in
    let (names, rest) =
      update_text-prefix (category_as_str a) (category_as_str b) xs ys (category_as_str-fits a)
        (category_as_str-fits b) tails in
    (ap some (category_as_str-injective a b names), rest)

encode_retry_time-prefix :
    (a b : Option ℤ) (xs ys : List ℕ)
    → FitsTime a
    → FitsTime b
    → encode_retry_time a ++ xs ≡ encode_retry_time b ++ ys
    → (a ≡ b) × (xs ≡ ys)
unfolding encode_retry_time
encode_retry_time-prefix none none xs ys ha hb h = ground arith
encode_retry_time-prefix none (some b) xs ys ha hb h = absurd (ground arith)
encode_retry_time-prefix (some a) none xs ys ha hb h = absurd (ground arith)
encode_retry_time-prefix (some a) (some b) xs ys ha hb h =
    let tails : (update_i64 a ++ xs ≡ update_i64 b ++ ys) = ground arith in
    let (times, rest) = update_i64-prefix a b xs ys ha hb tails in (ap some times, rest)

module _ (crate : UuidCrate) where
  results_message-injective :
      (es fs : List SynchronizationAcknowledgementEntry)
      → FitResults crate es
      → FitResults crate fs
      → length es ≡ length fs
      → results_message crate es ≡ results_message crate fs
      → es ≡ fs
  unfolding results_message
  results_message-injective [] [] he hf same h = refl
  results_message-injective [] (f ∷ fs) he hf same h = absurd (omega arith)
  results_message-injective (e ∷ es) [] he hf same h = absurd (omega arith)
  results_message-injective (e ∷ es) (f ∷ fs) he hf same h =
      let (e1, h1) = update_uuid-prefix crate e.transaction_id f.transaction_id _ _ he.0 hf.0 h in
      let (e2, h2) =
        update_u64-prefix e.local_sequence_number.value f.local_sequence_number.value _ _ he.1 hf.1
          h1 in
      let (e3, h3) =
        append-injective (encode_outcome e.outcome ∷ []) (encode_outcome f.outcome ∷ []) _ _ refl
          h2 in
      let (e4, h4) = encode_category-prefix e.failure_category f.failure_category _ _ h3 in
      let (e5, h5) =
        encode_retry_time-prefix e.next_retry_at_unix_milliseconds f.next_retry_at_unix_milliseconds
          _ _ he.2 hf.2 h4 in
      let outcomes : (e.outcome ≡ f.outcome) =
        encode_outcome-injective e.outcome f.outcome (cc e3) in
      ground (
        arith,
        e1,
        e2,
        outcomes,
        e4,
        e5,
        results_message-injective es fs he.3 hf.3 (omega arith) h5,
      )

  pub acknowledgement_message-injective :
      (a b : SynchronizationBatchAcknowledgement)
      → FitsWords crate a
      → FitsWords crate b
      → acknowledgement_message crate a ≡ acknowledgement_message crate b
      → with_replayed false a ≡ with_replayed false b
  unfolding acknowledgement_message with_replayed
  acknowledgement_message-injective a b fa fb h =
      let (_, h0) =
        append-injective (update_bytes (as_bytes acknowledgement_domain))
          (update_bytes (as_bytes acknowledgement_domain)) _ _ refl h in
      let (e1, h1) =
        update_u16-prefix a.protocol_version.value b.protocol_version.value _ _ fa.version
          fb.version h0 in
      let (e2, h2) =
        update_text-prefix a.environment_id.text b.environment_id.text _ _ fa.environment
          fb.environment h1 in
      let (e3, h3) = update_uuid-prefix crate a.reader_id b.reader_id _ _ fa.reader fb.reader h2 in
      let (e4, h4) = update_uuid-prefix crate a.batch_id b.batch_id _ _ fa.batch fb.batch h3 in
      let (e5, h5) =
        update_u64-prefix a.first_local_sequence_number.value b.first_local_sequence_number.value _
          _ fa.first_sequence fb.first_sequence h4 in
      let (e6, h6) =
        update_u64-prefix a.last_local_sequence_number.value b.last_local_sequence_number.value _ _
          fa.last_sequence fb.last_sequence h5 in
      let (e7, h7) =
        update_i64-prefix a.received_at_unix_milliseconds b.received_at_unix_milliseconds _ _
          fa.received fb.received h6 in
      let (e8, h8) =
        update_u64-prefix (length a.entries) (length b.entries) _ _ fa.count fb.count h7 in
      cc (
        e1,
        e2,
        e3,
        e4,
        e5,
        e6,
        e7,
        results_message-injective a.entries b.entries fa.each fb.each e8 h8,
      )

  -- Two acknowledgements whose values fit their machine types are hashed from the same bytes
  -- exactly if they agree in everything but the marker of a replay.
  pub acknowledgement_message_iff :
      (a b : SynchronizationBatchAcknowledgement)
      → FitsWords crate a
      → FitsWords crate b
      → (acknowledgement_message crate a ≡ acknowledgement_message crate b)
        ↔ (with_replayed false a ≡ with_replayed false b)
  unfolding acknowledgement_message with_replayed
  acknowledgement_message_iff a b fa fb =
      (acknowledgement_message-injective a b fa fb, λ same. ap (acknowledgement_message crate) same)

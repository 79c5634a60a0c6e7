-- ===== src/Protocol/Fingerprint/Injective.antt =====
-- The message that is hashed tells the whole request.
use transit_guard.Base.{
  ℕ, ◌^◌, ◌<◌, ◌≡◌, ◌↔◌, refl, sym, ap, ◌∙◌, String, List, [], ◌∷◌, ◌++◌, arith,
}
use transit_guard.Base.Result.{ok, ok-injective}
use transit_guard.Base.Int.{InI64}
use transit_guard.Base.Sequence.{length}
use transit_guard.Base.Text.{as_bytes}
use transit_guard.Domain.Identifier.{Uuid, UuidCrate}
use transit_guard.Protocol.Synchronization.Request.{
  SynchronizationRequestEntry, SynchronizationBatchRequest,
}
use transit_guard.Protocol.Encoding.{update_bytes, update_text}
use transit_guard.Protocol.Encoding.Prefix.{
  append-injective, update_u16-prefix, update_u64-prefix, update_i64-prefix, update_text-prefix,
}
use transit_guard.Protocol.Fingerprint.{fingerprint_domain, entries_message, request_message}

abbrev pub FitsText : String → Type 0
FitsText text = length (as_bytes text) < 2 ^ 64

-- The text that the `uuid` crate prints of an identifier fits too, and is read back.
abbrev pub PrintsId : UuidCrate → Uuid → Type 0
PrintsId crate id = FitsText (crate.to_string id) × (crate.parse_str (crate.to_string id) ≡ ok id)

abbrev pub FitEntries : UuidCrate → List SynchronizationRequestEntry → Type 0
FitEntries crate [] = Unit
FitEntries crate (e ∷ entries) =
    PrintsId crate e.transaction_id
    × (e.local_sequence_number.value < 2 ^ 64)
    × FitsText e.transaction_envelope.text
    × FitEntries crate entries

-- What the types of the fields give: the ranges of `u16`, `u64`, `i64` and of a length, and that the
-- identifiers are such as the crate prints.
pub record FitsWords (crate : UuidCrate) (r : SynchronizationBatchRequest) : Type 0 where
  pub version : r.protocol_version.value < 2 ^ 16
  pub environment : FitsText r.environment_id.text
  pub reader : PrintsId crate r.reader_id
  pub batch : PrintsId crate r.batch_id
  pub software : FitsText r.reader_software_version.text
  pub first_sequence : r.first_local_sequence_number.value < 2 ^ 64
  pub last_sequence : r.last_local_sequence_number.value < 2 ^ 64
  pub submitted : InI64 r.submitted_at_unix_milliseconds
  pub count : length r.entries < 2 ^ 64
  pub each : FitEntries crate r.entries

module _ (crate : UuidCrate) where
  pub update_uuid-prefix :
      (a b : Uuid) (xs ys : List ℕ)
      → PrintsId crate a
      → PrintsId crate b
      → update_text (crate.to_string a) ++ xs ≡ update_text (crate.to_string b) ++ ys
      → (a ≡ b) × (xs ≡ ys)
  update_uuid-prefix a b xs ys pa pb h =
      let (texts, rest) =
        update_text-prefix (crate.to_string a) (crate.to_string b) xs ys pa.0 pb.0 h in
      (ok-injective (sym pa.1 ∙ ap crate.parse_str texts ∙ pb.1), rest)

  entries_message-injective :
      (es fs : List SynchronizationRequestEntry)
      → FitEntries crate es
      → FitEntries crate fs
      → length es ≡ length fs
      → entries_message crate es ≡ entries_message crate fs
      → es ≡ fs
  unfolding entries_message
  entries_message-injective [] [] he hf same h = refl
  entries_message-injective [] (f ∷ fs) he hf same h = absurd (omega arith)
  entries_message-injective (e ∷ es) [] he hf same h = absurd (omega arith)
  entries_message-injective (e ∷ es) (f ∷ fs) he hf same h =
      let (e1, h1) = update_uuid-prefix e.transaction_id f.transaction_id _ _ he.0 hf.0 h in
      let (e2, h2) =
        update_u64-prefix e.local_sequence_number.value f.local_sequence_number.value _ _ he.1 hf.1
          h1 in
      let (e3, h3) =
        update_text-prefix e.transaction_envelope.text f.transaction_envelope.text _ _ he.2 hf.2
          h2 in
      ground (arith, e1, e2, e3, entries_message-injective es fs he.3 hf.3 (omega arith) h3)

  pub request_message-injective :
      (r s : SynchronizationBatchRequest)
      → FitsWords crate r
      → FitsWords crate s
      → request_message crate r ≡ request_message crate s
      → r ≡ s
  unfolding request_message
  request_message-injective r s fr fs h =
      let (_, h0) =
        append-injective (update_bytes (as_bytes fingerprint_domain))
          (update_bytes (as_bytes fingerprint_domain)) _ _ refl h in
      let (e1, h1) =
        update_u16-prefix r.protocol_version.value s.protocol_version.value _ _ fr.version
          fs.version h0 in
      let (e2, h2) =
        update_text-prefix r.environment_id.text s.environment_id.text _ _ fr.environment
          fs.environment h1 in
      let (e3, h3) = update_uuid-prefix r.reader_id s.reader_id _ _ fr.reader fs.reader h2 in
      let (e4, h4) =
        update_text-prefix r.reader_software_version.text s.reader_software_version.text _ _
          fr.software fs.software h3 in
      let (e5, h5) = update_uuid-prefix r.batch_id s.batch_id _ _ fr.batch fs.batch h4 in
      let (e6, h6) =
        update_u64-prefix r.first_local_sequence_number.value s.first_local_sequence_number.value _
          _ fr.first_sequence fs.first_sequence h5 in
      let (e7, h7) =
        update_u64-prefix r.last_local_sequence_number.value s.last_local_sequence_number.value _ _
          fr.last_sequence fs.last_sequence h6 in
      let (e8, h8) =
        update_i64-prefix r.submitted_at_unix_milliseconds s.submitted_at_unix_milliseconds _ _
          fr.submitted fs.submitted h7 in
      let (e9, h9) =
        update_u64-prefix (length r.entries) (length s.entries) _ _ fr.count fs.count h8 in
      cc (
        e1,
        e2,
        e3,
        e4,
        e5,
        e6,
        e7,
        e8,
        entries_message-injective r.entries s.entries fr.each fs.each e9 h9,
      )

  -- Two requests whose values fit their machine types are hashed from the same bytes exactly if
  -- they are the same request: each field and each entry is part of the fingerprint, and none can
  -- be moved into another.
  pub request_message_iff :
      (r s : SynchronizationBatchRequest)
      → FitsWords crate r
      → FitsWords crate s
      → (request_message crate r ≡ request_message crate s) ↔ (r ≡ s)
  request_message_iff r s fr fs =
      (request_message-injective r s fr fs, λ same. ap (request_message crate) same)

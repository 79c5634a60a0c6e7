-- ===== src/Protocol/Acknowledgement/Match.antt =====
-- When an acknowledgement answers a request.
use transit_guard.Base.{ℕ, suc, ◌≡◌, ◌↔◌, refl, List, [], ◌∷◌, arith}
use transit_guard.Base.Result.{ok}
use transit_guard.Base.Sequence.{length}
use text.Mathlib.TextEquality.{eq_iff}
use transit_guard.Domain.Identifier.{FareTransactionId}
use transit_guard.Domain.Transaction.{LocalSequenceNumber}
use transit_guard.Protocol.Synchronization.Request.{
  SynchronizationRequestEntry, SynchronizationBatchRequest,
}
use transit_guard.Protocol.Acknowledgement.{
  SynchronizationAcknowledgementEntry, SynchronizationBatchAcknowledgement, entries_match,
  validate_against_request,
}

-- What identifies an entry in a batch: its transaction and its sequence number.
abbrev pub submitted_keys :
    List SynchronizationRequestEntry → List (FareTransactionId × LocalSequenceNumber)
submitted_keys [] = []
submitted_keys (e ∷ rest) = (e.transaction_id, e.local_sequence_number) ∷ submitted_keys rest

abbrev pub acknowledged_keys :
    List SynchronizationAcknowledgementEntry → List (FareTransactionId × LocalSequenceNumber)
acknowledged_keys [] = []
acknowledged_keys (e ∷ rest) = (e.transaction_id, e.local_sequence_number) ∷ acknowledged_keys rest

-- The acknowledgement names the request's identity and range, and has one result for each of its
-- entries, in their order.
pub record Answers (a : SynchronizationBatchAcknowledgement) (r : SynchronizationBatchRequest)
    : Type 0 where
  pub version : a.protocol_version ≡ r.protocol_version
  pub environment : a.environment_id ≡ r.environment_id
  pub reader : a.reader_id ≡ r.reader_id
  pub batch : a.batch_id ≡ r.batch_id
  pub starts : a.first_local_sequence_number ≡ r.first_local_sequence_number
  pub ends : a.last_local_sequence_number ≡ r.last_local_sequence_number
  pub entries : acknowledged_keys a.entries ≡ submitted_keys r.entries

-- Past the check of the counts, the loop compares the two sequences of keys.
entries_match-ok_iff :
    (position : ℕ) (results : List SynchronizationAcknowledgementEntry)
    (rs : List SynchronizationRequestEntry)
    → ((length results ≡ length rs) × (entries_match position results rs ≡ ok tt))
      ↔ (acknowledged_keys results ≡ submitted_keys rs)
unfolding entries_match
entries_match-ok_iff position [] [] = (λ h. refl, λ h. (refl, refl))
entries_match-ok_iff position [] (r ∷ rs) = ground arith
entries_match-ok_iff position (a ∷ results) [] = ground arith
entries_match-ok_iff position (a ∷ results) (r ∷ rs) =
    ground (arith, entries_match-ok_iff (suc position) results rs)

-- An acknowledgement is accepted for a request exactly if it has the protocol version, environment,
-- reader, batch and range of the request, and one result for each of its entries, in their order,
-- under the same transaction and sequence number.
pub validate_against_request-ok_iff :
    (a : SynchronizationBatchAcknowledgement) (r : SynchronizationBatchRequest)
    → (validate_against_request a r ≡ ok tt) ↔ Answers a r
unfolding validate_against_request
validate_against_request-ok_iff a r = ground (
  arith,
  entries_match-ok_iff 0 a.entries r.entries,
  eq_iff a.environment_id.text r.environment_id.text,
)

-- ===== src/Protocol/Synchronization/Entries.antt =====
-- crates/device-protocol/src/synchronization.rs: the checks that a request and an acknowledgement
-- make of their entries. The two functions of the source have one text over two types of entry:
-- here it is a section over the entry's two getters.
pub mod Order
use transit_guard.Base.{ℕ, Option, some, none, List, [], ◌∷◌, Bool, true, false, ◌||◌, not, map}
use transit_guard.Base.Tests.{ltb, leb, ◌==◌, if◌then◌else◌}
use transit_guard.Base.Result.{Result, ok, err, ◌>>=◌, ◌>>◌, ok_or}
use transit_guard.Base.Sequence.{length, first, last}
use transit_guard.Domain.Identifier.{FareTransactionId}
use transit_guard.Domain.Transaction.{LocalSequenceNumber}
use transit_guard.Protocol.Synchronization.{
  SynchronizationProtocolError, max_synchronization_batch_entries,
}

abbrev Checked : Type 0
Checked = Result (Unit {0}) SynchronizationProtocolError

unfoldable pub validate_entry_count : ℕ → Result (Unit {0}) SynchronizationProtocolError
validate_entry_count entry_count =
    if entry_count == 0
    then err SynchronizationProtocolError.empty_batch
    else if ltb max_synchronization_batch_entries entry_count
    then err (
        SynchronizationProtocolError.too_many_entries max_synchronization_batch_entries entry_count)
    else ok tt

unfoldable pub validate_range :
    LocalSequenceNumber → LocalSequenceNumber → Result (Unit {0}) SynchronizationProtocolError
validate_range first last =
    if ltb last.value first.value
    then err (SynchronizationProtocolError.invalid_sequence_range first.value last.value)
    else ok tt

unfoldable pub validate_boundary_sequences :
    LocalSequenceNumber
    → LocalSequenceNumber
    → LocalSequenceNumber
    → LocalSequenceNumber
    → Result (Unit {0}) SynchronizationProtocolError
validate_boundary_sequences declared_first declared_last actual_first actual_last =
    if not (declared_first.value == actual_first.value)
    then err (
        SynchronizationProtocolError.first_sequence_mismatch declared_first.value
          actual_first.value)
    else if not (declared_last.value == actual_last.value)
    then err
        (SynchronizationProtocolError.last_sequence_mismatch declared_last.value actual_last.value)
    else ok tt

-- The loop of `validate_increasing_sequences`, with its variable `previous`.
increasing_after :
    Option LocalSequenceNumber
    → List LocalSequenceNumber
    → Result (Unit {0}) SynchronizationProtocolError
increasing_after previous [] = ok tt
increasing_after none (current ∷ rest) = increasing_after (some current) rest
increasing_after (some previous) (current ∷ rest) =
    let continue = increasing_after (some current) rest in
    if leb current.value previous.value
    then err
        (SynchronizationProtocolError.entry_sequence_not_increasing previous.value current.value)
    else continue

unfoldable pub validate_increasing_sequences :
    List LocalSequenceNumber → Result (Unit {0}) SynchronizationProtocolError
unfolding increasing_after
validate_increasing_sequences sequences = increasing_after none sequences

-- `BTreeSet::insert` answers false where the set has the key.
abbrev has : List FareTransactionId → FareTransactionId → Bool
has [] id = false
has (x ∷ seen) id = id == x || has seen id

-- The loop over the entries' identities, with its set `transaction_ids`.
distinct_after :
    List FareTransactionId → List FareTransactionId → Result (Unit {0}) SynchronizationProtocolError
distinct_after transaction_ids [] = ok tt
distinct_after transaction_ids (id ∷ rest) =
    let continue = distinct_after (id ∷ transaction_ids) rest in
    if has transaction_ids id
    then err (SynchronizationProtocolError.duplicate_transaction id)
    else continue

module _ {Entry : Type 0} (id_of : Entry → FareTransactionId)
    (sequence_of : Entry → LocalSequenceNumber) where
  unfoldable pub validate_entries :
      LocalSequenceNumber
      → LocalSequenceNumber
      → List Entry
      → Result (Unit {0}) SynchronizationProtocolError
  unfolding validate_entry_count validate_range validate_boundary_sequences distinct_after
      validate_increasing_sequences
  validate_entries declared_first declared_last entries = do
    validate_entry_count (length entries)
    validate_range declared_first declared_last
    first_entry ← ok_or (first entries) SynchronizationProtocolError.empty_batch
    last_entry ← ok_or (last entries) SynchronizationProtocolError.empty_batch
    validate_boundary_sequences declared_first declared_last (sequence_of first_entry)
        (sequence_of last_entry)
    distinct_after [] (map id_of entries)
    validate_increasing_sequences (map sequence_of entries)

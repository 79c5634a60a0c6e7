-- ===== src/Protocol/Synchronization/Entries/Order.antt =====
-- Which sequences of entries the checks of Entries let through.
use transit_guard.Base.{ℕ, ◌+◌, ◌≤◌, ◌≡◌, refl, ◌↔◌, some, List, [], ◌∷◌, false, map, arith}
use transit_guard.Base.Result.{ok}
use transit_guard.Base.Sequence.{
  length, first, last, last_from, GrowsFrom, Grows, Avoids, AllDistinct, GrowsFrom-last,
}
use transit_guard.Domain.Identifier.{FareTransactionId}
use transit_guard.Domain.Transaction.{LocalSequenceNumber}
use transit_guard.Protocol.Synchronization.{max_synchronization_batch_entries}
use transit_guard.Protocol.Synchronization.Entries.{
  increasing_after, has, distinct_after, validate_entries,
}

abbrev pub numbers : List LocalSequenceNumber → List ℕ
numbers [] = []
numbers (s ∷ rest) = s.value ∷ numbers rest

-- No identity of a list is in a set.
abbrev Fresh : List FareTransactionId → List FareTransactionId → Type 0
Fresh seen [] = Unit
Fresh seen (id ∷ rest) = (has seen id ≡ false) × Fresh seen rest

Fresh-nil : (ids : List FareTransactionId) → Fresh [] ids
Fresh-nil [] = tt
Fresh-nil (id ∷ rest) = (refl, Fresh-nil rest)

Fresh-cons :
    (x : FareTransactionId) (seen ids : List FareTransactionId)
    → Fresh (x ∷ seen) ids ↔ (Avoids x ids × Fresh seen ids)
Fresh-cons x seen [] = (λ h. (tt, tt), λ h. tt)
Fresh-cons x seen (id ∷ rest) = ground (arith, Fresh-cons x seen rest)

distinct_after-ok_iff :
    (seen ids : List FareTransactionId)
    → (distinct_after seen ids ≡ ok tt) ↔ (Fresh seen ids × AllDistinct ids)
unfolding distinct_after
distinct_after-ok_iff seen [] = (λ h. (tt, tt), λ h. refl)
distinct_after-ok_iff seen (id ∷ rest) =
    ground (arith, distinct_after-ok_iff (id ∷ seen) rest, Fresh-cons id seen rest)

increasing_after-ok_iff :
    (previous : LocalSequenceNumber) (sequences : List LocalSequenceNumber)
    → (increasing_after (some previous) sequences ≡ ok tt)
      ↔ GrowsFrom previous.value (numbers sequences)
unfolding increasing_after
increasing_after-ok_iff previous [] = (λ h. tt, λ h. refl)
increasing_after-ok_iff previous (current ∷ rest) =
    ground (arith, increasing_after-ok_iff current rest)

-- What the checks ask of a batch: its size, its two ends, and the order of its entries.
pub record IsOrderedBatch (declared_first declared_last : LocalSequenceNumber)
    (ids : List FareTransactionId) (sequences : List LocalSequenceNumber) : Type 0 where
  pub nonempty : 1 ≤ length sequences
  pub bounded : length sequences ≤ max_synchronization_batch_entries
  pub starts : first sequences ≡ some declared_first
  pub ends : last sequences ≡ some declared_last
  pub grows : Grows (numbers sequences)
  pub distinct : AllDistinct ids

pub last_value :
    (s : LocalSequenceNumber) (rest : List LocalSequenceNumber)
    → last_from s.value (numbers rest) ≡ (last_from s rest).value
last_value s [] = refl
last_value s (x ∷ rest) = last_value x rest

pub length-numbers : (s : List LocalSequenceNumber) → length (numbers s) ≡ length s
length-numbers [] = refl
length-numbers (x ∷ rest) = omega (arith, length-numbers rest)

-- A batch has no more entries than its declared range has numbers.
pub IsOrderedBatch-span :
    {declared_first declared_last : LocalSequenceNumber} {ids : List FareTransactionId}
    (sequences : List LocalSequenceNumber)
    → IsOrderedBatch declared_first declared_last ids sequences
    → declared_first.value + length sequences ≤ declared_last.value + 1
IsOrderedBatch-span [] batch = absurd (omega (arith, batch.nonempty))
IsOrderedBatch-span (s ∷ rest) batch = ground (
  arith,
  batch.starts,
  batch.ends,
  GrowsFrom-last s.value (numbers rest),
  last_value s rest,
  length-numbers rest,
  batch.grows,
)

pub length-sequences :
    {Entry : Type 0} (sequence_of : Entry → LocalSequenceNumber) (entries : List Entry)
    → length (map sequence_of entries) ≡ length entries
length-sequences sequence_of [] = refl
length-sequences sequence_of (e ∷ rest) = omega (arith, length-sequences sequence_of rest)

module _ {Entry : Type 0} (id_of : Entry → FareTransactionId)
    (sequence_of : Entry → LocalSequenceNumber) where
  last-sequences :
      (e : Entry) (entries : List Entry)
      → last_from (sequence_of e) (map sequence_of entries) ≡ sequence_of (last_from e entries)
  last-sequences e [] = refl
  last-sequences e (x ∷ rest) = last-sequences x rest

  pub validate_entries-ok_iff :
      (declared_first declared_last : LocalSequenceNumber) (entries : List Entry)
      → (validate_entries id_of sequence_of declared_first declared_last entries ≡ ok tt)
        ↔ IsOrderedBatch declared_first declared_last (map id_of entries) (map sequence_of entries)
  unfolding validate_entries increasing_after
  validate_entries-ok_iff declared_first declared_last [] = (
    λ h. cc,
    λ (h : IsOrderedBatch declared_first declared_last [] []). absurd (omega (arith, h.nonempty)),
  )
  validate_entries-ok_iff declared_first declared_last (e ∷ rest) = ground (
    arith,
    distinct_after-ok_iff [] (id_of e ∷ map id_of rest),
    Fresh-nil (id_of e ∷ map id_of rest),
    increasing_after-ok_iff (sequence_of e) (map sequence_of rest),
    length-sequences sequence_of rest,
    last-sequences e rest,
    last_value (sequence_of e) (map sequence_of rest),
    GrowsFrom-last (sequence_of e).value (numbers (map sequence_of rest)),
  )

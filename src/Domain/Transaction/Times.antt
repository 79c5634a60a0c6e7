-- ===== src/Domain/Transaction/Times.antt =====
-- Differences of event times (crates/domain/src/transaction.rs): the unchecked subtraction that the
-- fare engine makes between two of them stays in the range of `i64`.
use transit_guard.Base.{ℕ, ◌≡◌, ◌-◌, arith}
use transit_guard.Base.Int.{
  pos_part, ◌-ℤ◌, ◌≤ℤ◌, InI64, unsigned_abs, wrap_i64, wrap_i64-eq_self, -ℤ_parts,
}
use transit_guard.Domain.Transaction.{EventTime, IsEventTime}

-- The milliseconds of a time that is not before the epoch.
abbrev pub millis : EventTime → ℕ
millis t = pos_part t.unix_milliseconds

module _ (later earlier : EventTime) (l : IsEventTime later) (e : IsEventTime earlier) where
  difference-InI64 : InI64 (later.unix_milliseconds -ℤ earlier.unix_milliseconds)
  difference-InI64 = ground (arith, -ℤ_parts later.unix_milliseconds earlier.unix_milliseconds)

  pub unsigned_abs-difference :
      earlier.unix_milliseconds ≤ℤ later.unix_milliseconds
      → unsigned_abs (wrap_i64 (later.unix_milliseconds -ℤ earlier.unix_milliseconds))
        ≡ millis later - millis earlier
  unfolding ◌-ℤ◌
  unsigned_abs-difference h = ground (
    arith,
    wrap_i64-eq_self (later.unix_milliseconds -ℤ earlier.unix_milliseconds) difference-InI64,
  )

-- ===== src/Domain/Money.antt =====
-- crates/domain/src/money.rs: currencies and monetary values in signed minor units. A value's
-- minor units are an `i64`: `IsMoney` is the range that the type gives for nothing.
pub mod Laws
use transit_guard.Base.{◌≡◌, Bool, Option, ite}
use transit_guard.Base.Tests.{if◌then◌else◌}
use transit_guard.Base.Result.{Result, ok, err, ◌>>=◌, ◌>>◌, ok_or}
use transit_guard.Base.Int.{ℤ, pos, ◌+ℤ◌, ◌-ℤ◌, ltb_ℤ, leb_ℤ, checked_i64, InI64}

pub data Currency : Type 0 where
  usd cad eur gbp : Currency

unfoldable pub Currency-discrete : Discrete Currency
Currency-discrete = hlevel

pub data MoneyOperation : Type 0 where
  addition subtraction negation : MoneyOperation

pub data MoneyError : Type 0 where
  currency_mismatch : Currency → Currency → MoneyError
  arithmetic_overflow : MoneyOperation → MoneyError

pub record Money : Type 0 where
  pub minor_units : ℤ
  pub currency : Currency

abbrev pub IsMoney : Money → Type 0
IsMoney m = InI64 m.minor_units

-- `core::cmp::Ordering`.
pub data CmpOrdering : Type 0 where
  less equal greater : CmpOrdering

abbrev pub cmp_ℤ : ℤ → ℤ → CmpOrdering
cmp_ℤ a b =
    if ltb_ℤ a b
    then CmpOrdering.less
    else if ltb_ℤ b a
    then CmpOrdering.greater
    else CmpOrdering.equal

abbrev pub from_minor_units : ℤ → Currency → Money
from_minor_units minor_units currency = record { minor_units = minor_units; currency = currency }

-- `Money::zero`.
abbrev pub zero_money : Currency → Money
zero_money currency = from_minor_units (pos 0) currency

abbrev pub is_positive : Money → Bool
is_positive m = ltb_ℤ (pos 0) m.minor_units

abbrev pub is_negative : Money → Bool
is_negative m = ltb_ℤ m.minor_units (pos 0)

ensure_same_currency : Money → Money → Result (Unit {0}) MoneyError
ensure_same_currency self other =
    ite (Currency-discrete self.currency other.currency) (ok tt)
      (err (MoneyError.currency_mismatch self.currency other.currency))

unfoldable pub checked_cmp : Money → Money → Result CmpOrdering MoneyError
unfolding ensure_same_currency
checked_cmp self other = do
  ensure_same_currency self other
  ok (cmp_ℤ self.minor_units other.minor_units)

unfoldable pub checked_add : Money → Money → Result Money MoneyError
unfolding ensure_same_currency
checked_add self other = do
  ensure_same_currency self other
  minor_units ←
      ok_or (checked_i64 (self.minor_units +ℤ other.minor_units))
        (MoneyError.arithmetic_overflow MoneyOperation.addition)
  ok (from_minor_units minor_units self.currency)

unfoldable pub checked_subtract : Money → Money → Result Money MoneyError
unfolding ensure_same_currency
checked_subtract self other = do
  ensure_same_currency self other
  minor_units ←
      ok_or (checked_i64 (self.minor_units -ℤ other.minor_units))
        (MoneyError.arithmetic_overflow MoneyOperation.subtraction)
  ok (from_minor_units minor_units self.currency)

unfoldable pub checked_negate : Money → Result Money MoneyError
checked_negate self = do
  minor_units ←
      ok_or (checked_i64 (pos 0 -ℤ self.minor_units))
        (MoneyError.arithmetic_overflow MoneyOperation.negation)
  ok (from_minor_units minor_units self.currency)

-- ===== src/Domain/Account/Ledger.antt =====
-- The stored value of a transit account (crates/domain/src/account.rs) under any sequence of calls.
use transit_guard.Base.{◌≡◌, ◌≢◌, refl, ap, ◌∙◌, ◌^◌, ◌↔◌, List, [], ◌∷◌, arith}
use transit_guard.Base.Result.{Result, ok, err}
use transit_guard.Base.Int.{ℤ, pos, ◌+ℤ◌, ◌-ℤ◌, ◌≤ℤ◌, ◌<ℤ◌, InI64, int_laws}
use transit_guard.Base.Machine.{run, run_inv, run_fixed}
use transit_guard.Domain.Money.{Money, IsMoney, Currency, checked_add, checked_subtract}
use transit_guard.Domain.Account.{
  TransitAccount, TransitAccountStatus, TransitAccountError, EligibilityClassification, AccountCall,
  credit, debit, credit_stored_value, debit_stored_value, suspend, reactivate, close,
  change_eligibility,
}

-- A call of one of the methods that take `&mut self`.
pub data AccountOp : Type 0 where
  credit_op debit_op : Money → AccountOp
  suspend_op reactivate_op close_op : AccountOp
  eligibility_op : EligibilityClassification → AccountOp

unfoldable pub step : AccountOp → TransitAccount → AccountCall
step (AccountOp.credit_op amount) a = credit_stored_value amount a
step (AccountOp.debit_op amount) a = debit_stored_value amount a
step AccountOp.suspend_op a = suspend a
step AccountOp.reactivate_op a = reactivate a
step AccountOp.close_op a = (ok tt, close a)
step (AccountOp.eligibility_op e) a = change_eligibility e a

abbrev pub balance : TransitAccount → ℤ
balance a = a.stored_value.amount.minor_units

abbrev pub currency_of : TransitAccount → Currency
currency_of a = a.stored_value.amount.currency

-- The balance is never negative, and fits its `i64`.
abbrev pub IsSolvent : TransitAccount → Type 0
IsSolvent a = (pos 0 ≤ℤ balance a) × InI64 (balance a)

-- The money that a call moved: the amount of a credit or debit that succeeded.
abbrev pub moved : AccountOp → Result (Unit {0}) TransitAccountError → ℤ
moved (AccountOp.credit_op amount) (ok _) = amount.minor_units
moved (AccountOp.debit_op amount) (ok _) = pos 0 -ℤ amount.minor_units
moved _ _ = pos 0

-- The money that a sequence of calls moves, each call at the account that it meets.
abbrev pub net : List AccountOp → TransitAccount → ℤ
net [] a = pos 0
net (op ∷ ops) a = moved op (step op a).0 +ℤ net ops (step op a).1

step-IsSolvent : (op : AccountOp) (a : TransitAccount) → IsSolvent a → IsSolvent (step op a).1
unfolding step credit_stored_value debit_stored_value suspend reactivate close change_eligibility
    credit debit checked_add checked_subtract ◌+ℤ◌ ◌-ℤ◌
step-IsSolvent (AccountOp.credit_op amount) a h = ground arith
step-IsSolvent (AccountOp.debit_op amount) a h = ground arith
step-IsSolvent AccountOp.suspend_op a h = ground arith
step-IsSolvent AccountOp.reactivate_op a h = ground arith
step-IsSolvent AccountOp.close_op a h = ground arith
step-IsSolvent (AccountOp.eligibility_op e) a h = ground arith

step-balance :
    (op : AccountOp) (a : TransitAccount)
    → (balance (step op a).1 ≡ balance a +ℤ moved op (step op a).0)
      × (currency_of (step op a).1 ≡ currency_of a)
unfolding step credit_stored_value debit_stored_value suspend reactivate close change_eligibility
    credit debit checked_add checked_subtract ◌+ℤ◌ ◌-ℤ◌
step-balance (AccountOp.credit_op amount) a = ground arith
step-balance (AccountOp.debit_op amount) a = ground arith
step-balance AccountOp.suspend_op a = ground arith
step-balance AccountOp.reactivate_op a = ground arith
step-balance AccountOp.close_op a = ground arith
step-balance (AccountOp.eligibility_op e) a = ground arith

+ℤ_assoc : (a b c : ℤ) → a +ℤ b +ℤ c ≡ a +ℤ (b +ℤ c)
+ℤ_assoc a b c = omega int_laws

run-balance :
    (ops : List AccountOp) (a : TransitAccount)
    → (balance (run step ops a) ≡ balance a +ℤ net ops a)
      × (currency_of (run step ops a) ≡ currency_of a)
unfolding run
run-balance [] a = (omega int_laws, refl)
run-balance (op ∷ ops) a =
    let (here, same) = step-balance op a in
    let (rest, kept) = run-balance ops (step op a).1 in
    (
      rest
          ∙ ap (λ x. x +ℤ net ops (step op a).1) here
          ∙ +ℤ_assoc (balance a) (moved op (step op a).0) (net ops (step op a).1),
      kept ∙ same,
    )

-- Whatever calls are made on an account with a balance of zero or more, the balance stays so and in
-- the range of `i64`, keeps its currency, and has moved by exactly the credits and debits that
-- succeeded.
pub run_accounts :
    (ops : List AccountOp) (a : TransitAccount)
    → IsSolvent a
    → IsSolvent (run step ops a)
      × (balance (run step ops a) ≡ balance a +ℤ net ops a)
      × (currency_of (run step ops a) ≡ currency_of a)
run_accounts ops a h =
    let (moved, kept) = run-balance ops a in
    (run_inv step IsSolvent step-IsSolvent ops a h, moved, kept)

-- On an account with a balance of zero or more, a debit of an `i64` amount succeeds exactly if the
-- account is active and the amount is positive, of the account's currency and covered by the
-- balance; a refused debit leaves the account as it was.
pub debit_iff :
    (amount : Money) (a : TransitAccount)
    → IsSolvent a
    → IsMoney amount
    → (((debit_stored_value amount a).0 ≡ ok tt) ↔ (
        (a.status ≡ TransitAccountStatus.active)
        × (currency_of a ≡ amount.currency)
        × (pos 0 <ℤ amount.minor_units)
        × (amount.minor_units ≤ℤ balance a)))
      × ((x : TransitAccountError)
          → (debit_stored_value amount a).0 ≡ err x
          → (debit_stored_value amount a).1 ≡ a)
unfolding debit_stored_value debit checked_subtract ◌-ℤ◌
debit_iff amount a h m = ((λ k. ground arith, λ k. ground arith), λ x k. ground arith)

-- On an account with a balance of zero or more, a credit of an `i64` amount succeeds exactly if the
-- account is not closed and the amount is positive, of the account's currency and below 2 ^ 63
-- together with the balance; a refused credit leaves the account as it was.
pub credit_iff :
    (amount : Money) (a : TransitAccount)
    → IsSolvent a
    → IsMoney amount
    → (((credit_stored_value amount a).0 ≡ ok tt) ↔ (
        (a.status ≢ TransitAccountStatus.closed)
        × (currency_of a ≡ amount.currency)
        × (pos 0 <ℤ amount.minor_units)
        × (balance a +ℤ amount.minor_units <ℤ pos (2 ^ 63))))
      × ((x : TransitAccountError)
          → (credit_stored_value amount a).0 ≡ err x
          → (credit_stored_value amount a).1 ≡ a)
unfolding credit_stored_value credit checked_add ◌+ℤ◌
credit_iff amount a h m = ((λ k. ground arith, λ k. ground arith), λ x k. ground arith)

step_closed :
    (op : AccountOp) (a : TransitAccount)
    → a.status ≡ TransitAccountStatus.closed
    → (step op a).1 ≡ a
unfolding step credit_stored_value debit_stored_value suspend reactivate close change_eligibility
step_closed (AccountOp.credit_op amount) a h = ground arith
step_closed (AccountOp.debit_op amount) a h = ground arith
step_closed AccountOp.suspend_op a h = ground arith
step_closed AccountOp.reactivate_op a h = ground arith
step_closed AccountOp.close_op a h = ground arith
step_closed (AccountOp.eligibility_op e) a h = ground arith

-- A closed account never changes again: neither its status nor its balance nor its eligibility.
pub run_closed :
    (ops : List AccountOp) (a : TransitAccount)
    → a.status ≡ TransitAccountStatus.closed
    → run step ops a ≡ a
run_closed ops a h = run_fixed step ops a (λ op. step_closed op a h)

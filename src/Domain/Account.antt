-- ===== src/Domain/Account.antt =====
-- crates/domain/src/account.rs: stored value and the transit account that owns it.
pub mod Ledger
use transit_guard.Base.{Bool, true, false}
use transit_guard.Base.Tests.{if◌then◌else◌}
use transit_guard.Base.Result.{Result, ok, err, Mutation, ◌>>=◌, map_err}
use transit_guard.Domain.Identifier.{TransitAccountId, RiderId}
use transit_guard.Domain.Money.{
  Currency, Money, MoneyError, zero_money, is_negative, is_positive, checked_add, checked_subtract,
}

pub data TransitAccountStatus : Type 0 where
  active suspended closed : TransitAccountStatus

pub data EligibilityClassification : Type 0 where
  standard youth senior reduced_fare employee_test_account : EligibilityClassification

pub data StoredValueError : Type 0 where
  negative_balance : Money → StoredValueError
  non_positive_credit : Money → StoredValueError
  non_positive_debit : Money → StoredValueError
  insufficient_stored_value : Money → Money → StoredValueError
  money : MoneyError → StoredValueError

-- The newtype over `Money`; `new_balance` and the operations keep it at zero or more.
pub record StoredValueBalance : Type 0 where
  pub amount : Money

unfoldable pub new_balance : Money → Result StoredValueBalance StoredValueError
new_balance amount =
    if is_negative amount
    then err (StoredValueError.negative_balance amount)
    else ok (record { amount = amount })

unfoldable pub zero_balance : Currency → StoredValueBalance
zero_balance currency = record { amount = zero_money currency }

-- A `?` that leaves the object as it was on an error, and stores the value otherwise.
abbrev store_balance :
    StoredValueBalance
    → Result Money StoredValueError
    → Mutation StoredValueBalance StoredValueError
store_balance self (ok updated) = (ok tt, record { amount = updated })
store_balance self (err e) = (err e, self)

unfoldable pub credit : Money → StoredValueBalance → Mutation StoredValueBalance StoredValueError
credit amount self =
    if is_positive amount
    then store_balance self (map_err StoredValueError.money (checked_add self.amount amount))
    else (err (StoredValueError.non_positive_credit amount), self)

-- The balance that `debit` would store.
debited : StoredValueBalance → Money → Result Money StoredValueError
debited self amount = do
  updated ← map_err StoredValueError.money (checked_subtract self.amount amount)
  if is_negative updated
      then err (StoredValueError.insufficient_stored_value self.amount amount)
      else ok updated

unfoldable pub debit : Money → StoredValueBalance → Mutation StoredValueBalance StoredValueError
unfolding debited
debit amount self =
    if is_positive amount
    then store_balance self (debited self amount)
    else (err (StoredValueError.non_positive_debit amount), self)

pub data TransitAccountError : Type 0 where
  account_not_active : TransitAccountStatus → TransitAccountError
  account_closed : TransitAccountError
  invalid_status_transition : TransitAccountStatus → TransitAccountStatus → TransitAccountError
  stored_value : StoredValueError → TransitAccountError

pub record TransitAccount : Type 0 where
  pub id : TransitAccountId
  pub rider_id : RiderId
  pub status : TransitAccountStatus
  pub eligibility : EligibilityClassification
  pub stored_value : StoredValueBalance

unfoldable pub new_account :
    TransitAccountId
    → RiderId
    → EligibilityClassification
    → Money
    → Result TransitAccount TransitAccountError
unfolding new_balance
new_account id rider_id eligibility initial_balance = do
  balance ← map_err TransitAccountError.stored_value (new_balance initial_balance)
  ok (record {
    id = id;
    rider_id = rider_id;
    status = TransitAccountStatus.active;
    eligibility = eligibility;
    stored_value = balance;
  })

abbrev pub status_is_active : TransitAccountStatus → Bool
status_is_active TransitAccountStatus.active = true
status_is_active _ = false

abbrev pub is_active : TransitAccount → Bool
is_active self = status_is_active self.status

abbrev pub AccountCall : Type 0
AccountCall = Mutation TransitAccount TransitAccountError

-- The balance after a call on `self.stored_value`, and the call's error wrapped by `From`.
abbrev with_balance : TransitAccount → Mutation StoredValueBalance StoredValueError → AccountCall
with_balance self (r, balance) =
    (map_err TransitAccountError.stored_value r, record self { stored_value = balance })

-- The tests on the status, as the statements `match` and `==` make them.
credit_on : TransitAccountStatus → Money → TransitAccount → AccountCall
credit_on TransitAccountStatus.closed amount self = (err TransitAccountError.account_closed, self)
credit_on _ amount self = with_balance self (credit amount self.stored_value)

unfoldable pub credit_stored_value : Money → TransitAccount → AccountCall
unfolding credit_on
credit_stored_value amount self = credit_on self.status amount self

debit_on : TransitAccountStatus → Money → TransitAccount → AccountCall
debit_on TransitAccountStatus.active amount self =
    with_balance self (debit amount self.stored_value)
debit_on status amount self = (err (TransitAccountError.account_not_active status), self)

unfoldable pub debit_stored_value : Money → TransitAccount → AccountCall
unfolding debit_on
debit_stored_value amount self = debit_on self.status amount self

suspend_on : TransitAccountStatus → TransitAccount → AccountCall
suspend_on TransitAccountStatus.active self =
    (ok tt, record self { status = TransitAccountStatus.suspended })
suspend_on TransitAccountStatus.suspended self = (ok tt, self)
suspend_on TransitAccountStatus.closed self = (
  err (
      TransitAccountError.invalid_status_transition TransitAccountStatus.closed
        TransitAccountStatus.suspended),
  self,
)

unfoldable pub suspend : TransitAccount → AccountCall
unfolding suspend_on
suspend self = suspend_on self.status self

reactivate_on : TransitAccountStatus → TransitAccount → AccountCall
reactivate_on TransitAccountStatus.active self = (ok tt, self)
reactivate_on TransitAccountStatus.suspended self =
    (ok tt, record self { status = TransitAccountStatus.active })
reactivate_on TransitAccountStatus.closed self = (
  err (
      TransitAccountError.invalid_status_transition TransitAccountStatus.closed
        TransitAccountStatus.active),
  self,
)

unfoldable pub reactivate : TransitAccount → AccountCall
unfolding reactivate_on
reactivate self = reactivate_on self.status self

unfoldable pub close : TransitAccount → TransitAccount
close self = record self { status = TransitAccountStatus.closed }

eligibility_on : TransitAccountStatus → EligibilityClassification → TransitAccount → AccountCall
eligibility_on TransitAccountStatus.closed e self = (err TransitAccountError.account_closed, self)
eligibility_on _ e self = (ok tt, record self { eligibility = e })

unfoldable pub change_eligibility : EligibilityClassification → TransitAccount → AccountCall
unfolding eligibility_on
change_eligibility e self = eligibility_on self.status e self

-- ===== src/Domain/Examples.antt =====
-- A rider's account and one fare transaction.
mod Lifecycles
use transit_guard.Base.{◌/◌, ◌%◌, ◌≡◌, ◌≢◌, refl, ◌↔◌, ◌^◌, some, none, List, [], ◌∷◌, arith}
use transit_guard.Base.Result.{ok, err}
use transit_guard.Base.Int.{ℤ, pos, negsuc, ◌≤ℤ◌, ◌<ℤ◌, ◌+ℤ◌, ◌-ℤ◌}
use transit_guard.Base.Machine.{run}
use transit_guard.Base.Tests.{◌==◌, if◌then◌else◌}
use Prim.Native.String.{compare}
use text.Mathlib.Text.{is_eq}
use transit_guard.Domain.Identifier.{Uuid, UuidCrate, from_str}
use transit_guard.Domain.Identifier.Parsing.{IsIdentifier, from_str-ok_iff, from_str-to_string}
use transit_guard.Domain.Money.{
  Money, Currency, Currency-discrete, CmpOrdering, from_minor_units, checked_add, checked_subtract,
  checked_cmp,
}
use transit_guard.Domain.Money.Laws.{add-subtract, checked_cmp_iff}
use transit_guard.Domain.Transaction
use transit_guard.Domain.Transaction.{
  FareTransaction, FareTransactionStatus, FareTransactionError, FareDecision, FareProcessingMode,
  FareApprovalReason, FareRejectionReason, new_pending_transaction, record_decision,
  mark_reconciled,
}
use transit_guard.Domain.Transaction.Lifecycle.{
  TransactionOp, run_transaction-IsConsistent, run_decision_final, record_decision_cases,
  mark_reconciled_iff,
}
use transit_guard.Domain.Account.{
  TransitAccount, TransitAccountStatus, TransitAccountError, EligibilityClassification,
  credit_stored_value, debit_stored_value,
}
use transit_guard.Domain.Account.Ledger
use transit_guard.Domain.Account.Ledger.{
  AccountOp, IsSolvent, balance, currency_of, net, run_accounts, debit_iff, credit_iff, run_closed,
}
use transit_guard.Domain.Event.{DomainEventPayload, DomainEvent, aggregate_of, new_event}
use transit_guard.Domain.Event.Payloads.{IsChange, new_event_iff}

abbrev usd : ℤ → Money
usd minor_units = from_minor_units minor_units Currency.usd

abbrev account : TransitAccount
account = record {
  id = 1;
  rider_id = 2;
  status = TransitAccountStatus.active;
  eligibility = EligibilityClassification.youth;
  stored_value = record { amount = usd (pos 500) };
}

-- A debit too large, one that succeeds, and a credit after the account was suspended.
abbrev account_calls : List AccountOp
account_calls =
    AccountOp.debit_op (usd (pos 900))
    ∷ AccountOp.debit_op (usd (pos 150))
    ∷ AccountOp.suspend_op
    ∷ AccountOp.credit_op (usd (pos 50))
    ∷ []

run_accounts_example :
    IsSolvent (run Ledger.step account_calls account)
    × (balance (run Ledger.step account_calls account) ≡ pos 500 +ℤ net account_calls account)
    × (currency_of (run Ledger.step account_calls account) ≡ Currency.usd)
run_accounts_example = run_accounts account_calls account (ground arith)

abbrev closed_account : TransitAccount
closed_account = record account { status = TransitAccountStatus.closed }

abbrev charge : FareDecision
charge = FareDecision.approved (usd (pos 150)) FareApprovalReason.fare_cap

abbrev refusal : FareDecision
refusal = FareDecision.rejected FareRejectionReason.stale_policy

abbrev transaction_calls : List TransactionOp
transaction_calls =
    TransactionOp.reconcile_op
    ∷ TransactionOp.record_op charge
    ∷ TransactionOp.record_op refusal
    ∷ TransactionOp.reconcile_op
    ∷ []

abbrev decided_transaction : FareTransaction
decided_transaction = record {
  id = 10;
  transit_account_id = 1;
  fare_credential_id = 3;
  reader_id = 5;
  local_sequence_number = record { value = 1 };
  fare_policy_version = record { value = 3 };
  event_time = record { unix_milliseconds = pos 10_000_000 };
  processing_mode = FareProcessingMode.online;
  status = FareTransactionStatus.decided;
  decision = some charge;
}

run_decision_final_example :
    (run Transaction.Lifecycle.step transaction_calls decided_transaction).decision ≡ some charge
run_decision_final_example = run_decision_final transaction_calls decided_transaction charge refl

abbrev suspension : DomainEventPayload
suspension =
    DomainEventPayload.transit_account_status_changed 1 TransitAccountStatus.active
      TransitAccountStatus.suspended

abbrev suspension_event : DomainEvent
suspension_event = record {
  id = 40;
  aggregate_id = aggregate_of suspension;
  aggregate_version = record { value = 2 };
  occurred_at = record { unix_milliseconds = pos 10_000_000 };
  payload = suspension;
}

new_event_iff_example :
    (new_event 40 (record { value = 2 }) (record { unix_milliseconds = pos 10_000_000 }) suspension
      ≡ ok suspension_event)
    ↔ (IsChange suspension × (suspension_event ≡ suspension_event))
new_event_iff_example =
    new_event_iff 40 (record { value = 2 }) (record { unix_milliseconds = pos 10_000_000 })
      suspension suspension_event

-- The `uuid` crate on one version 7 UUID: the variant and the version are read from its bits.
abbrev sample_uuid : Uuid
sample_uuid = 0x0190163d_8694_739b_aea5_966c26f8ad91

abbrev sample_crate : UuidCrate
sample_crate = record {
  is_nil = λ value. value == 0;
  is_rfc4122 = λ value. value / 2 ^ 62 % 4 == 2;
  is_sort_rand = λ value. value / 2 ^ 76 % 16 == 7;
  parse_str = λ text.
      if is_eq (compare text "0190163d-8694-739b-aea5-966c26f8ad91")
      then ok sample_uuid
      else err "invalid";
  to_string = λ value. "0190163d-8694-739b-aea5-966c26f8ad91";
}

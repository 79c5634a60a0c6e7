-- ===== src/Domain/Transaction.antt =====
-- crates/domain/src/transaction.rs: event times, sequence numbers, fare decisions and the life of a
-- fare transaction. The numeric newtypes are their numbers; `EventTime::from_unix_milliseconds` and
-- the `new` functions are the only ways to make one.
pub mod Times
pub mod Lifecycle
use transit_guard.Base.{ℕ, Option, some, none, ite, ℕ_discrete}
use transit_guard.Base.Tests.{if◌then◌else◌, ◌==◌}
use transit_guard.Base.Result.{Result, ok, err, Mutation}
use transit_guard.Base.Int.{ℤ, pos, ltb_ℤ, ◌≤ℤ◌, InI64}
use transit_guard.Domain.Identifier.{
  FareTransactionId, TransitAccountId, FareCredentialId, ReaderId,
}
use transit_guard.Domain.Money.{Money, is_negative}

pub data FareTransactionValueError : Type 0 where
  zero_local_sequence_number : FareTransactionValueError
  zero_fare_policy_version : FareTransactionValueError
  negative_event_time : ℤ → FareTransactionValueError

pub record LocalSequenceNumber : Type 0 where
  pub value : ℕ

unfoldable pub new_sequence_number : ℕ → Result LocalSequenceNumber FareTransactionValueError
new_sequence_number value =
    if value == 0
    then err FareTransactionValueError.zero_local_sequence_number
    else ok (record { value = value })

pub record FarePolicyVersion : Type 0 where
  pub value : ℕ

unfoldable pub new_policy_version : ℕ → Result FarePolicyVersion FareTransactionValueError
new_policy_version value =
    if value == 0
    then err FareTransactionValueError.zero_fare_policy_version
    else ok (record { value = value })

pub record EventTime : Type 0 where
  pub unix_milliseconds : ℤ

unfoldable pub from_unix_milliseconds : ℤ → Result EventTime FareTransactionValueError
from_unix_milliseconds unix_milliseconds =
    if ltb_ℤ unix_milliseconds (pos 0)
    then err (FareTransactionValueError.negative_event_time unix_milliseconds)
    else ok (record { unix_milliseconds = unix_milliseconds })

-- What the constructor and the type `i64` guarantee of an event time.
abbrev pub IsEventTime : EventTime → Type 0
IsEventTime t = (pos 0 ≤ℤ t.unix_milliseconds) × InI64 t.unix_milliseconds

pub data FareProcessingMode : Type 0 where
  online offline : FareProcessingMode

pub data FareApprovalReason : Type 0 where
  standard_fare transfer transit_product fare_cap offline_provisional : FareApprovalReason

pub data FareRejectionReason : Type 0 where
  credential_revoked credential_expired account_suspended reader_disabled : FareRejectionReason
  invalid_signature unsupported_protocol insufficient_stored_value : FareRejectionReason
  product_invalid offline_limit_exceeded stale_policy stale_revocation_data : FareRejectionReason

pub data FareDecisionError : Type 0 where
  negative_approved_amount : Money → FareDecisionError

pub data FareDecision : Type 0 where
  approved : Money → FareApprovalReason → FareDecision
  rejected : FareRejectionReason → FareDecision

-- The derived `PartialEq`.
unfoldable pub FareDecision-discrete : Discrete FareDecision
FareDecision-discrete = hlevel ℕ_discrete

-- `FareDecision::approved`, the checked constructor.
unfoldable pub approved_decision :
    Money → FareApprovalReason → Result FareDecision FareDecisionError
approved_decision charged_amount reason =
    if is_negative charged_amount
    then err (FareDecisionError.negative_approved_amount charged_amount)
    else ok (FareDecision.approved charged_amount reason)

abbrev pub charged_amount_of : FareDecision → Option Money
charged_amount_of (FareDecision.approved charged_amount _) = some charged_amount
charged_amount_of (FareDecision.rejected _) = none

pub data FareTransactionStatus : Type 0 where
  pending_decision decided reconciled : FareTransactionStatus

pub data FareTransactionError : Type 0 where
  decision_conflict : FareDecision → FareDecision → FareTransactionError
  cannot_reconcile_undecided : FareTransactionStatus → FareTransactionError

pub record FareTransaction : Type 0 where
  pub id : FareTransactionId
  pub transit_account_id : TransitAccountId
  pub fare_credential_id : FareCredentialId
  pub reader_id : ReaderId
  pub local_sequence_number : LocalSequenceNumber
  pub fare_policy_version : FarePolicyVersion
  pub event_time : EventTime
  pub processing_mode : FareProcessingMode
  pub status : FareTransactionStatus
  pub decision : Option FareDecision

unfoldable pub new_pending_transaction :
    FareTransactionId
    → TransitAccountId
    → FareCredentialId
    → ReaderId
    → LocalSequenceNumber
    → FarePolicyVersion
    → EventTime
    → FareProcessingMode
    → FareTransaction
new_pending_transaction id account credential reader sequence policy_version event_time mode =
    record {
      id = id;
      transit_account_id = account;
      fare_credential_id = credential;
      reader_id = reader;
      local_sequence_number = sequence;
      fare_policy_version = policy_version;
      event_time = event_time;
      processing_mode = mode;
      status = FareTransactionStatus.pending_decision;
      decision = none;
    }

-- `FareTransaction::charged_amount`.
unfoldable pub transaction_charged_amount : FareTransaction → Option Money
transaction_charged_amount t = elim t.decision [ some d ↦ charged_amount_of d | none ↦ none ]

-- The `match self.decision` of `record_decision`.
record_on :
    Option FareDecision
    → FareDecision
    → FareTransaction
    → Mutation FareTransaction FareTransactionError
record_on (some existing) requested t =
    ite (FareDecision-discrete existing requested) (ok tt, t)
      (err (FareTransactionError.decision_conflict existing requested), t)
record_on none requested t =
    (ok tt, record t { decision = some requested; status = FareTransactionStatus.decided })

unfoldable pub record_decision :
    FareDecision → FareTransaction → Mutation FareTransaction FareTransactionError
unfolding record_on
record_decision requested t = record_on t.decision requested t

-- The `match self.status` of `mark_reconciled`.
reconcile_on :
    FareTransactionStatus → FareTransaction → Mutation FareTransaction FareTransactionError
reconcile_on FareTransactionStatus.pending_decision t =
    (err (FareTransactionError.cannot_reconcile_undecided t.status), t)
reconcile_on FareTransactionStatus.decided t =
    (ok tt, record t { status = FareTransactionStatus.reconciled })
reconcile_on FareTransactionStatus.reconciled t = (ok tt, t)

unfoldable pub mark_reconciled : FareTransaction → Mutation FareTransaction FareTransactionError
unfolding reconcile_on
mark_reconciled t = reconcile_on t.status t

-- ===== src/Domain/Transaction/Lifecycle.antt =====
-- The life of a fare transaction (crates/domain/src/transaction.rs): one decision, then one
-- reconciliation.
use transit_guard.Base.{◌≡◌, ◌≢◌, refl, ◌↔◌, some, none, List, arith}
use transit_guard.Base.Result.{ok, err, Mutation}
use transit_guard.Base.Machine.{run, run_inv}
use transit_guard.Domain.Identifier.{
  FareTransactionId, TransitAccountId, FareCredentialId, ReaderId,
}
use transit_guard.Domain.Transaction.{
  FareTransaction, FareTransactionStatus, FareTransactionError, FareDecision, FareProcessingMode,
  LocalSequenceNumber, FarePolicyVersion, EventTime, new_pending_transaction, record_decision,
  mark_reconciled,
}

-- A call of one of the methods that take `&mut self`.
pub data TransactionOp : Type 0 where
  record_op : FareDecision → TransactionOp
  reconcile_op : TransactionOp

unfoldable pub step :
    TransactionOp → FareTransaction → Mutation FareTransaction FareTransactionError
step (TransactionOp.record_op d) t = record_decision d t
step TransactionOp.reconcile_op t = mark_reconciled t

-- A transaction is pending exactly while it has no decision.
abbrev pub IsConsistent : FareTransaction → Type 0
IsConsistent t = (t.status ≡ FareTransactionStatus.pending_decision) ↔ (t.decision ≡ none)

new_pending-IsConsistent :
    (id : FareTransactionId) (account : TransitAccountId) (credential : FareCredentialId)
    (reader : ReaderId) (sequence : LocalSequenceNumber) (version : FarePolicyVersion)
    (time : EventTime) (mode : FareProcessingMode)
    → IsConsistent (new_pending_transaction id account credential reader sequence version time mode)
unfolding new_pending_transaction
new_pending-IsConsistent id account credential reader sequence version time mode =
    (λ h. refl, λ h. refl)

step-IsConsistent :
    (op : TransactionOp) (t : FareTransaction) → IsConsistent t → IsConsistent (step op t).1
unfolding step record_decision mark_reconciled
step-IsConsistent (TransactionOp.record_op d) t h = (λ k. ground arith, λ k. ground arith)
step-IsConsistent TransactionOp.reconcile_op t h = (λ k. ground arith, λ k. ground arith)

-- Whatever calls are made on a new fare transaction, it is pending exactly while it has no decision.
pub run_transaction-IsConsistent :
    (ops : List TransactionOp) (id : FareTransactionId) (account : TransitAccountId)
    (credential : FareCredentialId) (reader : ReaderId) (sequence : LocalSequenceNumber)
    (version : FarePolicyVersion) (time : EventTime) (mode : FareProcessingMode)
    → IsConsistent (
        run step ops
          (new_pending_transaction id account credential reader sequence version time mode))
run_transaction-IsConsistent ops id account credential reader sequence version time mode =
    run_inv step IsConsistent step-IsConsistent ops
      (new_pending_transaction id account credential reader sequence version time mode)
      (new_pending-IsConsistent id account credential reader sequence version time mode)

-- The decision is the given one, and a reconciled transaction stays reconciled.
abbrev Settled : FareDecision → FareTransaction → Type 0
Settled d t = t.decision ≡ some d

step-Settled :
    (d : FareDecision) (op : TransactionOp) (t : FareTransaction)
    → Settled d t
    → Settled d (step op t).1
unfolding step record_decision mark_reconciled
step-Settled d (TransactionOp.record_op e) t h = ground arith
step-Settled d TransactionOp.reconcile_op t h = ground arith

-- A recorded decision is never changed by any sequence of calls.
pub run_decision_final :
    (ops : List TransactionOp) (t : FareTransaction) (d : FareDecision)
    → t.decision ≡ some d
    → (run step ops t).decision ≡ some d
run_decision_final ops t d h = run_inv step (Settled d) (step-Settled d) ops t h

-- Recording a decision: an undecided transaction takes it and becomes decided; the decision that it
-- already has is accepted with no change; any other is refused as a conflict between the two, with
-- no change.
pub record_decision_cases :
    (t : FareTransaction) (d : FareDecision)
    → (t.decision ≡ none
        → record_decision d t
          ≡ (ok tt, record t { decision = some d; status = FareTransactionStatus.decided }))
      × (t.decision ≡ some d → record_decision d t ≡ (ok tt, t))
      × ((e : FareDecision)
          → t.decision ≡ some e
          → e ≢ d
          → record_decision d t ≡ (err (FareTransactionError.decision_conflict e d), t))
unfolding record_decision
record_decision_cases t d = (λ h. ground arith, λ h. ground arith, λ e h ne. ground arith)

-- Reconciliation of a consistent transaction succeeds exactly when a decision is recorded, and then
-- the transaction is reconciled with that decision; a refusal leaves it as it was.
pub mark_reconciled_iff :
    (t : FareTransaction)
    → IsConsistent t
    → (((mark_reconciled t).0 ≡ ok tt) ↔ (t.decision ≢ none))
      × ((mark_reconciled t).0 ≡ ok tt
          → ((mark_reconciled t).1.status ≡ FareTransactionStatus.reconciled)
            × ((mark_reconciled t).1.decision ≡ t.decision))
      × (t.decision ≡ none → (mark_reconciled t).1 ≡ t)
unfolding mark_reconciled
mark_reconciled_iff t c =
    ((λ h. ground arith, λ h. ground arith), λ h. ground arith, λ h. ground arith)

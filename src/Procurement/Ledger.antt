-- ===== src/Procurement/Ledger.antt =====
-- packages/procurement/src/ledger.ts: the ledger as `MemoryLedger` keeps it. `persist` does
-- nothing there; the JSON file of `JsonFileLedger` is not modelled.
use ligis.Prelude.{List, [], Option, ◌==◌, Table, get, put, values, filter}
use ligis.Procurement.Types.{
  Text, PurchaseOrder, Mandate, PaymentRequest, PaymentAttempt, Approval, Decision,
}

pub record StoredDecision : Type 0 where
  pub decision : Decision
  pub request : PaymentRequest

pub record LedgerState : Type 0 where
  pub orders : Table PurchaseOrder
  pub mandates : Table Mandate
  pub attempts : Table PaymentAttempt
  pub decisions : Table StoredDecision
  pub approvals : Table Approval

abbrev pub empty_state : LedgerState
empty_state = record { orders = []; mandates = []; attempts = []; decisions = []; approvals = [] }

abbrev pub put_order : PurchaseOrder → LedgerState → LedgerState
put_order order s = record s { orders = put order.order_id order s.orders }

abbrev pub get_order : Text → LedgerState → Option PurchaseOrder
get_order i s = get i s.orders

abbrev pub put_mandate : Mandate → LedgerState → LedgerState
put_mandate mandate s = record s { mandates = put mandate.mandate_id mandate s.mandates }

abbrev pub get_mandate : Text → LedgerState → Option Mandate
get_mandate i s = get i s.mandates

abbrev pub put_attempt : PaymentAttempt → LedgerState → LedgerState
put_attempt attempt s = record s { attempts = put attempt.attempt_id attempt s.attempts }

abbrev pub get_attempt : Text → LedgerState → Option PaymentAttempt
get_attempt i s = get i s.attempts

abbrev pub attempts_for_order : Text → LedgerState → List PaymentAttempt
attempts_for_order i s = filter (λ a. a.order_id == i) (values s.attempts)

abbrev pub put_decision : Decision → PaymentRequest → LedgerState → LedgerState
put_decision decision request s = record s {
  decisions =
      put decision.decision_id (record { decision = decision; request = request }) s.decisions;
}

abbrev pub get_decision : Text → LedgerState → Option StoredDecision
get_decision i s = get i s.decisions

abbrev pub put_approval : Approval → LedgerState → LedgerState
put_approval approval s = record s { approvals = put approval.approval_id approval s.approvals }

abbrev pub get_approval : Text → LedgerState → Option Approval
get_approval i s = get i s.approvals

abbrev pub approvals : LedgerState → List Approval
approvals s = values s.approvals

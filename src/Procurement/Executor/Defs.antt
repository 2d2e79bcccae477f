-- ===== src/Procurement/Executor/Defs.antt =====
-- The methods of `ProcurementExecutor`, over a ledger and a rail. A JavaScript list of attempts
-- holds references to the ledger's own objects, so a loop reads each object where it is used. The
-- ids that `randomUUID` draws and the instants that `now` reads are arguments. `pay` runs under a
-- lock for its mandate, and is modelled as one step.
use ligis.Prelude.{
  ℕ, ◌+◌, ◌-◌, Bool, true, false, not, ◌&&◌, Option, none, some, List, [], ◌∷◌, ◌==◌, if◌then◌else◌,
  filter, find, last?,
}
use ligis.Procurement.Types.{
  Text, Instant, Mandate, PurchaseOrder, PaymentRequest, PaymentAttempt, AttemptState, Approval,
  Decision, Verdict, CheckId, CheckResult, is_unresolved, is_cancelled,
}
use ligis.Procurement.Controller.Defs.{
  SupplierIdentity, RailFingerprint, EvaluateContext, Evidence, approval_covers, evaluate,
}
use ligis.Procurement.Ledger.{
  LedgerState, get_order, get_mandate, put_mandate, get_attempt, put_attempt, attempts_for_order,
  put_decision, get_decision, put_approval, approvals,
}
use ligis.Procurement.Rail.{
  TransferHandle, RailException, RailResult, PayoutRail, map_transfer_status, is_definite_rejection,
  truthy,
}

pub record World (R : Type 0) : Type 0 where
  pub ledger : LedgerState
  pub rail : R

unfoldable pub release_commitment : PaymentAttempt → LedgerState → LedgerState
release_commitment attempt l = elim (get_order attempt.order_id l) [
  | none ↦ l
  | some order ↦ elim (get_mandate order.mandate_id l) [
    | none ↦ l
    | some m ↦ put_mandate (record m { committed = m.committed - attempt.amount.amount }) l
  ]
]

-- The attempt with the state that the rail reports; its failure is noted if it was cancelled.
unfoldable pub with_status : Instant → PaymentAttempt → TransferHandle → PaymentAttempt
with_status now a t =
    let next = map_transfer_status t.status in
    if is_cancelled next
    then record a {
      state = next;
      failure_type = t.failure_type;
      failure_reason = t.failure_reason;
      updated_at = some now;
    }
    else record a { state = next; updated_at = some now }

unfoldable pub apply_status :
    Instant → PaymentAttempt → TransferHandle → LedgerState → PaymentAttempt × LedgerState
apply_status now a t l =
    let a' = with_status now a t in
    let released =
      if is_cancelled a'.state && not (is_cancelled a.state) then release_commitment a' l else l in
    (a', put_attempt a' released)

-- What a refresh makes of the rail's answer to `getTransfer`, and to `findByRequestId`. Any
-- exception leaves the attempt as it is.
module _ {R : Type 0} where
  unfoldable pub after_get :
      Instant
      → PaymentAttempt
      → LedgerState
      → RailResult TransferHandle × R
      → PaymentAttempt × World R
  after_get now a l (RailResult.ok t, r) =
      let (a', l') = apply_status now a t l in (a', record { ledger = l'; rail = r })
  after_get now a l (RailResult.throws _, r) = (a, record { ledger = l; rail = r })

  unfoldable pub after_find :
      Instant
      → PaymentAttempt
      → LedgerState
      → RailResult (Option TransferHandle) × R
      → PaymentAttempt × World R
  after_find now a l (RailResult.ok (some t), r) =
      let (a', l') = apply_status now (record a { transfer_id = some t.transfer_id }) t l in
      (a', record { ledger = l'; rail = r })
  after_find now a l (RailResult.ok none, r) = (a, record { ledger = l; rail = r })
  after_find now a l (RailResult.throws _, r) = (a, record { ledger = l; rail = r })

module _ {R : Type 0} (rail : PayoutRail R) where
  unfoldable pub refresh_attempt : Instant → PaymentAttempt → World R → PaymentAttempt × World R
  refresh_attempt now a w = elim (truthy a.transfer_id) [
    | some tid ↦ after_get now a w.ledger (rail.get_transfer tid w.rail)
    | none ↦ after_find now a w.ledger (rail.find_by_request_id a.airwallex_request_id w.rail)
  ]

  -- One round of the loop of `reconcileOrder`.
  unfoldable pub reconcile_one : Instant → PaymentAttempt → World R → World R
  reconcile_one now listed w = elim (get_attempt listed.attempt_id w.ledger) [
    | none ↦ w
    | some a ↦ if is_unresolved a.state then (refresh_attempt now a w).1 else w
  ]

  unfoldable pub reconcile_all : Instant → List PaymentAttempt → World R → World R
  reconcile_all now [] w = w
  reconcile_all now (a ∷ as') w = reconcile_all now as' (reconcile_one now a w)

  unfoldable pub reconcile_order : Instant → Text → World R → World R
  reconcile_order now order_id w = reconcile_all now (attempts_for_order order_id w.ledger) w

  -- `none` for the exception "attempt … not found".
  unfoldable pub reconcile : Instant → Text → World R → Option (PaymentAttempt × World R)
  reconcile now attempt_id w = elim (get_attempt attempt_id w.ledger) [
    | none ↦ none
    | some a ↦ some (refresh_attempt now a w)
  ]

pub record Ids : Type 0 where
  pub decision : Text
  pub attempt : Text
  pub request : Text

pub record Instants : Type 0 where
  pub reconciled : Instant
  pub decided : Instant
  pub created : Instant
  pub settled : Instant

pub record PayResult : Type 0 where
  pub decision : Decision
  pub executed : Bool
  pub attempt : Option PaymentAttempt

-- The approval that `pay` looks up among all of the ledger's.
abbrev pub approval_for : PaymentRequest → LedgerState → Option Approval
approval_for req l = find (λ a. approval_covers a req) (approvals l)

abbrev pub mandate_for : Option PurchaseOrder → LedgerState → Option Mandate
mandate_for none l = none
mandate_for (some order) l = get_mandate order.mandate_id l

-- The cancelled attempt of the invoice that a new one replaces.
abbrev replaced : PaymentRequest → List PaymentAttempt → Option Text
replaced req attempts =
    elim (last? (filter (λ a. a.invoice_ref == req.invoice_ref && is_cancelled a.state) attempts)) [
      | none ↦ none
      | some a ↦ some a.attempt_id
    ]

abbrev pub new_attempt : Ids → Instants → PaymentRequest → List PaymentAttempt → PaymentAttempt
new_attempt ids times req attempts = record {
  attempt_id = ids.attempt;
  order_id = req.order_id;
  invoice_ref = req.invoice_ref;
  decision_id = ids.decision;
  airwallex_request_id = ids.request;
  transfer_id = none;
  state = AttemptState.submitted;
  amount = req.amount;
  failure_type = none;
  failure_reason = none;
  replaces = replaced req attempts;
  created_at = some times.created;
  updated_at = some times.created;
}

abbrev pub use_approval : Option Approval → LedgerState → LedgerState
use_approval none l = l
use_approval (some a) l = put_approval (record a { used = true }) l

abbrev pub commit : Option Mandate → ℕ → LedgerState → LedgerState
commit none amount l = l
commit (some m) amount l = put_mandate (record m { committed = m.committed + amount }) l

-- The code in "rejected by rail: …".
abbrev rejection_code : RailException → Option Text
rejection_code (RailException.rail_error code _) = some code
rejection_code RailException.other_error = none

-- What `pay` makes of the rail's answer to `createTransfer`: the attempt and the ledger.
unfoldable pub settle :
    Instant
    → PaymentAttempt
    → RailResult TransferHandle
    → LedgerState
    → PaymentAttempt × LedgerState
settle now a (RailResult.ok t) l =
    let a' = record a {
      transfer_id = some t.transfer_id;
      state = map_transfer_status t.status;
      updated_at = some now;
    } in
    (a', put_attempt a' l)
settle now a (RailResult.throws e) l =
    if is_definite_rejection e
    then (let a' = record a {
      state = AttemptState.cancelled;
      failure_reason = rejection_code e;
      updated_at = some now;
    } in
        (a', put_attempt a' (release_commitment a' l)))
    else (let a' = record a { state = AttemptState.unknown; updated_at = some now } in
        (a', put_attempt a' l))

-- What the executor is built with: the rail, and the optional verifier of suppliers.
pub record ExecutorDeps (R : Type 0) : Type 0 where
  pub rail : PayoutRail R
  pub supplier_verifier : Option (PaymentRequest → SupplierIdentity)

abbrev identify :
    Option (PaymentRequest → SupplierIdentity) → PaymentRequest → Option SupplierIdentity
identify none req = none
identify (some verifier) req = some (verifier req)

module _ {R : Type 0} (deps : ExecutorDeps R) where
  -- The fingerprint that the rail holds for the order's beneficiary; any exception is `null`.
  unfoldable pub rail_fingerprint : Option PurchaseOrder → R → RailFingerprint × R
  rail_fingerprint none r = (RailFingerprint.unchecked, r)
  rail_fingerprint (some order) r =
      let (answer, r') = deps.rail.get_beneficiary_fingerprint order.supplier.beneficiary_id r in
      elim answer [
        | RailResult.ok fp ↦ (RailFingerprint.found fp, r')
        | RailResult.throws _ ↦ (RailFingerprint.lookup_failed, r')
      ]

  -- What `pay` evaluates the request against, after it has reconciled the order.
  unfoldable pub context_for : Instant → PaymentRequest → World R → EvaluateContext × R
  context_for now req w =
      let order = get_order req.order_id w.ledger in
      let (fp, r) = rail_fingerprint order w.rail in
      (
        record {
          order = order;
          mandate = mandate_for order w.ledger;
          attempts = attempts_for_order req.order_id w.ledger;
          approval = approval_for req w.ledger;
          supplier_identity = identify deps.supplier_verifier req;
          rail_destination_fingerprint = fp;
          now = now;
        },
        r,
      )

  -- The part of `pay` behind a GO: record the attempt, use the approval, commit the amount, and
  -- ask the rail for the transfer.
  unfoldable pub execute :
      Ids
      → Instants
      → PaymentRequest
      → PurchaseOrder
      → EvaluateContext
      → World R
      → PaymentAttempt × World R
  execute ids times req order ctx w =
      let a = new_attempt ids times req ctx.attempts in
      let l =
        commit ctx.mandate req.amount.amount (use_approval ctx.approval (put_attempt a w.ledger)) in
      let (answer, r) =
        deps.rail.create_transfer
          (record {
            request_id = ids.request;
            beneficiary_id = order.supplier.beneficiary_id;
            amount = req.amount;
            reference = req.invoice_ref;
            reason = (elim req.reason [ some t ↦ t | none ↦ order.purpose ]);
          })
          w.rail in
      let (a', l') = settle times.settled a answer l in (a', record { ledger = l'; rail = r })

  -- What follows the decision. A GO has an order; the case without one, where `order!` would
  -- throw, does nothing.
  unfoldable pub finish :
      Ids
      → Instants
      → PaymentRequest
      → EvaluateContext
      → Decision
      → World R
      → Verdict
      → Option PurchaseOrder
      → PayResult × World R
  finish ids times req ctx decision w Verdict.go (some order) =
      let (a, w') = execute ids times req order ctx w in
      (record { decision = decision; executed = true; attempt = some a }, w')
  finish ids times req ctx decision w _ _ =
      (record { decision = decision; executed = false; attempt = none }, w)

module _ {R : Type 0} (deps : ExecutorDeps R) (sha256 : Evidence → Text) where
  unfoldable pub pay_in : Ids → Instants → PaymentRequest → World R → PayResult × World R
  pay_in ids times req w =
      let (ctx, r) = context_for deps times.decided req w in
      let decision = evaluate sha256 ids.decision req ctx in
      finish deps ids times req ctx decision
        (record { ledger = put_decision decision req w.ledger; rail = r }) decision.verdict
        ctx.order

  unfoldable pub pay : Ids → Instants → PaymentRequest → World R → PayResult × World R
  pay ids times req w =
      pay_in ids times req (reconcile_order deps.rail times.reconciled req.order_id w)

-- `approve`: the exceptions, or the approval that it stores.
pub data ApproveError : Type 0 where
  decision_not_found not_review : ApproveError
  check_not_approvable : CheckId → ApproveError

pub data ApproveResult : Type 0 where
  approved : Approval → LedgerState → ApproveResult
  refused : ApproveError → ApproveResult

abbrev pub is_approvable : CheckId → Bool
is_approvable CheckId.price = true
is_approvable CheckId.supplier_identity = true
is_approvable _ = false

abbrev pub is_settled : CheckResult → Bool
is_settled CheckResult.pass = true
is_settled CheckResult.skipped = true
is_settled _ = false

unfoldable pub approval_of : Text → Text → Text → PaymentRequest → Approval
approval_of uuid decision_id approver req = record {
  approval_id = uuid;
  decision_id = decision_id;
  approver = approver;
  bound_to = record {
    order_id = req.order_id;
    invoice_ref = req.invoice_ref;
    amount = req.amount;
    fingerprint = req.destination.fingerprint;
  };
  used = false;
}

unfoldable pub approve : Text → Text → Text → LedgerState → ApproveResult
unfolding approval_of
approve uuid decision_id approver l = elim (get_decision decision_id l) [
  | none ↦ ApproveResult.refused decision_not_found
  | some stored ↦ elim stored.decision.verdict [
    | Verdict.review ↦
        elim (find (λ c. not (is_settled c.result) && not (is_approvable c.id))
          stored.decision.checks) [
            | some bad ↦ ApproveResult.refused (check_not_approvable bad.id)
            | none ↦
                let a = approval_of uuid decision_id approver stored.request in
                ApproveResult.approved a (put_approval a l)
          ]
    | _ ↦ ApproveResult.refused not_review
  ]
]

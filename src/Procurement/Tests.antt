-- ===== src/Procurement/Tests.antt =====
-- Runs of the procurement controller, and its theorems at concrete inputs.
use ligis.Prelude.Double.{round}
use ligis.Prelude.{
  ℕ, ◌+◌, ◌≤◌, ◌≡◌, ◌↔◌, ◌⊎◌, refl, true, false, none, some, List, [], ◌∷◌, ◌++◌, arith, All,
}
use ligis.Prelude.Int.{pos}
use mathlib.Core.List.{Perm}
use ligis.Procurement.Types.{PurchaseOrder, PaymentAttempt, AttemptState, Verdict}
use ligis.Procurement.Ledger.{get_attempt, LedgerState, get_mandate, put_approval}
use ligis.Procurement.Controller.Defs.{EvaluateContext, RailFingerprint, evaluate, price_limit}
use ligis.Procurement.Controller.Checks.{IsIdentified}
use ligis.Procurement.Controller.Justified.{committed_elsewhere, Justified, evaluate-go_iff}
use ligis.Procurement.Rail.{TransferStatus, TransferHandle, RailResult, CreateTransferInput}
use ligis.Procurement.Rail.Fixture.Defs.{
  FixtureRail, Target, Call, create, transition_to, time_out_next, handle, new_transfer,
  create_transfer, find_by_request_id, get_balance, transition, call_all, fixture_rail,
}
use ligis.Procurement.Rail.Fixture.Conservation.{funds, call_all-funds}
use ligis.Procurement.Rail.Fixture.Retry.{create_transfer-retry}
use ligis.Procurement.Executor.Defs.{
  World, new_attempt, ApproveResult, approve, approval_of, settle, refresh_attempt, reconcile, pay,
}
use ligis.Procurement.Executor.Exposure.{exposure}
use ligis.Procurement.Executor.Once.{live_count}
use ligis.Procurement.Executor.Approval.{approve-evaluate, evaluate-approved_iff}
use ligis.Procurement.Executor.Outcome.{refresh_all, StaysCancelled, answered, settle-cancelled}
use ligis.Procurement.Executor.History.{
  paying, reconciling, rail_moves, NeverRevives, History, start, next, IsInitial, History-budget,
  History-once,
}
use ligis.Procurement.Treasury.{Obligation, Priority, is_deferrable, AllocateInput, allocate}
use ligis.Procurement.Treasury.Fit.{funded, allocate_lem}
use ligis.Procurement.Fixture.{
  usd, order, mandate, request, sha256, uuid, messages, rail, ledger, world, deps, ids, times,
  paid_world, opened,
}

-- A price within tolerance is paid, and committed.
pay_test :
    ((pay deps sha256 ids times (request 10500) world).0.executed ≡ true)
    × (get_mandate 7 paid_world.ledger ≡ some (record mandate { committed = 10500 }))
unfolding opened
pay_test = (refl, refl)

ledger-IsInitial : IsInitial ledger
ledger-IsInitial = record {
  no_attempts = refl;
  mandate_ids = λ k m h. ground arith;
  budgeted = λ k m h. ground arith;
}

-- The payment fails at the rail; a reconciliation finds it cancelled, and so does the next.
abbrev failed_world : World FixtureRail
failed_world = record paid_world {
  rail = (transition uuid messages 100 Target.to_failed none paid_world.rail).1;
}

abbrev attempt_of : World FixtureRail → PaymentAttempt
attempt_of w = elim (get_attempt 21 w.ledger) [
  | some a ↦ a
  | none ↦ new_attempt ids times (request 10500) []
]

abbrev first_refresh : PaymentAttempt × World FixtureRail
first_refresh = refresh_attempt deps.rail 600 (attempt_of paid_world) failed_world

abbrev second_refresh : PaymentAttempt × World FixtureRail
second_refresh = refresh_attempt deps.rail 700 first_refresh.0 first_refresh.1

first_reconciled : reconcile deps.rail 600 21 failed_world ≡ some (first_refresh.0, first_refresh.1)
unfolding opened reconcile
first_reconciled = refl

second_reconciled :
    reconcile deps.rail 700 21 first_refresh.1 ≡ some (second_refresh.0, second_refresh.1)
unfolding opened reconcile
second_reconciled = refl

abbrev history : History deps sha256 world second_refresh.1
history =
    next
      (next
        (next (next start (paying ids times (request 10500) refl)) (rail_moves failed_world.rail))
        (reconciling 600 21 first_refresh.0 first_refresh.1 first_reconciled))
      (reconciling 700 21 second_refresh.0 second_refresh.1 second_reconciled)

history-NeverRevives : NeverRevives deps sha256 history
unfolding opened
history-NeverRevives = ((((tt, tt), tt), (λ b e dead. refl)), (λ b e dead. refl))

committed_nothing : get_mandate 7 second_refresh.1.ledger ≡ some (record mandate { committed = 0 })
unfolding opened
committed_nothing = refl

History-budget_example : exposure 7 second_refresh.1.ledger ≤ 50000
History-budget_example =
    History-budget deps sha256 world second_refresh.1 ledger-IsInitial history history-NeverRevives
      7 (record mandate { committed = 0 }) committed_nothing

History-once_example : live_count 1 9 second_refresh.1.ledger ≤ 1
History-once_example =
    History-once deps sha256 world second_refresh.1 ledger-IsInitial history history-NeverRevives 1
      9

-- An invoice of 115 is not within 15% above 100: the product is 114.99999999999999.
abbrev small_order : PurchaseOrder
small_order = record order { authorized = usd 100; price_tolerance_pct = 15 }

price_limit_test : price_limit small_order ≡ 114
unfolding price_limit round
price_limit_test = refl

-- An amount above the tolerance goes to review.
abbrev context : ℕ → EvaluateContext
context now = record {
  order = some order;
  mandate = some mandate;
  attempts = [];
  approval = none;
  supplier_identity = none;
  rail_destination_fingerprint = RailFingerprint.found 5;
  now = now;
}

verdict_tests :
    ((evaluate sha256 20 (request 11000) (context 1000)).verdict ≡ Verdict.go)
    × ((evaluate sha256 20 (request 11001) (context 1000)).verdict ≡ Verdict.review)
    × ((evaluate sha256 20 (request 11000) (context 1001)).verdict ≡ Verdict.stop)
unfolding opened
verdict_tests = (refl, refl, refl)

evaluate-go_iff_example :
    ((evaluate sha256 20 (request 10500) (context 900)).verdict ≡ Verdict.go)
    ↔ Justified (request 10500) (context 900)
evaluate-go_iff_example = evaluate-go_iff sha256 20 (request 10500) (context 900)

abbrev reviewed : LedgerState
reviewed = record ledger {
  decisions =
      (
        20,
        record {
          decision = evaluate sha256 20 (request 12000) (context 900);
          request = request 12000;
        },
      )
      ∷ [];
}

approve-evaluate_example :
    approve 30 20 40 reviewed
    ≡ ApproveResult.approved
        (approval_of 30 20 40 (request 12000))
        (put_approval (approval_of 30 20 40 (request 12000)) reviewed)
unfolding opened
approve-evaluate_example =
    approve-evaluate sha256 30 20 40 (request 12000) (context 900) reviewed refl

evaluate-approved_iff_example :
    ((evaluate sha256 21 (request 12000) (record {
      order = some order;
      mandate = some mandate;
      attempts = [];
      approval = some (approval_of 30 20 40 (request 12000));
      supplier_identity = none;
      rail_destination_fingerprint = RailFingerprint.found 5;
      now = 900;
    })).verdict
      ≡ Verdict.go)
    ↔ (IsIdentified order none × (committed_elsewhere (request 12000) [] ≡ 0))
unfolding opened
evaluate-approved_iff_example =
    evaluate-approved_iff sha256 21 20 30 40 (request 12000) (context 900) order refl refl

abbrev attempt : PaymentAttempt
attempt = record {
  attempt_id = 21;
  order_id = 1;
  invoice_ref = 9;
  decision_id = 20;
  airwallex_request_id = 22;
  transfer_id = none;
  state = AttemptState.submitted;
  amount = usd 10500;
  failure_type = none;
  failure_reason = none;
  replaces = none;
  created_at = some 502;
  updated_at = some 502;
}

-- The ledger of a payment that is under way.
abbrev under_way : LedgerState
under_way = record ledger {
  mandates = (7, record mandate { committed = 10500 }) ∷ [];
  attempts = (21, attempt) ∷ [];
}

abbrev failed_transfer : TransferHandle
failed_transfer = record {
  transfer_id = 50;
  status = TransferStatus.failed;
  failure_type = none;
  failure_reason = none;
}

abbrev failed_rail : FixtureRail
failed_rail = record rail {
  transfers =
      (
        50,
        record {
          id = 50;
          request_id = 22;
          beneficiary_id = 4;
          amount = usd 10500;
          reference = 9;
          reason = 6;
          status = TransferStatus.failed;
          failure_type = none;
          failure_reason = none;
        },
      )
      ∷ [];
}

cancelled_rail :
    StaysCancelled
      (fixture_rail uuid messages)
      (600 ∷ [])
      (settle 503 attempt (RailResult.ok failed_transfer) under_way).0
      (answered (fixture_rail uuid messages) 503 attempt failed_transfer under_way failed_rail)
unfolding opened
cancelled_rail = (refl, tt)

settle-cancelled_example :
    ((settle 503 attempt (RailResult.ok failed_transfer) under_way).0.state
      ≡ AttemptState.cancelled)
    × ((refresh_all
          (fixture_rail uuid messages)
          (600 ∷ [])
          (settle 503 attempt (RailResult.ok failed_transfer) under_way).0
          (answered
            (fixture_rail uuid messages)
            503
            attempt
            failed_transfer
            under_way
            failed_rail)).1.ledger.mandates
        ≡ (7, record mandate { committed = 10500 }) ∷ [])
unfolding opened
settle-cancelled_example =
    settle-cancelled (fixture_rail uuid messages) 503 (600 ∷ []) attempt failed_transfer under_way
      failed_rail refl cancelled_rail

abbrev transfer_input : ℕ → CreateTransferInput
transfer_input amount = record {
  request_id = 22;
  beneficiary_id = 4;
  amount = usd amount;
  reference = 9;
  reason = 6;
}

abbrev calls : List Call
calls =
    time_out_next
    ∷ create (transfer_input 10500)
    ∷ create (transfer_input 10500)
    ∷ transition_to 100 Target.to_failed none
    ∷ create (record (transfer_input 700) { request_id = 23 })
    ∷ []

calls_test : get_balance 840 (call_all uuid messages calls rail) ≡ pos 89300
unfolding opened
calls_test = refl

uuid_distinct : (m n : ℕ) → uuid m ≡ uuid n → m ≡ n
uuid_distinct m n h = omega arith

call_all-funds_example : funds 840 (call_all uuid messages calls rail) ≡ get_balance 840 rail
call_all-funds_example = call_all-funds uuid messages uuid_distinct 840 calls rail refl

create_transfer-retry_example :
    let s =
      (create_transfer uuid messages
        (transfer_input 10500)
        (record rail { fail_next_timeout = true })).1 in
    let answer = handle (new_transfer uuid messages (transfer_input 10500) rail) in
    (create_transfer uuid messages (transfer_input 10500) s
      ≡ (RailResult.ok answer, record s { create_calls = s.create_calls + 1 }))
    × (find_by_request_id uuid messages 22 s ≡ (RailResult.ok (some answer), s))
create_transfer-retry_example =
    create_transfer-retry uuid messages (transfer_input 10500)
      (record rail { fail_next_timeout = true }) refl (omega arith)

abbrev obligation : ℕ → ℕ → ℕ → Priority → Obligation
obligation i amount due p = record {
  obligation_id = i;
  order_id = 1;
  amount = usd amount;
  due_at = due;
  priority = p;
}

abbrev obligations : AllocateInput
obligations = record {
  obligations =
      obligation 1 50 3 Priority.deferrable
      ∷ obligation 2 60 2 Priority.normal
      ∷ obligation 3 40 9 Priority.critical
      ∷ obligation 4 30 1 Priority.normal
      ∷ [];
  balance = 120;
  reserve_floor = 20;
}

allocate_test :
    ((allocate obligations).fund
      ≡ obligation 3 40 9 Priority.critical ∷ obligation 4 30 1 Priority.normal ∷ [])
    × ((allocate obligations).review ≡ obligation 2 60 2 Priority.normal ∷ [])
unfolding opened
allocate_test = (refl, refl)

allocate_lem_example :
    let out = allocate obligations in
    Perm (out.fund ++ (out.defer ++ out.review)) obligations.obligations
    × All (λ (ob : Obligation). is_deferrable ob.priority ≡ true) out.defer
    × All (λ (ob : Obligation). is_deferrable ob.priority ≡ false) out.review
    × ((out.fund ≡ []) ⊎ (funded out + 20 ≤ 120))
allocate_lem_example = allocate_lem obligations

-- ===== src/Procurement/Executor/Once.antt =====
-- An invoice is paid at most once: at no time has it two attempts that have paid or may still pay.
use ligis.Prelude.{
  ℕ, ◌≤◌, ◌≡◌, refl, sym, ap, subst, true, false, ◌&&◌, none, some, arith, [], ◌∷◌, ◌==◌,
  if◌then◌else◌, filter, Table, get, put, values, get-put, weight, weight-put_old, weight-put_new,
  inl, inr, Bool-cases,
}
use ligis.Procurement.Types.{Text, Instant, PaymentRequest, PurchaseOrder, PaymentAttempt, is_live}
use ligis.Procurement.Ledger.{LedgerState, get_attempt, put_attempt, attempts_for_order}
use ligis.Procurement.Rail.{RailResult, TransferHandle, is_definite_rejection}
use ligis.Procurement.Controller.Defs.{Evidence, EvaluateContext}
use ligis.Procurement.Controller.Checks.{IsUnpaid}
use ligis.Procurement.Executor.Defs.{
  World, Ids, Instants, ExecutorDeps, settle, reconcile_order, new_attempt, commit, use_approval,
  context_for, execute, pay,
}
use ligis.Procurement.Executor.Exposure.{IsSolvent, Succeeds}
use ligis.Procurement.Executor.Reconcile.{
  Updates, release_keeps, reconcile_order_inv, get_attempt-reconcile_order,
}
use ligis.Procurement.Executor.Payment.{world_decided, pay_in-Decided, attempts_kept}

abbrev pub live_for : Text → Text → PaymentAttempt → ℕ
live_for order_id invoice a =
    if a.order_id == order_id && (a.invoice_ref == invoice && is_live a.state) then 1 else 0

-- How many attempts for the order's invoice have paid or may still pay.
abbrev pub live_count : Text → Text → LedgerState → ℕ
live_count order_id invoice l = weight (λ _ a. live_for order_id invoice a) l.attempts

abbrev pub PaysOnce : LedgerState → Type 0
PaysOnce l = (order_id invoice : Text) → live_count order_id invoice l ≤ 1

live_for_mono :
    (o i : Text) (a a' : PaymentAttempt) → Succeeds a a' → live_for o i a' ≤ live_for o i a
live_for_mono o i a a' s = ground (arith, s.no_revival, s.same_order, s.same_invoice)

live_count-put_le :
    (o i : Text) (a a' : PaymentAttempt) (t : Table PaymentAttempt)
    → get a'.attempt_id t ≡ some a
    → Succeeds a a'
    → weight (λ _ b. live_for o i b) (put a'.attempt_id a' t) ≤ weight (λ _ b. live_for o i b) t
live_count-put_le o i a a' t h s =
    omega (
      arith,
      weight-put_old (λ _ b. live_for o i b) a'.attempt_id a' a t h,
      live_for_mono o i a a' s,
    )

pub Updates-PaysOnce :
    (a : PaymentAttempt) (l l' : LedgerState)
    → get_attempt a.attempt_id l ≡ some a
    → Updates a l l'
    → PaysOnce l
    → PaysOnce l'
Updates-PaysOnce a l l' stored up once o i = rw up.attempts (
    omega (
      arith,
      live_count-put_le o i a up.next l.attempts (rw up.succeeds.same_id stored) up.succeeds,
      once o i,
    ))

-- What an unpaid invoice means for the table.
live_count-unpaid :
    (req : PaymentRequest) (t : Table PaymentAttempt)
    → IsUnpaid req (filter (λ a. a.order_id == req.order_id) (values t))
    → weight (λ _ a. live_for req.order_id req.invoice_ref a) t ≡ 0
live_count-unpaid req [] h = refl
live_count-unpaid req ((k, a) ∷ t) h = elim (Bool-cases (a.order_id == req.order_id)) [
  | inl same ↦ ground (arith, live_count-unpaid req t)
  | inr other ↦ ground (arith, live_count-unpaid req t)
]

-- The attempts once the rail has answered.
settle-Updates :
    (now : Instant) (a : PaymentAttempt) (answer : RailResult TransferHandle) (l : LedgerState)
    → is_live a.state ≡ true
    → Updates a l (settle now a answer l).1
unfolding settle
settle-Updates now a (RailResult.ok t) l live = record {
  next = _;
  succeeds = record {
    same_id = refl;
    same_order = refl;
    same_amount = refl;
    same_invoice = refl;
    no_revival = λ e. cc;
  };
  attempts = refl;
  orders = refl;
}
settle-Updates now a (RailResult.throws e) l live = elim (Bool-cases (is_definite_rejection e)) [
  | inl c ↦
      rw (c, settle)
        (record {
          next = _;
          succeeds = record {
            same_id = refl;
            same_order = refl;
            same_amount = refl;
            same_invoice = refl;
            no_revival = λ e. refl;
          };
          attempts = ap (put a.attempt_id _) (release_keeps _ l).0;
          orders = (release_keeps _ l).1;
        })
  | inr c ↦
      rw (c, settle)
        (record {
          next = _;
          succeeds = record {
            same_id = refl;
            same_order = refl;
            same_amount = refl;
            same_invoice = refl;
            no_revival = λ e. cc;
          };
          attempts = refl;
          orders = refl;
        })
]

live_for_other :
    (o i : Text) (a : PaymentAttempt)
    → (a.order_id == o && a.invoice_ref == i) ≡ false
    → live_for o i a ≡ 0
live_for_other o i a h = ground arith

live_for_bound : (o i : Text) (a : PaymentAttempt) → live_for o i a ≤ 1
live_for_bound o i a = ground arith

-- A new attempt for an invoice that had no live one, followed by its update.
PaysOnce-new :
    (a : PaymentAttempt) (l₀ l l' : LedgerState)
    → get_attempt a.attempt_id l₀ ≡ none
    → live_count a.order_id a.invoice_ref l₀ ≡ 0
    → l.attempts ≡ put a.attempt_id a l₀.attempts
    → Updates a l l'
    → PaysOnce l₀
    → PaysOnce l'
PaysOnce-new a l₀ l l' fresh unpaid kept up once =
    let stored : get_attempt a.attempt_id l ≡ some a =
      rw kept (ground (arith, get-put a.attempt_id a.attempt_id a l₀.attempts)) in
    Updates-PaysOnce a l l' stored up (λ o i.
      let before = weight-put_new (λ _ b. live_for o i b) a.attempt_id a l₀.attempts fresh in
      rw kept (elim (Bool-cases (a.order_id == o && a.invoice_ref == i)) [
        | inl same ↦
            let eo : o ≡ a.order_id = ground arith in
            let ei : i ≡ a.invoice_ref = ground arith in
            let none_live : live_count o i l₀ ≡ 0 = rw (eo, ei) unpaid in
            omega (arith, before, none_live, live_for_bound o i a)
        | inr other ↦ omega (arith, before, live_for_other o i a other, once o i)
      ]))

module _ {R : Type 0} (deps : ExecutorDeps R) where
  execute-PaysOnce :
      (ids : Ids) (times : Instants) (req : PaymentRequest) (order : PurchaseOrder)
      (ctx : EvaluateContext) (w : World R)
      → get_attempt ids.attempt w.ledger ≡ none
      → IsUnpaid req (attempts_for_order req.order_id w.ledger)
      → PaysOnce w.ledger
      → PaysOnce (execute deps ids times req order ctx w).1.ledger
  unfolding execute
  execute-PaysOnce ids times req order ctx w fresh unpaid once =
      let a = new_attempt ids times req ctx.attempts in
      let l =
        commit ctx.mandate req.amount.amount (use_approval ctx.approval (put_attempt a w.ledger)) in
      PaysOnce-new a w.ledger l _ fresh (live_count-unpaid req w.ledger.attempts unpaid)
        (attempts_kept ctx.approval ctx.mandate req.amount.amount (put_attempt a w.ledger))
        (settle-Updates times.settled a _ l refl) once

module _ {R : Type 0} (deps : ExecutorDeps R) (sha256 : Evidence → Text) where
  context_attempts :
      (now : Instant) (req : PaymentRequest) (w : World R)
      → (context_for deps now req w).0.attempts ≡ attempts_for_order req.order_id w.ledger
  unfolding context_for
  context_attempts now req w = refl

  -- Paying never gives an invoice a second attempt that has paid or may still pay, whatever the
  -- rail answers, for a solvent ledger and an unused attempt id.
  pub pay-PaysOnce :
      (ids : Ids) (times : Instants) (req : PaymentRequest) (w : World R)
      → get_attempt ids.attempt w.ledger ≡ none
      → IsSolvent w.ledger
      → PaysOnce w.ledger
      → PaysOnce (pay deps sha256 ids times req w).1.ledger
  unfolding pay
  pay-PaysOnce ids times req w₀ fresh₀ sol once₀ =
      let w = reconcile_order deps.rail times.reconciled req.order_id w₀ in
      let fresh =
        get_attempt-reconcile_order deps.rail ids.attempt times.reconciled req.order_id w₀ sol
          fresh₀ in
      let once =
        (reconcile_order_inv deps.rail PaysOnce Updates-PaysOnce times.reconciled req.order_id w₀
          sol once₀).1 in
      elim (pay_in-Decided deps sha256 ids times req w) [
        | inl (_, _, same) ↦ subst (λ (x : World R). PaysOnce x.ledger) (sym same) once
        | inr (order, e, by, _, _, same) ↦
            subst (λ (x : World R). PaysOnce x.ledger) (sym same)
              (execute-PaysOnce deps ids times req order _
                (world_decided deps sha256 ids times req w) fresh
                (subst (IsUnpaid req) (context_attempts times.decided req w) by.unpaid) once)
      ]

-- ===== src/Procurement/Executor/Payment.antt =====
-- `pay` as a whole: it executes exactly the justified payments, keeps the ledger solvent, and so
-- bounds what a mandate can lose.
use ligis.Prelude.{
  ℕ, ◌≤◌, ◌≡◌, ◌↔◌, ◌⊎◌, refl, sym, ◌∙◌, true, false, Option, none, some, some-injective, subst,
  arith, get, get-put, Option-cases, inl, inr,
}
use ligis.Procurement.Types.{
  Text, Instant, Mandate, PurchaseOrder, PaymentRequest, Approval, Verdict,
}
use ligis.Procurement.Ledger.{
  LedgerState, get_order, get_mandate, get_attempt, put_attempt, put_decision,
}
use ligis.Procurement.Controller.Defs.{Evidence, EvaluateContext, evaluate}
use ligis.Procurement.Controller.Checks.{HasFunds}
use ligis.Procurement.Controller.Justified.{JustifiedBy, Justified, evaluate-go_iff}
use ligis.Procurement.Executor.Defs.{
  World, Ids, Instants, ExecutorDeps, reconcile_order, commit, use_approval, new_attempt,
  mandate_for, context_for, execute, PayResult, finish, pay_in, pay,
}
use ligis.Procurement.Executor.Exposure.{exposure, IsSolvent, IsSolvent-of_same}
use ligis.Procurement.Executor.Commitment.{commit-IsSolvent}
use ligis.Procurement.Executor.Reconcile.{reconcile_order-IsSolvent, get_attempt-reconcile_order}
use ligis.Procurement.Executor.Solvency.{settle-IsSolvent}

use_approval_same :
    (approval : Option Approval) (m : Option Mandate) (amount : ℕ) (l : LedgerState)
    → IsSolvent (commit m amount l)
    → IsSolvent (commit m amount (use_approval approval l))
use_approval_same none m amount l s = s
use_approval_same (some a) none amount l s = IsSolvent-of_same l _ refl refl refl s
use_approval_same (some a) (some m) amount l s =
    IsSolvent-of_same (commit (some m) amount l) _ refl refl refl s

pub attempts_kept :
    (approval : Option Approval) (m : Option Mandate) (amount : ℕ) (l : LedgerState)
    → (commit m amount (use_approval approval l)).attempts ≡ l.attempts
attempts_kept none none amount l = refl
attempts_kept none (some m) amount l = refl
attempts_kept (some a) none amount l = refl
attempts_kept (some a) (some m) amount l = refl

module _ {R : Type 0} (deps : ExecutorDeps R) where
  execute-IsSolvent :
      (ids : Ids) (times : Instants) (req : PaymentRequest) (order : PurchaseOrder)
      (ctx : EvaluateContext) (m : Mandate) (w : World R)
      → get_attempt ids.attempt w.ledger ≡ none
      → get_order req.order_id w.ledger ≡ some order
      → get_mandate order.mandate_id w.ledger ≡ some m
      → ctx.mandate ≡ some m
      → HasFunds (some m) req
      → IsSolvent w.ledger
      → IsSolvent (execute deps ids times req order ctx w).1.ledger
  unfolding execute
  execute-IsSolvent ids times req order ctx m w fresh ordered held e funds sol =
      let a = new_attempt ids times req ctx.attempts in
      let l = put_attempt a w.ledger in
      let stored : get ids.attempt
            (commit ctx.mandate req.amount.amount (use_approval ctx.approval l)).attempts
          ≡ some a =
        rw (attempts_kept ctx.approval ctx.mandate req.amount.amount l)
          (ground (arith, get-put ids.attempt ids.attempt a w.ledger.attempts)) in
      let committed : IsSolvent (commit ctx.mandate req.amount.amount l) =
        rw e (commit-IsSolvent a order m w.ledger fresh ordered held funds.available sol) in
      settle-IsSolvent times.settled a _ _ stored refl
        (use_approval_same ctx.approval ctx.mandate req.amount.amount l committed)

module _ {R : Type 0} (deps : ExecutorDeps R) (sha256 : Evidence → Text) where
  abbrev pub world_decided : Ids → Instants → PaymentRequest → World R → World R
  world_decided ids times req w =
      let (ctx, r) = context_for deps times.decided req w in
      record { ledger = put_decision (evaluate sha256 ids.decision req ctx) req w.ledger; rail = r }

  context_order :
      (now : Instant) (req : PaymentRequest) (w : World R)
      → (context_for deps now req w).0.order ≡ get_order req.order_id w.ledger
  unfolding context_for
  context_order now req w = refl

  context_mandate :
      (now : Instant) (req : PaymentRequest) (w : World R)
      → (context_for deps now req w).0.mandate
        ≡ mandate_for (get_order req.order_id w.ledger) w.ledger
  unfolding context_for
  context_mandate now req w = refl

  -- What `pay` has done once it has decided, by the decision.
  abbrev pub Decided : Ids → Instants → PaymentRequest → World R → PayResult × World R → Type 0
  Decided ids times req w out =
      let ctx = (context_for deps times.decided req w).0 in
      let w' = world_decided ids times req w in
      (¬ Justified req ctx × (out.0.executed ≡ false) × (out.1 ≡ w'))
      ⊎ ((order : PurchaseOrder) × (ctx.order ≡ some order)
          × JustifiedBy req ctx order
          × (out.0.executed ≡ true)
          × (out.0.attempt ≡ some (execute deps ids times req order ctx w').0)
          × (out.1 ≡ (execute deps ids times req order ctx w').1))

  finish-Decided :
      (ids : Ids) (times : Instants) (req : PaymentRequest) (w : World R) (v : Verdict)
      (order : Option PurchaseOrder)
      → let ctx = (context_for deps times.decided req w).0 in
        ((v ≡ Verdict.go) ↔ Justified req ctx)
        → ctx.order ≡ order
        → Decided ids times req w (
            finish deps ids times req ctx
              (evaluate sha256 ids.decision req ctx)
              (world_decided ids times req w)
              v
              order)
  unfolding finish
  finish-Decided ids times req w Verdict.go (some order) j e =
      let (o, eo, by) = j.0 refl in
      inr
        (order, e, subst (JustifiedBy req _) (some-injective _ _ (sym eo ∙ e)) by, refl, refl, refl)
  finish-Decided ids times req w Verdict.go none j e = let (o, eo, by) = j.0 refl in cc
  finish-Decided ids times req w Verdict.stop order j e = inl (λ x. cc (j.1 x), refl, refl)
  finish-Decided ids times req w Verdict.review order j e = inl (λ x. cc (j.1 x), refl, refl)

  pub pay_in-Decided :
      (ids : Ids) (times : Instants) (req : PaymentRequest) (w : World R)
      → Decided ids times req w (pay_in deps sha256 ids times req w)
  unfolding pay_in
  pay_in-Decided ids times req w =
      let ctx = (context_for deps times.decided req w).0 in
      finish-Decided ids times req w (evaluate sha256 ids.decision req ctx).verdict ctx.order
        (evaluate-go_iff sha256 ids.decision req ctx) refl

  context_funds :
      (now : Instant) (req : PaymentRequest) (w : World R) (order : PurchaseOrder)
      → let ctx = (context_for deps now req w).0 in
        ctx.order ≡ some order
        → HasFunds ctx.mandate req
        → (get_order req.order_id w.ledger ≡ some order)
          × ((m : Mandate) × (get_mandate order.mandate_id w.ledger ≡ some m)
              × (ctx.mandate ≡ some m)
              × HasFunds (some m) req)
  unfolding context_for
  context_funds now req w order e funds =
      let known : mandate_for (get_order req.order_id w.ledger) w.ledger
          ≡ get_mandate order.mandate_id w.ledger =
        rw e in
      let funds' : HasFunds (get_mandate order.mandate_id w.ledger) req =
        subst (λ x. HasFunds x req) known funds in
      elim (Option-cases (get_mandate order.mandate_id w.ledger)) [
        | inl missing ↦ absurd (rw missing at funds')
        | inr (m, held) ↦ (e, (m, held, known ∙ held, rw held at funds'))
      ]

  pay_in-IsSolvent :
      (ids : Ids) (times : Instants) (req : PaymentRequest) (w : World R)
      → get_attempt ids.attempt w.ledger ≡ none
      → IsSolvent w.ledger
      → IsSolvent (pay_in deps sha256 ids times req w).1.ledger
  pay_in-IsSolvent ids times req w fresh sol =
      let w' = world_decided ids times req w in
      let sol' : IsSolvent w'.ledger = IsSolvent-of_same w.ledger w'.ledger refl refl refl sol in
      elim (pay_in-Decided ids times req w) [
        | inl (_, _, same) ↦ subst (λ (x : World R). IsSolvent x.ledger) (sym same) sol'
        | inr (order, e, by, _, _, same) ↦
            let (ordered, rest) = context_funds times.decided req w order e by.funds in
            let (m, held, given, funds) = rest in
            subst (λ (x : World R). IsSolvent x.ledger) (sym same)
              (execute-IsSolvent deps ids times req order _ m w' fresh ordered held given funds
                sol')
      ]

  -- Paying keeps the ledger solvent, whatever the request, the rail's answers and the outcome, if
  -- the new attempt's id is one that the reconciled ledger does not hold.
  pub pay-IsSolvent :
      (ids : Ids) (times : Instants) (req : PaymentRequest) (w : World R)
      → get_attempt ids.attempt w.ledger ≡ none
      → IsSolvent w.ledger
      → IsSolvent (pay deps sha256 ids times req w).1.ledger
  unfolding pay
  pay-IsSolvent ids times req w fresh sol =
      let w' = reconcile_order deps.rail times.reconciled req.order_id w in
      pay_in-IsSolvent ids times req w'
        (get_attempt-reconcile_order deps.rail ids.attempt times.reconciled req.order_id w sol
          fresh)
        (reconcile_order-IsSolvent deps.rail times.reconciled req.order_id w sol)

-- In a solvent ledger, what a mandate's live attempts add up to stays within its budget.
pub exposure-le-budget :
    (k : Text) (m : Mandate) (l : LedgerState)
    → IsSolvent l
    → get_mandate k l ≡ some m
    → exposure k l ≤ m.budget.amount
exposure-le-budget k m l s h = omega (arith, s.covered k m h, s.budgeted k m h)

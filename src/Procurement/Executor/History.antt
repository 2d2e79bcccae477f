-- ===== src/Procurement/Executor/History.antt =====
-- Histories of the executor: payments, reconciliations, approvals, and whatever the rail does by
-- itself, in any order.
use ligis.Prelude.{
  some-injective, ap, false, Option-cases, ◌≤◌, ◌≡◌, inl, inr, refl, sym, subst, none, some, [],
  arith,
}
use ligis.Procurement.Types.{
  Text, Instant, Mandate, PaymentRequest, PaymentAttempt, Approval, is_live,
}
use ligis.Procurement.Ledger.{LedgerState, get_mandate, get_attempt, put_approval}
use ligis.Procurement.Controller.Defs.{Evidence}
use ligis.Procurement.Executor.Defs.{
  World, Ids, Instants, ExecutorDeps, refresh_attempt, reconcile, pay,
}
use ligis.Procurement.Executor.Exposure.{exposure, get_attempt_self, IsSolvent, IsSolvent-of_same}
use ligis.Procurement.Executor.Solvency.{refresh_attempt-IsSolvent}
use ligis.Procurement.Executor.Reconcile.{refresh_attempt-Updates}
use ligis.Procurement.Executor.Payment.{pay-IsSolvent, exposure-le-budget}
use ligis.Procurement.Executor.Once.{PaysOnce, live_count, Updates-PaysOnce, pay-PaysOnce}

module _ {R : Type 0} (deps : ExecutorDeps R) (sha256 : Evidence → Text) where
  -- One event. `reconcile` refreshes any stored attempt; `approve` stores an approval.
  pub data Step (w : World R) : World R → Type 0 where
    paying :
        (ids : Ids) (times : Instants) (req : PaymentRequest)
        → get_attempt ids.attempt w.ledger ≡ none
        → Step w (pay deps sha256 ids times req w).1
    reconciling :
        (now : Instant) (attempt_id : Text) (a : PaymentAttempt) (v : World R)
        → reconcile deps.rail now attempt_id w ≡ some (a, v)
        → Step w v
    approving : (a : Approval) → Step w (record w { ledger = put_approval a w.ledger })
    rail_moves : (r : R) → Step w (record w { rail = r })

  pub data History (w : World R) : World R → Type 0 where
    start : History w w
    next : {u v : World R} → History w u → Step u v → History w v

  -- `reconcile` does not find a cancelled attempt alive again.
  abbrev pub RevivesNone : {w v : World R} → Step w v → Type 0
  RevivesNone {w} (reconciling now attempt_id a v e) =
      (b : PaymentAttempt)
      → get_attempt attempt_id w.ledger ≡ some b
      → is_live b.state ≡ false
      → is_live a.state ≡ false
  RevivesNone _ = Unit {0}

  abbrev pub NeverRevives : {w v : World R} → History w v → Type 0
  NeverRevives start = Unit {0}
  NeverRevives (next h step) = NeverRevives h × RevivesNone step

  abbrev IsSafe : World R → Type 0
  IsSafe w = IsSolvent w.ledger × PaysOnce w.ledger

  refresh-IsSafe :
      (now : Instant) (a : PaymentAttempt) (w : World R)
      → get_attempt a.attempt_id w.ledger ≡ some a
      → (is_live a.state ≡ false → is_live (refresh_attempt deps.rail now a w).0.state ≡ false)
      → IsSafe w
      → IsSafe (refresh_attempt deps.rail now a w).1
  refresh-IsSafe now a w stored dead (sol, once) = (
    refresh_attempt-IsSolvent deps.rail now a w stored dead sol,
    elim (refresh_attempt-Updates deps.rail now a w dead) [
      | inl same ↦ subst PaysOnce (sym same) once
      | inr up ↦ Updates-PaysOnce a w.ledger _ stored up once
    ],
  )

  reconcile-IsSafe :
      (now : Instant) (attempt_id : Text) (a : PaymentAttempt) (w v : World R)
      → reconcile deps.rail now attempt_id w ≡ some (a, v)
      → ((b : PaymentAttempt)
          → get_attempt attempt_id w.ledger ≡ some b
          → is_live b.state ≡ false
          → is_live a.state ≡ false)
      → IsSafe w
      → IsSafe v
  unfolding reconcile
  reconcile-IsSafe now attempt_id a w v e dead safe =
      elim (Option-cases (get_attempt attempt_id w.ledger)) [
        | inl k ↦ ground (arith, (rw (k, reconcile) at e))
        | inr (b, k) ↦
            let same =
              some-injective (refresh_attempt deps.rail now b w) (a, v) (rw (k, reconcile) at e) in
            subst IsSafe (ap (λ p. p.1) same) (
              refresh-IsSafe now b w (get_attempt_self attempt_id b w.ledger safe.0 k)
                (λ d. subst (λ x. is_live x.state ≡ false) (ap (λ p. p.0) (sym same)) (dead b k d))
                safe)
      ]

  Step-IsSafe : {w v : World R} (step : Step w v) → RevivesNone step → IsSafe w → IsSafe v
  Step-IsSafe {w} (paying ids times req fresh) _ (sol, once) = (
    pay-IsSolvent deps sha256 ids times req w fresh sol,
    pay-PaysOnce deps sha256 ids times req w fresh sol once,
  )
  Step-IsSafe {w} (reconciling now attempt_id a v e) dead safe =
      reconcile-IsSafe now attempt_id a w v e dead safe
  Step-IsSafe {w} (approving a) _ (sol, once) =
      (IsSolvent-of_same w.ledger (put_approval a w.ledger) refl refl refl sol, once)
  Step-IsSafe (rail_moves r) _ (sol, once) = (sol, once)

  History-IsSafe : {w v : World R} → IsSafe w → (h : History w v) → NeverRevives h → IsSafe v
  History-IsSafe s start _ = s
  History-IsSafe s (next h step) (older, last) = Step-IsSafe step last (History-IsSafe s h older)

-- A ledger with no attempts yet, whose mandates stand under their ids within their budgets.
pub record IsInitial (l : LedgerState) : Type 0 where
  pub no_attempts : l.attempts ≡ []
  pub mandate_ids : (k : Text) (m : Mandate) → get_mandate k l ≡ some m → m.mandate_id ≡ k
  pub budgeted : (k : Text) (m : Mandate) → get_mandate k l ≡ some m → m.committed ≤ m.budget.amount

IsInitial-IsSolvent : (l : LedgerState) → IsInitial l → IsSolvent l
IsInitial-IsSolvent l i = record {
  attempt_ids = rw i.no_attempts (λ k a h. cc);
  mandate_ids = i.mandate_ids;
  covered = λ k m h. rw i.no_attempts (omega arith);
  budgeted = i.budgeted;
}

module _ {R : Type 0} (deps : ExecutorDeps R) (sha256 : Evidence → Text) (w v : World R)
    (initial : IsInitial w.ledger) (h : History deps sha256 w v)
    (revives_none : NeverRevives deps sha256 h) where
  safe : IsSafe deps sha256 v
  safe =
      History-IsSafe deps sha256
        (IsInitial-IsSolvent w.ledger initial, λ o j. rw initial.no_attempts (omega arith)) h
        revives_none

  -- In any history of payments with fresh ids, reconciliations, approvals and movements at the rail
  -- that begins with no attempts and no mandate over its budget, and in which no reconciliation of a cancelled attempt finds it alive again at
  -- the rail, the live attempts under a mandate never add up to more than its budget, whatever else
  -- the rail answers.
  pub History-budget :
      (k : Text) (m : Mandate)
      → get_mandate k v.ledger ≡ some m
      → exposure k v.ledger ≤ m.budget.amount
  History-budget k m e = exposure-le-budget k m v.ledger safe.0 e

  -- In any history of payments with fresh ids, reconciliations, approvals and movements at the rail
  -- that begins with no attempts and no mandate over its budget, and in which no reconciliation of a cancelled attempt finds it alive again at
  -- the rail, no invoice of an order ever has two live attempts.
  pub History-once : (order_id invoice : Text) → live_count order_id invoice v.ledger ≤ 1
  History-once order_id invoice = safe.1 order_id invoice

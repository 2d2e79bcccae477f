-- ===== src/Procurement/Executor/Reconcile.antt =====
-- What reconciling an order leaves alone: the orders, the set of attempts, and any measure of the
-- attempts that only live ones add to does not grow.
use ligis.Prelude.{
  ◌≡◌, ◌⊎◌, inl, inr, refl, sym, ap, subst, false, not, ◌&&◌, Option, none, some, List, [], ◌∷◌,
  arith, get, put, get-put, Option-cases, Bool-cases,
}
use ligis.Procurement.Types.{Text, Instant, PaymentAttempt, is_live, is_cancelled, is_unresolved}
use ligis.Procurement.Ledger.{LedgerState, get_order, get_mandate, get_attempt, attempts_for_order}
use ligis.Procurement.Rail.{TransferHandle, RailResult, PayoutRail, truthy}
use ligis.Procurement.Executor.Defs.{
  World, release_commitment, with_status, apply_status, after_get, after_find, refresh_attempt,
  reconcile_one, reconcile_all, reconcile_order,
}
use ligis.Procurement.Executor.Exposure.{IsSolvent, Succeeds, get_attempt_self}
use ligis.Procurement.Executor.Solvency.{
  with_status-Succeeds, Succeeds-refl, unresolved_live, live_may, refresh_attempt-IsSolvent,
}

pub release_keeps :
    (a : PaymentAttempt) (l : LedgerState)
    → ((release_commitment a l).attempts ≡ l.attempts)
      × ((release_commitment a l).orders ≡ l.orders)
unfolding release_commitment
release_keeps a l = elim (Option-cases (get_order a.order_id l)) [
  | inl e ↦ rw (e, release_commitment) (refl, refl)
  | inr (order, e) ↦ elim (Option-cases (get_mandate order.mandate_id l)) [
    | inl e' ↦ rw (e, e', release_commitment) (refl, refl)
    | inr (m, e') ↦ rw (e, e', release_commitment) (refl, refl)
  ]
]

-- The ledger holds a successor of the attempt, and its other attempts and orders as before.
pub record Updates (a : PaymentAttempt) (l l' : LedgerState) : Type 0 where
  pub next : PaymentAttempt
  pub succeeds : Succeeds a next
  pub attempts : l'.attempts ≡ put next.attempt_id next l.attempts
  pub orders : l'.orders ≡ l.orders

abbrev pub UpdatesOrKeeps : PaymentAttempt → LedgerState → LedgerState → Type 0
UpdatesOrKeeps a l l' = (l' ≡ l) ⊎ Updates a l l'

apply_status-Updates :
    (now : Instant) (a b : PaymentAttempt) (t : TransferHandle) (l : LedgerState)
    → Succeeds a b
    → (is_live a.state ≡ false → is_live (apply_status now b t l).0.state ≡ false)
    → Updates a l (apply_status now b t l).1
unfolding apply_status
apply_status-Updates now a b t l s live =
    let b' = with_status now b t in
    let kept = release_keeps b' l in
    let s' = with_status-Succeeds now a b t s live in
    elim (Bool-cases (is_cancelled b'.state && not (is_cancelled b.state))) [
      | inl c ↦ rw c (record {
        next = b';
        succeeds = s';
        attempts = ap (put b'.attempt_id b') kept.0;
        orders = kept.1;
      })
      | inr c ↦ rw c (record { next = b'; succeeds = s'; attempts = refl; orders = refl })
    ]

module _ {R : Type 0} where
  after_get-Updates :
      (now : Instant) (a : PaymentAttempt) (l : LedgerState)
      (answer : RailResult TransferHandle × R)
      → (is_live a.state ≡ false → is_live (after_get now a l answer).0.state ≡ false)
      → UpdatesOrKeeps a l (after_get now a l answer).1.ledger
  unfolding after_get
  after_get-Updates now a l (RailResult.ok t, r) live =
      inr (apply_status-Updates now a a t l (Succeeds-refl a) live)
  after_get-Updates now a l (RailResult.throws _, r) live = inl refl

  after_find-Updates :
      (now : Instant) (a : PaymentAttempt) (l : LedgerState)
      (answer : RailResult (Option TransferHandle) × R)
      → (is_live a.state ≡ false → is_live (after_find now a l answer).0.state ≡ false)
      → UpdatesOrKeeps a l (after_find now a l answer).1.ledger
  unfolding after_find
  after_find-Updates now a l (RailResult.ok (some t), r) live = inr (
      apply_status-Updates now a (record a { transfer_id = some t.transfer_id }) t l
        (record {
          same_id = refl;
          same_order = refl;
          same_amount = refl;
          same_invoice = refl;
          no_revival = λ e. e;
        })
        live)
  after_find-Updates now a l (RailResult.ok none, r) live = inl refl
  after_find-Updates now a l (RailResult.throws _, r) live = inl refl

module _ {R : Type 0} (rail : PayoutRail R) where
  pub refresh_attempt-Updates :
      (now : Instant) (a : PaymentAttempt) (w : World R)
      → (is_live a.state ≡ false → is_live (refresh_attempt rail now a w).0.state ≡ false)
      → UpdatesOrKeeps a w.ledger (refresh_attempt rail now a w).1.ledger
  unfolding refresh_attempt
  refresh_attempt-Updates now a w live = elim (Option-cases (truthy a.transfer_id)) [
    | inl e ↦
        rw (e, refresh_attempt)
          (after_find-Updates now a w.ledger (rail.find_by_request_id a.airwallex_request_id w.rail)
            (rw (e, refresh_attempt) at live))
    | inr (tid, e) ↦
        rw (e, refresh_attempt)
          (after_get-Updates now a w.ledger (rail.get_transfer tid w.rail)
            (rw (e, refresh_attempt) at live))
  ]

  -- A property of ledgers that every such update keeps is kept by reconciling.
  module _ (P : LedgerState → Type 0)
      (keep : (a : PaymentAttempt) (l l' : LedgerState)
        → get_attempt a.attempt_id l ≡ some a
        → Updates a l l'
        → P l
        → P l') where
    reconcile_one_inv :
        (now : Instant) (listed : PaymentAttempt) (w : World R)
        → IsSolvent w.ledger
        → P w.ledger
        → IsSolvent (reconcile_one rail now listed w).ledger
          × P (reconcile_one rail now listed w).ledger
    unfolding reconcile_one
    reconcile_one_inv now listed w sol p =
        elim (Option-cases (get_attempt listed.attempt_id w.ledger)) [
          | inl e ↦ rw (e, reconcile_one) (sol, p)
          | inr (a, e) ↦ elim (Bool-cases (is_unresolved a.state)) [
            | inl u ↦
                let live =
                  live_may a.state (refresh_attempt rail now a w).0.state
                    (unresolved_live a.state u) in
                let stored = get_attempt_self listed.attempt_id a w.ledger sol e in
                rw (e, u, reconcile_one)
                  (
                    refresh_attempt-IsSolvent rail now a w stored live sol,
                    elim (refresh_attempt-Updates now a w live) [
                      | inl same ↦ subst P (sym same) p
                      | inr up ↦ keep a w.ledger _ stored up p
                    ],
                  )
            | inr r ↦ rw (e, r, reconcile_one) (sol, p)
          ]
        ]

    reconcile_all_inv :
        (now : Instant) (listed : List PaymentAttempt) (w : World R)
        → IsSolvent w.ledger
        → P w.ledger
        → IsSolvent (reconcile_all rail now listed w).ledger
          × P (reconcile_all rail now listed w).ledger
    unfolding reconcile_all
    reconcile_all_inv now [] w sol p = (sol, p)
    reconcile_all_inv now (a ∷ rest) w sol p =
        let (sol', p') = reconcile_one_inv now a w sol p in
        reconcile_all_inv now rest (reconcile_one rail now a w) sol' p'

    pub reconcile_order_inv :
        (now : Instant) (order_id : Text) (w : World R)
        → IsSolvent w.ledger
        → P w.ledger
        → IsSolvent (reconcile_order rail now order_id w).ledger
          × P (reconcile_order rail now order_id w).ledger
    unfolding reconcile_order
    reconcile_order_inv now order_id w sol p =
        reconcile_all_inv now (attempts_for_order order_id w.ledger) w sol p

  -- Reconciling keeps the ledger solvent.
  pub reconcile_order-IsSolvent :
      (now : Instant) (order_id : Text) (w : World R)
      → IsSolvent w.ledger
      → IsSolvent (reconcile_order rail now order_id w).ledger
  reconcile_order-IsSolvent now order_id w sol =
      (reconcile_order_inv (λ _. Unit {0}) (λ a l l' stored up p. p) now order_id w sol tt).0

  -- Reconciling adds no attempt.
  pub get_attempt-reconcile_order :
      (k : Text) (now : Instant) (order_id : Text) (w : World R)
      → IsSolvent w.ledger
      → get_attempt k w.ledger ≡ none
      → get_attempt k (reconcile_order rail now order_id w).ledger ≡ none
  get_attempt-reconcile_order k now order_id w sol fresh =
      (reconcile_order_inv (λ l. get_attempt k l ≡ none)
        (λ a l l' stored up p. ground (
          arith,
          ap (get k) up.attempts,
          get-put k up.next.attempt_id up.next l.attempts,
          up.succeeds.same_id,
        ))
        now order_id w sol fresh).1

-- ===== src/Procurement/Executor/Solvency.antt =====
-- Every method of the executor keeps the ledger solvent: what it has paid or may still pay under a
-- mandate never exceeds the mandate's budget.
use ligis.Prelude.{
  ◌≡◌, refl, true, false, not, ◌&&◌, Option, none, some, arith, Option-cases, Bool-cases, inl, inr,
}
use ligis.Procurement.Types.{
  Instant, PaymentAttempt, AttemptState, is_live, is_cancelled, is_unresolved,
}
use ligis.Procurement.Ledger.{LedgerState, get_attempt}
use ligis.Procurement.Rail.{
  TransferHandle, RailResult, PayoutRail, map_transfer_status, is_definite_rejection, truthy,
}
use ligis.Procurement.Executor.Defs.{
  World, with_status, apply_status, after_get, after_find, refresh_attempt, settle,
}
use ligis.Procurement.Executor.Exposure.{
  IsSolvent, Succeeds, put_attempt-IsSolvent, release-IsSolvent,
}

pub with_status-Succeeds :
    (now : Instant) (a b : PaymentAttempt) (t : TransferHandle)
    → Succeeds a b
    → (is_live a.state ≡ false → is_live (with_status now b t).state ≡ false)
    → Succeeds a (with_status now b t)
unfolding with_status
with_status-Succeeds now a b t s dead =
    elim (Bool-cases (is_cancelled (map_transfer_status t.status))) [
      | inl c ↦ rw c (record {
        same_id = s.same_id;
        same_order = s.same_order;
        same_amount = s.same_amount;
        same_invoice = s.same_invoice;
        no_revival = (rw c at dead);
      })
      | inr c ↦ rw c (record {
        same_id = s.same_id;
        same_order = s.same_order;
        same_amount = s.same_amount;
        same_invoice = s.same_invoice;
        no_revival = (rw c at dead);
      })
    ]

pub Succeeds-refl : (a : PaymentAttempt) → Succeeds a a
Succeeds-refl a = record {
  same_id = refl;
  same_order = refl;
  same_amount = refl;
  same_invoice = refl;
  no_revival = λ e. e;
}

cancelled_dead : (x : AttemptState) → is_cancelled x ≡ true → is_live x ≡ false
cancelled_dead x h = ground arith

-- What is not cancelled is live.
pub live_if : (x : AttemptState) → not (is_cancelled x) ≡ true → is_live x ≡ true
live_if x h = ground arith

-- A live attempt may get any state.
pub live_may : (x y : AttemptState) → is_live x ≡ true → is_live x ≡ false → is_live y ≡ false
live_may x y h k = cc

-- `b` is the stored attempt `a` with its transfer's id noted.
apply_status-IsSolvent :
    (now : Instant) (a b : PaymentAttempt) (t : TransferHandle) (l : LedgerState)
    → get_attempt a.attempt_id l ≡ some a
    → Succeeds a b
    → b.state ≡ a.state
    → (is_live a.state ≡ false → is_live (apply_status now b t l).0.state ≡ false)
    → IsSolvent l
    → IsSolvent (apply_status now b t l).1
unfolding apply_status
apply_status-IsSolvent now a b t l h s same dead sol =
    let b' = with_status now b t in
    let s' = with_status-Succeeds now a b t s dead in
    elim (Bool-cases (is_cancelled b'.state && not (is_cancelled b.state))) [
      | inl c ↦ rw c (
          release-IsSolvent a b' l h s' (live_if a.state (ground (arith, c, same)))
            (cancelled_dead b'.state (ground (arith, c))) sol)
      | inr c ↦ rw c (put_attempt-IsSolvent a b' l h s' sol)
    ]

module _ {R : Type 0} where
  after_get-IsSolvent :
      (now : Instant) (a : PaymentAttempt) (l : LedgerState)
      (answer : RailResult TransferHandle × R)
      → get_attempt a.attempt_id l ≡ some a
      → (is_live a.state ≡ false → is_live (after_get now a l answer).0.state ≡ false)
      → IsSolvent l
      → IsSolvent (after_get now a l answer).1.ledger
  unfolding after_get
  after_get-IsSolvent now a l (RailResult.ok t, r) h live sol =
      apply_status-IsSolvent now a a t l h (Succeeds-refl a) refl live sol
  after_get-IsSolvent now a l (RailResult.throws _, r) h live sol = sol

  after_find-IsSolvent :
      (now : Instant) (a : PaymentAttempt) (l : LedgerState)
      (answer : RailResult (Option TransferHandle) × R)
      → get_attempt a.attempt_id l ≡ some a
      → (is_live a.state ≡ false → is_live (after_find now a l answer).0.state ≡ false)
      → IsSolvent l
      → IsSolvent (after_find now a l answer).1.ledger
  unfolding after_find
  after_find-IsSolvent now a l (RailResult.ok (some t), r) h live sol =
      apply_status-IsSolvent now a (record a { transfer_id = some t.transfer_id }) t l h
        (record {
          same_id = refl;
          same_order = refl;
          same_amount = refl;
          same_invoice = refl;
          no_revival = λ e. e;
        })
        refl live sol
  after_find-IsSolvent now a l (RailResult.ok none, r) h live sol = sol
  after_find-IsSolvent now a l (RailResult.throws _, r) h live sol = sol

pub unresolved_live : (x : AttemptState) → is_unresolved x ≡ true → is_live x ≡ true
unresolved_live x h = ground arith

module _ {R : Type 0} (rail : PayoutRail R) where
  pub refresh_attempt-IsSolvent :
      (now : Instant) (a : PaymentAttempt) (w : World R)
      → get_attempt a.attempt_id w.ledger ≡ some a
      → (is_live a.state ≡ false → is_live (refresh_attempt rail now a w).0.state ≡ false)
      → IsSolvent w.ledger
      → IsSolvent (refresh_attempt rail now a w).1.ledger
  unfolding refresh_attempt
  refresh_attempt-IsSolvent now a w h live sol = elim (Option-cases (truthy a.transfer_id)) [
    | inl e ↦
        rw (e, refresh_attempt)
          (after_find-IsSolvent now a w.ledger
            (rail.find_by_request_id a.airwallex_request_id w.rail) h
            (rw (e, refresh_attempt) at live) sol)
    | inr (tid, e) ↦
        rw (e, refresh_attempt)
          (after_get-IsSolvent now a w.ledger (rail.get_transfer tid w.rail) h
            (rw (e, refresh_attempt) at live) sol)
  ]

-- The rail's answer to a new transfer, for an attempt that is stored as submitted.
pub settle-IsSolvent :
    (now : Instant) (a : PaymentAttempt) (answer : RailResult TransferHandle) (l : LedgerState)
    → get_attempt a.attempt_id l ≡ some a
    → is_live a.state ≡ true
    → IsSolvent l
    → IsSolvent (settle now a answer l).1
unfolding settle
settle-IsSolvent now a (RailResult.ok t) l h live sol =
    put_attempt-IsSolvent a _ l h
      (record {
        same_id = refl;
        same_order = refl;
        same_amount = refl;
        same_invoice = refl;
        no_revival = λ e. cc;
      })
      sol
settle-IsSolvent now a (RailResult.throws e) l h live sol =
    elim (Bool-cases (is_definite_rejection e)) [
      | inl c ↦
          rw (c, settle)
            (release-IsSolvent a _ l h
              (record {
                same_id = refl;
                same_order = refl;
                same_amount = refl;
                same_invoice = refl;
                no_revival = λ d. refl;
              })
              live refl sol)
      | inr c ↦
          rw (c, settle)
            (put_attempt-IsSolvent a _ l h
              (record {
                same_id = refl;
                same_order = refl;
                same_amount = refl;
                same_invoice = refl;
                no_revival = λ d. cc;
              })
              sol)
    ]

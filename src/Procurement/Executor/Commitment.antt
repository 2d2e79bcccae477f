-- ===== src/Procurement/Executor/Commitment.antt =====
-- A new attempt, and the commitment that `pay` makes for it.
use ligis.Prelude.{
  ◌+◌, ◌≤◌, ◌≡◌, false, none, some, arith, ◌==◌, get-put, weight-put_new, Bool-cases, inl, inr,
}
use ligis.Procurement.Types.{Text, Mandate, PurchaseOrder, PaymentAttempt}
use ligis.Procurement.Ledger.{
  LedgerState, get_order, get_mandate, put_mandate, get_attempt, put_attempt,
}
use ligis.Procurement.Executor.Exposure.{charge, exposure, IsSolvent}

module _ (a : PaymentAttempt) (order : PurchaseOrder) (m : Mandate) (l : LedgerState)
    (fresh : get_attempt a.attempt_id l ≡ none) (ordered : get_order a.order_id l ≡ some order)
    (held : get_mandate order.mandate_id l ≡ some m)
    (funds : m.committed + a.amount.amount ≤ m.budget.amount) (s : IsSolvent l) where
  abbrev committed : Mandate
  committed = record m { committed = m.committed + a.amount.amount }

  exposure-put_new : (k : Text) → exposure k (put_attempt a l) ≡ exposure k l + charge l.orders k a
  exposure-put_new k = weight-put_new (λ _ b. charge l.orders k b) a.attempt_id a l.attempts fresh

  -- Only the order's mandate is charged.
  charge_other : (k : Text) → (k == m.mandate_id) ≡ false → charge l.orders k a ≡ 0
  charge_other k other = ground (arith, s.mandate_ids order.mandate_id m held)

  charge_bound : (k : Text) → charge l.orders k a ≤ a.amount.amount
  charge_bound k = ground arith

  -- Storing a new attempt together with its commitment keeps the ledger solvent.
  pub commit-IsSolvent : IsSolvent (put_mandate committed (put_attempt a l))
  commit-IsSolvent = record {
    attempt_ids = λ k b h. ground (arith, get-put k a.attempt_id a l.attempts, s.attempt_ids k b);
    mandate_ids =
        λ k x h. ground (arith, get-put k m.mandate_id committed l.mandates, s.mandate_ids k x);
    covered = λ k x h. elim (Bool-cases (k == m.mandate_id)) [
      | inl same ↦
          let here : k ≡ order.mandate_id = ground (arith, s.mandate_ids order.mandate_id m held) in
          let left : x.committed ≡ m.committed + a.amount.amount =
            ground (arith, get-put k m.mandate_id committed l.mandates) in
          rw (here, left)
            (omega (
              arith,
              exposure-put_new order.mandate_id,
              charge_bound order.mandate_id,
              s.covered order.mandate_id m held,
            ))
      | inr other ↦
          let kept : get_mandate k l ≡ some x =
            ground (arith, get-put k m.mandate_id committed l.mandates) in
          omega (arith, exposure-put_new k, charge_other k other, s.covered k x kept)
    ];
    budgeted = λ k x h. ground (arith, get-put k m.mandate_id committed l.mandates, s.budgeted k x);
  }

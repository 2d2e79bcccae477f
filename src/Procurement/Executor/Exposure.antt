-- ===== src/Procurement/Executor/Exposure.antt =====
-- What the live attempts of a mandate add up to, and how each change of the ledger moves it.
use ligis.Prelude.{
  ℕ, ◌+◌, ◌-◌, ◌≤◌, ◌≡◌, ◌∙◌, Bool, true, false, ◌&&◌, none, some, arith, ap, ◌==◌, if◌then◌else◌,
  Table, get, get-put, weight, weight-put_old, Option-cases, Bool-cases, inl, inr,
}
use ligis.Procurement.Types.{Text, Mandate, Money, PurchaseOrder, PaymentAttempt, is_live}
use ligis.Procurement.Ledger.{
  LedgerState, get_order, get_mandate, put_mandate, get_attempt, put_attempt,
}
use ligis.Procurement.Executor.Defs.{release_commitment}

-- The mandate of the order that an attempt pays.
abbrev pub is_billed_to : Table PurchaseOrder → Text → PaymentAttempt → Bool
is_billed_to orders m a = elim (get a.order_id orders) [ none ↦ false | some o ↦ o.mandate_id == m ]

abbrev pub charge : Table PurchaseOrder → Text → PaymentAttempt → ℕ
charge orders m a = if is_live a.state && is_billed_to orders m a then a.amount.amount else 0

-- The sum of the live attempts' amounts under the mandate.
abbrev pub exposure : Text → LedgerState → ℕ
exposure m l = weight (λ _ a. charge l.orders m a) l.attempts

-- Every table holds its entries under their own ids; each mandate's commitment covers what its
-- live attempts add up to, and stays within its budget.
pub record IsSolvent (l : LedgerState) : Type 0 where
  pub attempt_ids : (k : Text) (a : PaymentAttempt) → get_attempt k l ≡ some a → a.attempt_id ≡ k
  pub mandate_ids : (k : Text) (m : Mandate) → get_mandate k l ≡ some m → m.mandate_id ≡ k
  pub covered : (k : Text) (m : Mandate) → get_mandate k l ≡ some m → exposure k l ≤ m.committed
  pub budgeted : (k : Text) (m : Mandate) → get_mandate k l ≡ some m → m.committed ≤ m.budget.amount

-- Two ledgers with the same orders, mandates and attempts.
pub IsSolvent-of_same :
    (l l' : LedgerState)
    → l'.orders ≡ l.orders
    → l'.mandates ≡ l.mandates
    → l'.attempts ≡ l.attempts
    → IsSolvent l
    → IsSolvent l'
IsSolvent-of_same l l' eo em ea s = record {
  attempt_ids = rw ea s.attempt_ids;
  mandate_ids = rw em s.mandate_ids;
  covered = rw (eo, em, ea) s.covered;
  budgeted = rw em s.budgeted;
}

-- An attempt that replaces a stored one, of the same order, invoice and amount, live only if that was.
pub record Succeeds (a a' : PaymentAttempt) : Type 0 where
  pub same_id : a'.attempt_id ≡ a.attempt_id
  pub same_order : a'.order_id ≡ a.order_id
  pub same_amount : a'.amount ≡ a.amount
  pub same_invoice : a'.invoice_ref ≡ a.invoice_ref
  pub no_revival : is_live a.state ≡ false → is_live a'.state ≡ false

charge_mono :
    (orders : Table PurchaseOrder) (m : Text) (a a' : PaymentAttempt)
    → Succeeds a a'
    → charge orders m a' ≤ charge orders m a
charge_mono orders m a a' s =
    ground (
      arith,
      s.no_revival,
      s.same_order,
      ap (λ (x : Text). get x orders) s.same_order,
      s.same_amount,
    )

exposure-put_old :
    (k : Text) (a a' : PaymentAttempt) (l : LedgerState)
    → get_attempt a'.attempt_id l ≡ some a
    → exposure k (put_attempt a' l) + charge l.orders k a ≡ exposure k l + charge l.orders k a'
exposure-put_old k a a' l h =
    weight-put_old (λ _ b. charge l.orders k b) a'.attempt_id a' a l.attempts h

attempt_ids-put :
    (a : PaymentAttempt) (l : LedgerState)
    → IsSolvent l
    → (k : Text) (b : PaymentAttempt) → get_attempt k (put_attempt a l) ≡ some b
    → b.attempt_id ≡ k
attempt_ids-put a l s k b h = ground (arith, get-put k a.attempt_id a l.attempts, s.attempt_ids k b)

-- Storing a successor keeps the ledger solvent.
pub put_attempt-IsSolvent :
    (a a' : PaymentAttempt) (l : LedgerState)
    → get_attempt a.attempt_id l ≡ some a
    → Succeeds a a'
    → IsSolvent l
    → IsSolvent (put_attempt a' l)
put_attempt-IsSolvent a a' l h n s = record {
  attempt_ids = attempt_ids-put a' l s;
  mandate_ids = s.mandate_ids;
  covered = λ k m e. omega (
    arith,
    exposure-put_old k a a' l (rw n.same_id h),
    charge_mono l.orders k a a' n,
    s.covered k m e,
  );
  budgeted = s.budgeted;
}

module _ (a a' : PaymentAttempt) (l : LedgerState) (stored : get_attempt a.attempt_id l ≡ some a)
    (n : Succeeds a a') (live : is_live a.state ≡ true) (dead : is_live a'.state ≡ false)
    (s : IsSolvent l) where
  exposure-put_dead :
      (order : PurchaseOrder)
      → get_order a'.order_id l ≡ some order
      → exposure order.mandate_id (put_attempt a' l) + a'.amount.amount
        ≡ exposure order.mandate_id l
  exposure-put_dead order e =
      let was : get_order a.order_id l ≡ some order = rw (← n.same_order) e in
      let charged : charge l.orders order.mandate_id a ≡ a.amount.amount = ground arith in
      let gone : charge l.orders order.mandate_id a' ≡ 0 = rw dead in
      omega (
        arith,
        exposure-put_old order.mandate_id a a' l (rw n.same_id stored),
        charged,
        gone,
        ap (λ (x : Money). x.amount) n.same_amount,
      )

  -- The case where the attempt's order and mandate are known.
  release_known :
      (order : PurchaseOrder) (m : Mandate)
      → get_order a'.order_id l ≡ some order
      → get_mandate order.mandate_id l ≡ some m
      → IsSolvent
          (put_attempt a' (put_mandate (record m { committed = m.committed - a'.amount.amount }) l))
  release_known order m e e' =
      let m' : Mandate = record m { committed = m.committed - a'.amount.amount } in
      let old = put_attempt-IsSolvent a a' l stored n s in
      let key = s.mandate_ids order.mandate_id m e' in
      record {
        attempt_ids = old.attempt_ids;
        mandate_ids =
            λ k x h. ground (arith, get-put k m.mandate_id m' l.mandates, s.mandate_ids k x);
        covered = λ k x h. elim (Bool-cases (k == m.mandate_id)) [
          | inl same ↦
              let here : k ≡ order.mandate_id = ground arith in
              let left : x.committed ≡ m.committed - a'.amount.amount =
                ground (arith, get-put k m.mandate_id m' l.mandates) in
              rw (here, left)
                (omega (arith, exposure-put_dead order e, s.covered order.mandate_id m e'))
          | inr other ↦ old.covered k x (ground (arith, get-put k m.mandate_id m' l.mandates))
        ];
        budgeted = λ k x h. ground (
          arith,
          get-put k m.mandate_id m' l.mandates,
          s.budgeted k x,
          s.budgeted order.mandate_id m e',
        );
      }

-- Cancelling a live attempt and releasing its commitment keeps the ledger solvent.
pub release-IsSolvent :
    (a a' : PaymentAttempt) (l : LedgerState)
    → get_attempt a.attempt_id l ≡ some a
    → Succeeds a a'
    → is_live a.state ≡ true
    → is_live a'.state ≡ false
    → IsSolvent l
    → IsSolvent (put_attempt a' (release_commitment a' l))
unfolding release_commitment
release-IsSolvent a a' l h n live dead s = elim (Option-cases (get_order a'.order_id l)) [
  | inl e ↦ rw (e, release_commitment) (put_attempt-IsSolvent a a' l h n s)
  | inr (order, e) ↦ elim (Option-cases (get_mandate order.mandate_id l)) [
    | inl e' ↦ rw (e, e', release_commitment) (put_attempt-IsSolvent a a' l h n s)
    | inr (m, e') ↦
        rw (e, e', release_commitment) (release_known a a' l h n live dead s order m e e')
  ]
]

pub get_attempt_self :
    (k : Text) (a : PaymentAttempt) (l : LedgerState)
    → IsSolvent l
    → get_attempt k l ≡ some a
    → get_attempt a.attempt_id l ≡ some a
get_attempt_self k a l s e = ap (λ (i : Text). get i l.attempts) (s.attempt_ids k a e) ∙ e

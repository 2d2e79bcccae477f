-- ===== src/Procurement/Controller/Checks.antt =====
-- When each check of `evaluate` stands in the way of a payment.
use ligis.Prelude.{
  ℕ, ◌+◌, ◌≤◌, ◌≡◌, ◌↔◌, ◌⊎◌, inl, inr, refl, Bool, true, false, Option, none, some, List, [], ◌∷◌,
  arith, All, any, filter, ◌==◌, Option-cases,
}
use ligis.Prelude.Double.{of_ratio, add, multiply, floor}
use ligis.Procurement.Types.{
  Instant, PurchaseOrder, Mandate, PaymentRequest, PaymentAttempt, Approval, Check, CheckResult,
  Verdict, is_unresolved, is_paid, is_live,
}
use ligis.Procurement.Controller.Defs.{
  SupplierIdentity, RailFingerprint, approval_covers, verdict_of, check_expiry, check_currency,
  check_destination, check_identity, price_limit, approved, price_checks, same_invoice,
  check_duplicate, check_prior, check_cumulative, check_mandate,
}

-- A check that neither stops the payment nor sends it to a human.
abbrev pub IsClear : Check → Type 0
IsClear c = elim c.result [ CheckResult.fail ↦ ⊥ | CheckResult.review ↦ ⊥ | _ ↦ Unit {0} ]

pub verdict_of-eq-go_iff : (cs : List Check) → (verdict_of cs ≡ Verdict.go) ↔ All IsClear cs
unfolding verdict_of
verdict_of-eq-go_iff [] = (λ _. tt, λ _. refl)
verdict_of-eq-go_iff (c ∷ cs) = grind (arith, verdict_of-eq-go_iff cs)

-- The order has not expired: it has no readable expiry, or that is not past.
abbrev pub IsCurrent : Instant → Option Instant → Type 0
IsCurrent now none = Unit
IsCurrent now (some t) = now ≤ t

pub check_expiry-IsClear_iff :
    (now : Instant) (order : PurchaseOrder)
    → IsClear (check_expiry now order) ↔ IsCurrent now order.expires_at
unfolding check_expiry
check_expiry-IsClear_iff now order = elim (Option-cases order.expires_at) [
  | inl e ↦ rw e ((λ _. tt), (λ _. tt))
  | inr (t, e) ↦ rw e (ground arith)
]

pub check_currency-IsClear_iff :
    (req : PaymentRequest) (order : PurchaseOrder)
    → IsClear (check_currency req order) ↔ (req.amount.currency ≡ order.authorized.currency)
unfolding check_currency
check_currency-IsClear_iff req order = ground arith

-- What the payout rail holds for the beneficiary was not read, or is the approved destination.
abbrev pub RailAgrees : RailFingerprint → ℕ → Type 0
RailAgrees RailFingerprint.unchecked fp = Unit
RailAgrees RailFingerprint.lookup_failed fp = ⊥
RailAgrees (RailFingerprint.found held) fp = held ≡ fp

abbrev pub IsNoneOr : Option ℕ → ℕ → Type 0
IsNoneOr none b = Unit
IsNoneOr (some a) b = a ≡ b

abbrev pub IsApprovedDestination : PaymentRequest → PurchaseOrder → RailFingerprint → Type 0
IsApprovedDestination req order rail =
    RailAgrees rail order.supplier.destination_fingerprint
    × (req.destination.fingerprint ≡ order.supplier.destination_fingerprint)
    × IsNoneOr req.destination.beneficiary_id order.supplier.beneficiary_id

pub check_destination-IsClear_iff :
    (req : PaymentRequest) (order : PurchaseOrder) (rail : RailFingerprint)
    → IsClear (check_destination req order rail) ↔ IsApprovedDestination req order rail
unfolding check_destination
check_destination-IsClear_iff req order RailFingerprint.unchecked = ground arith
check_destination-IsClear_iff req order RailFingerprint.lookup_failed = ground arith
check_destination-IsClear_iff req order (RailFingerprint.found fp) = ground arith

-- A verifier that was asked has vouched for the supplier.
abbrev pub IsVerifiedOr : Option SupplierIdentity → Type 0
IsVerifiedOr none = Unit
IsVerifiedOr (some i) = i.verified ≡ true

-- The supplier is verified as far as the order asks for it.
abbrev pub IsIdentified : PurchaseOrder → Option SupplierIdentity → Type 0
IsIdentified order identity = (order.require_verified_supplier ≡ false) ⊎ IsVerifiedOr identity

pub check_identity-IsClear_iff :
    (order : PurchaseOrder) (identity : Option SupplierIdentity)
    → IsClear (check_identity order identity) ↔ IsIdentified order identity
unfolding check_identity
check_identity-IsClear_iff order none = ground arith
check_identity-IsClear_iff order (some i) = ground arith

-- An unused approval that was given for exactly this order, invoice, amount and destination.
pub record Covers (a : Approval) (req : PaymentRequest) : Type 0 where
  pub unused : a.used ≡ false
  pub order : a.bound_to.order_id ≡ req.order_id
  pub invoice : a.bound_to.invoice_ref ≡ req.invoice_ref
  pub amount : a.bound_to.amount.amount ≡ req.amount.amount
  pub currency : a.bound_to.amount.currency ≡ req.amount.currency
  pub fingerprint : a.bound_to.fingerprint ≡ req.destination.fingerprint

pub approval_covers_iff :
    (a : Approval) (req : PaymentRequest) → (approval_covers a req ≡ true) ↔ Covers a req
unfolding approval_covers
approval_covers_iff a req = (
  λ h. record {
    unused = ground arith;
    order = ground arith;
    invoice = ground arith;
    amount = ground arith;
    currency = ground arith;
    fingerprint = ground arith;
  },
  λ c. ground arith,
)

abbrev pub HasCover : Option Approval → PaymentRequest → Type 0
HasCover none req = ⊥
HasCover (some a) req = Covers a req

-- The highest whole amount within the order's tolerance, as doubles give it: the authorized amount
-- times the sum of one and the hundredth part of the percentage.
abbrev pub highest_price : PurchaseOrder → ℕ
highest_price order =
    let tolerance = of_ratio order.price_tolerance_pct 100 in
    floor (multiply (of_ratio order.authorized.amount 1) (add (of_ratio 1 1) tolerance))

pub price_limit_lem : (order : PurchaseOrder) → price_limit order ≡ highest_price order
unfolding price_limit
price_limit_lem order = refl

-- The amount is within the order's price and tolerance.
abbrev pub IsWithinTolerance : PaymentRequest → PurchaseOrder → Type 0
IsWithinTolerance req order =
    (req.amount.amount ≤ order.authorized.amount) ⊎ (req.amount.amount ≤ highest_price order)

pub price_checks-IsClear_iff :
    (req : PaymentRequest) (order : PurchaseOrder) (approval : Option Approval)
    → All IsClear (price_checks req order (approved req approval)).checks
      ↔ (IsWithinTolerance req order ⊎ HasCover approval req)
unfolding price_checks approved
price_checks-IsClear_iff req order none = ground (arith, price_limit_lem order)
price_checks-IsClear_iff req order (some a) =
    ground (arith, price_limit_lem order, approval_covers_iff a req)

-- No attempt for the invoice has left money on its way or paid.
abbrev pub IsUnpaid : PaymentRequest → List PaymentAttempt → Type 0
IsUnpaid req attempts =
    All (λ a. a.invoice_ref ≡ req.invoice_ref → is_live a.state ≡ false) attempts

pub any-filter {ℓ} :
    {A : Type ℓ} (p q : A → Bool) (xs : List A)
    → (any p (filter q xs) ≡ false) ↔ All (λ x. q x ≡ true → p x ≡ false) xs
any-filter p q [] = ((λ _. tt), (λ _. refl))
any-filter p q (x ∷ xs) = ground (arith, any-filter p q xs)

check_duplicate-IsClear_iff :
    (req : PaymentRequest) (attempts : List PaymentAttempt)
    → IsClear (check_duplicate req attempts)
      ↔ (any (λ a. is_paid a.state) (same_invoice req attempts) ≡ false)
unfolding check_duplicate
check_duplicate-IsClear_iff req attempts = ground arith

check_prior-IsClear_iff :
    (req : PaymentRequest) (attempts : List PaymentAttempt)
    → IsClear (check_prior req attempts)
      ↔ (any (λ a. is_unresolved a.state) (same_invoice req attempts) ≡ false)
unfolding check_prior
check_prior-IsClear_iff req attempts = ground arith

live_split :
    (a : PaymentAttempt)
    → (is_live a.state ≡ false) ↔ ((is_paid a.state ≡ false) × (is_unresolved a.state ≡ false))
live_split a = ground arith

IsUnpaid-split :
    (req : PaymentRequest) (attempts : List PaymentAttempt)
    → (All (λ a. (a.invoice_ref == req.invoice_ref) ≡ true → is_paid a.state ≡ false) attempts
        × All
            (λ a. (a.invoice_ref == req.invoice_ref) ≡ true → is_unresolved a.state ≡ false)
            attempts)
      ↔ IsUnpaid req attempts
IsUnpaid-split req [] = ((λ _. tt), (λ _. (tt, tt)))
IsUnpaid-split req (a ∷ rest) = ground (arith, IsUnpaid-split req rest, live_split a)

-- The checks "duplicate-invoice" and "prior-attempt" together.
pub duplicate_prior-IsClear_iff :
    (req : PaymentRequest) (attempts : List PaymentAttempt)
    → (IsClear (check_duplicate req attempts) × IsClear (check_prior req attempts))
      ↔ IsUnpaid req attempts
duplicate_prior-IsClear_iff req attempts = ground (
  arith,
  check_duplicate-IsClear_iff req attempts,
  check_prior-IsClear_iff req attempts,
  any-filter (λ (a : PaymentAttempt). is_paid a.state) (λ a. a.invoice_ref == req.invoice_ref)
      attempts,
  any-filter (λ (a : PaymentAttempt). is_unresolved a.state) (λ a. a.invoice_ref == req.invoice_ref)
      attempts,
  IsUnpaid-split req attempts,
)

-- The request and the order's other committed invoices stay within a limit.
abbrev pub FitsOrder : PaymentRequest → ℕ → ℕ → Type 0
FitsOrder req committed limit = (committed ≡ 0) ⊎ (committed + req.amount.amount ≤ limit)

pub check_cumulative-IsClear_iff :
    (req : PaymentRequest) (committed limit : ℕ)
    → IsClear (check_cumulative req committed limit) ↔ FitsOrder req committed limit
unfolding check_cumulative
check_cumulative-IsClear_iff req committed limit = ground arith

-- The mandate is the agent's, in the invoice's currency, and has the amount left.
pub record Funds (m : Mandate) (req : PaymentRequest) : Type 0 where
  pub agent : m.agent_id ≡ req.agent_id
  pub currency : m.budget.currency ≡ req.amount.currency
  pub available : m.committed + req.amount.amount ≤ m.budget.amount

abbrev pub HasFunds : Option Mandate → PaymentRequest → Type 0
HasFunds none req = ⊥
HasFunds (some m) req = Funds m req

pub check_mandate-IsClear_iff :
    (req : PaymentRequest) (mandate : Option Mandate)
    → IsClear (check_mandate req mandate) ↔ HasFunds mandate req
unfolding check_mandate
check_mandate-IsClear_iff req none = ground arith
check_mandate-IsClear_iff req (some m) = (
  λ h. record { agent = ground arith; currency = ground arith; available = ground arith },
  λ f. ground arith,
)

-- ===== src/Procurement/Controller/Defs.antt =====
-- The definitions of controller.ts. SHA-256 of the canonical JSON and the random decision id are
-- arguments; a check's `evidence` object is left out.
use ligis.Prelude.{
  ℕ, ◌+◌, Bool, true, false, not, ◌&&◌, ◌||◌, Option, none, some, List, [], ◌∷◌, ◌++◌, map, ltb,
  leb, ◌==◌, if◌then◌else◌, find, any, filter, last?, total,
}
use ligis.Prelude.Double.{round, of_ratio, add, multiply, floor}
use ligis.Procurement.Types.{
  Text, Instant, PurchaseOrder, Mandate, PaymentRequest, PaymentAttempt, Approval, Decision, Check,
  CheckId, CheckResult, Detail, Verdict, is_unresolved, is_paid, is_cancelled, money_eq,
}

pub record SupplierIdentity : Type 0 where
  pub verified : Bool
  pub source : Text

-- `string | null | undefined`
pub data RailFingerprint : Type 0 where
  unchecked lookup_failed : RailFingerprint
  found : Text → RailFingerprint

pub record EvaluateContext : Type 0 where
  pub order : Option PurchaseOrder
  pub mandate : Option Mandate
  pub attempts : List PaymentAttempt
  pub approval : Option Approval
  pub supplier_identity : Option SupplierIdentity
  pub rail_destination_fingerprint : RailFingerprint
  pub now : Instant

-- What `evidenceHash` serialises.
pub record Evidence : Type 0 where
  pub request : PaymentRequest
  pub order : Option PurchaseOrder
  pub mandate : Option Mandate
  pub attempts : List PaymentAttempt
  pub rail_destination_fingerprint : RailFingerprint
  pub supplier_identity : Option SupplierIdentity

pub evidence_hash : (Evidence → Text) → PaymentRequest → EvaluateContext → Text
evidence_hash sha256 req ctx = sha256 (record {
  request = req;
  order = ctx.order;
  mandate = ctx.mandate;
  attempts = ctx.attempts;
  rail_destination_fingerprint = ctx.rail_destination_fingerprint;
  supplier_identity = ctx.supplier_identity;
})

unfoldable pub approval_covers : Approval → PaymentRequest → Bool
approval_covers approval req =
    not approval.used
    && (approval.bound_to.order_id == req.order_id
        && (approval.bound_to.invoice_ref == req.invoice_ref
            && (money_eq approval.bound_to.amount req.amount
                && approval.bound_to.fingerprint == req.destination.fingerprint)))

abbrev check : CheckId → CheckResult → Detail → Check
check i r d = record { id = i; result = r; detail = d }

abbrev pub is_fail : Check → Bool
is_fail c = elim c.result [ CheckResult.fail ↦ true | _ ↦ false ]

abbrev pub is_review : Check → Bool
is_review c = elim c.result [ CheckResult.review ↦ true | _ ↦ false ]

-- `fail ? "STOP" : review ? "REVIEW" : "GO"`
unfoldable pub verdict_of : List Check → Verdict
verdict_of checks = elim (find is_fail checks) [
  | some _ ↦ Verdict.stop
  | none ↦ elim (find is_review checks) [ some _ ↦ Verdict.review | none ↦ Verdict.go ]
]

-- `(fail ?? review)?.detail`
pub reason_of : List Check → Option Detail
reason_of checks = elim (find is_fail checks) [
  | some c ↦ some c.detail
  | none ↦ elim (find is_review checks) [ some c ↦ some c.detail | none ↦ none ]
]

-- `now > Date.parse(expiresAt)`, which is false at `NaN`.
is_past : Instant → Option Instant → Bool
is_past now none = false
is_past now (some t) = ltb t now

unfoldable pub check_expiry : Instant → PurchaseOrder → Check
unfolding is_past
check_expiry now order =
    if is_past now order.expires_at
    then check CheckId.expiry CheckResult.fail Detail.expired
    else check CheckId.expiry CheckResult.pass Detail.valid_until

unfoldable pub check_currency : PaymentRequest → PurchaseOrder → Check
check_currency req order =
    if req.amount.currency == order.authorized.currency
    then check CheckId.currency CheckResult.pass Detail.currency_matches
    else check CheckId.currency CheckResult.fail Detail.currency_mismatch

beneficiary_matches : PaymentRequest → PurchaseOrder → Bool
beneficiary_matches req order = elim req.destination.beneficiary_id [
  | none ↦ true
  | some b ↦ b == order.supplier.beneficiary_id
]

presented_destination : PaymentRequest → PurchaseOrder → Detail → Check
unfolding beneficiary_matches
presented_destination req order matched =
    if req.destination.fingerprint == order.supplier.destination_fingerprint
      && beneficiary_matches req order
    then check CheckId.supplier_destination CheckResult.pass matched
    else check CheckId.supplier_destination CheckResult.fail Detail.destination_changed

unfoldable pub check_destination : PaymentRequest → PurchaseOrder → RailFingerprint → Check
unfolding presented_destination
check_destination req order RailFingerprint.lookup_failed =
    check CheckId.supplier_destination CheckResult.fail Detail.rail_lookup_failed
check_destination req order (RailFingerprint.found fp) =
    if fp == order.supplier.destination_fingerprint
    then presented_destination req order Detail.destination_verified_at_rail
    else check CheckId.supplier_destination CheckResult.fail Detail.rail_record_changed
check_destination req order RailFingerprint.unchecked =
    presented_destination req order Detail.destination_matches

unfoldable pub check_identity : PurchaseOrder → Option SupplierIdentity → Check
check_identity order identity =
    if order.require_verified_supplier
    then (elim identity [
      | none ↦ check CheckId.supplier_identity CheckResult.skipped Detail.no_verifier
      | some i ↦
          if i.verified
          then check CheckId.supplier_identity CheckResult.pass Detail.identity_verified
          else check CheckId.supplier_identity CheckResult.review Detail.identity_unverified
    ])
    else check CheckId.supplier_identity CheckResult.skipped Detail.identity_not_required

-- `order.authorized.amount * (1 + order.priceTolerancePct / 100)`, computed with doubles. It is only
-- compared with integers, so its integer part is enough.
unfoldable pub price_limit : PurchaseOrder → ℕ
unfolding round
price_limit order = floor (
    multiply (of_ratio order.authorized.amount 1)
      (add (of_ratio 1 1) (of_ratio order.price_tolerance_pct 100)))

-- The approval of the context, if it covers the request.
unfoldable pub approved : PaymentRequest → Option Approval → Option Approval
approved req none = none
approved req (some a) = if approval_covers a req then some a else none

pub record Pricing : Type 0 where
  pub checks : List Check
  pub effective_limit : ℕ

-- The checks "price" and "approval", and the limit for the cumulative check.
unfoldable pub price_checks : PaymentRequest → PurchaseOrder → Option Approval → Pricing
price_checks req order covering =
    if leb req.amount.amount order.authorized.amount
    then record {
      checks =
          check CheckId.price CheckResult.pass Detail.within_authorized
          ∷ check CheckId.approval CheckResult.skipped Detail.no_approval_required
          ∷ [];
      effective_limit = price_limit order;
    }
    else if leb req.amount.amount (price_limit order)
    then record {
      checks =
          check CheckId.price CheckResult.pass Detail.within_tolerance
          ∷ check CheckId.approval CheckResult.skipped Detail.no_approval_required
          ∷ [];
      effective_limit = price_limit order;
    }
    else (elim covering [
      | some a ↦ record {
        checks =
            check CheckId.approval CheckResult.pass Detail.covered_by_approval
            ∷ check CheckId.price CheckResult.pass Detail.within_approved
            ∷ [];
        effective_limit = a.bound_to.amount.amount;
      }
      | none ↦ record {
        checks =
            check CheckId.approval CheckResult.skipped Detail.no_valid_approval
            ∷ check CheckId.price CheckResult.review Detail.exceeds_tolerance
            ∷ [];
        effective_limit = price_limit order;
      }
    ])

-- `ctx.attempts.filter((a) => a.invoiceRef === req.invoiceRef)`
abbrev pub same_invoice : PaymentRequest → List PaymentAttempt → List PaymentAttempt
same_invoice req = filter (λ a. a.invoice_ref == req.invoice_ref)

unfoldable pub check_duplicate : PaymentRequest → List PaymentAttempt → Check
check_duplicate req attempts =
    if any (λ a. is_paid a.state) (same_invoice req attempts)
    then check CheckId.duplicate_invoice CheckResult.fail Detail.already_paid
    else check CheckId.duplicate_invoice CheckResult.pass Detail.not_paid

unfoldable pub check_prior : PaymentRequest → List PaymentAttempt → Check
check_prior req attempts =
    if any (λ a. is_unresolved a.state) (same_invoice req attempts)
    then check CheckId.prior_attempt CheckResult.fail Detail.unresolved_attempt
    else (elim (last? (filter (λ a. is_cancelled a.state) (same_invoice req attempts))) [
      | some _ ↦ check CheckId.prior_attempt CheckResult.pass Detail.replaces_cancelled
      | none ↦ check CheckId.prior_attempt CheckResult.pass Detail.no_prior_attempts
    ])

-- What the other invoices of the order have committed.
unfoldable pub cumulative : PaymentRequest → List PaymentAttempt → ℕ
cumulative req attempts =
    total (λ a. a.amount.amount)
      (filter
        (λ a. not (a.invoice_ref == req.invoice_ref) && (is_unresolved a.state || is_paid a.state))
        attempts)

unfoldable pub check_cumulative : PaymentRequest → ℕ → ℕ → Check
check_cumulative req committed limit =
    if ltb 0 committed && ltb limit (committed + req.amount.amount)
    then check CheckId.order_cumulative CheckResult.fail Detail.over_order_limit
    else check CheckId.order_cumulative CheckResult.pass Detail.within_order_limit

-- `budget - committed < amount`, which may be negative on the left, is tested without `-`.
unfoldable pub check_mandate : PaymentRequest → Option Mandate → Check
check_mandate req none = check CheckId.mandate CheckResult.fail Detail.mandate_missing
check_mandate req (some m) =
    if not (m.agent_id == req.agent_id)
    then check CheckId.mandate CheckResult.fail Detail.wrong_agent
    else if not (m.budget.currency == req.amount.currency)
    then check CheckId.mandate CheckResult.fail Detail.budget_currency
    else if ltb m.budget.amount (m.committed + req.amount.amount)
    then check CheckId.mandate CheckResult.fail Detail.mandate_exhausted
    else check CheckId.mandate CheckResult.pass Detail.mandate_covers

-- The checks of a request that names no known order.
unfoldable pub checks_without_order : List Check
checks_without_order =
    check CheckId.order CheckResult.fail Detail.no_purchase_order
    ∷ map (λ i. check i CheckResult.skipped Detail.nothing_to_evaluate)
        (CheckId.expiry ∷ CheckId.currency ∷ CheckId.supplier_destination
          ∷ CheckId.supplier_identity ∷ CheckId.price ∷ CheckId.approval ∷ CheckId.duplicate_invoice
          ∷ CheckId.prior_attempt ∷ CheckId.order_cumulative ∷ CheckId.mandate ∷ [])

-- The checks against an order, in the order in which `evaluate` pushes them.
unfoldable pub checks_with_order : PaymentRequest → EvaluateContext → PurchaseOrder → List Check
checks_with_order req ctx order =
    let pricing = price_checks req order (approved req ctx.approval) in
    check CheckId.order CheckResult.pass Detail.order_found
      ∷ check_expiry ctx.now order
      ∷ check_currency req order
      ∷ check_destination req order ctx.rail_destination_fingerprint
      ∷ check_identity order ctx.supplier_identity
      ∷ pricing.checks
    ++ (check_duplicate req ctx.attempts
        ∷ check_prior req ctx.attempts
        ∷ check_cumulative req (cumulative req ctx.attempts) pricing.effective_limit
        ∷ check_mandate req ctx.mandate
        ∷ [])

unfoldable pub all_checks : PaymentRequest → EvaluateContext → List Check
all_checks req ctx = elim ctx.order [
  | none ↦ checks_without_order
  | some order ↦ checks_with_order req ctx order
]

unfoldable pub evaluate : (Evidence → Text) → Text → PaymentRequest → EvaluateContext → Decision
evaluate sha256 uuid req ctx =
    let checks = all_checks req ctx in
    record {
      decision_id = uuid;
      verdict = verdict_of checks;
      checks = checks;
      reason = reason_of checks;
      evidence_hash = evidence_hash sha256 req ctx;
      at = ctx.now;
    }

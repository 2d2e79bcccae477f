-- ===== src/Procurement/Controller/Justified.antt =====
-- What justifies a payment, said without the checks, and that `evaluate` answers GO exactly then.
use ligis.Prelude.{
  ℕ, refl, subst, not, ◌&&◌, ◌+◌, ◌==◌, if◌then◌else◌, List, [], ◌∷◌, ◌≡◌, ◌↔◌, ◌⊎◌, inl, inr,
  Option, none, some, arith, All, All-append_iff, Option-cases,
}
use ligis.Procurement.Types.{
  PaymentAttempt, is_live, Text, PurchaseOrder, PaymentRequest, Approval, Verdict,
}
use ligis.Procurement.Controller.Defs.{
  EvaluateContext, Evidence, price_limit, cumulative, approved, price_checks, checks_without_order,
  checks_with_order, all_checks, evaluate, check_cumulative,
}
use ligis.Procurement.Controller.Checks.{
  IsClear, highest_price, price_limit_lem, IsCurrent, IsApprovedDestination, IsIdentified, HasCover,
  IsWithinTolerance, IsUnpaid, FitsOrder, HasFunds, verdict_of-eq-go_iff, check_expiry-IsClear_iff,
  check_currency-IsClear_iff, check_destination-IsClear_iff, check_identity-IsClear_iff,
  duplicate_prior-IsClear_iff, check_cumulative-IsClear_iff, check_mandate-IsClear_iff,
  approval_covers_iff,
}

-- The amounts of the live attempts for other invoices, added up.
abbrev pub committed_elsewhere : PaymentRequest → List PaymentAttempt → ℕ
committed_elsewhere req [] = 0
committed_elsewhere req (a ∷ rest) =
    (if is_live a.state && not (a.invoice_ref == req.invoice_ref) then a.amount.amount else 0)
    + committed_elsewhere req rest

pub cumulative_lem :
    (req : PaymentRequest) (attempts : List PaymentAttempt)
    → committed_elsewhere req attempts ≡ cumulative req attempts
unfolding cumulative
cumulative_lem req [] = refl
cumulative_lem req (a ∷ rest) = ground (arith, cumulative_lem req rest)

-- The price is within tolerance, and with the order's other invoices too; or a human has approved
-- this payment, and the order has no other committed invoice.
abbrev pub IsPriced : PaymentRequest → PurchaseOrder → ℕ → Option Approval → Type 0
IsPriced req order committed approval =
    (IsWithinTolerance req order × FitsOrder req committed (highest_price order))
    ⊎ (HasCover approval req × (committed ≡ 0))

-- Why the payment may be made against the order.
pub record JustifiedBy (req : PaymentRequest) (ctx : EvaluateContext) (order : PurchaseOrder)
    : Type 0 where
  pub current : IsCurrent ctx.now order.expires_at
  pub currency : req.amount.currency ≡ order.authorized.currency
  pub destination : IsApprovedDestination req order ctx.rail_destination_fingerprint
  pub identity : IsIdentified order ctx.supplier_identity
  pub priced : IsPriced req order (committed_elsewhere req ctx.attempts) ctx.approval
  pub unpaid : IsUnpaid req ctx.attempts
  pub funds : HasFunds ctx.mandate req

abbrev pub Justified : PaymentRequest → EvaluateContext → Type 0
Justified req ctx = (order : PurchaseOrder) × (ctx.order ≡ some order) × JustifiedBy req ctx order

-- The price checks and the cumulative check together.
pub IsPriced-iff :
    (req : PaymentRequest) (order : PurchaseOrder) (committed : ℕ) (approval : Option Approval)
    → let pricing = price_checks req order (approved req approval) in
      (All IsClear pricing.checks
        × IsClear (check_cumulative req committed pricing.effective_limit))
      ↔ IsPriced req order committed approval
unfolding price_checks approved
IsPriced-iff req order committed none =
    ground
      (arith, price_limit_lem order, check_cumulative-IsClear_iff req committed (price_limit order))
IsPriced-iff req order committed (some a) = ground (
  arith,
  approval_covers_iff a req,
  price_limit_lem order,
  check_cumulative-IsClear_iff req committed (price_limit order),
  check_cumulative-IsClear_iff req committed (a.bound_to.amount.amount),
)

-- The checks against an order are all clear exactly for a justified payment.
pub checks_with_order_iff :
    (req : PaymentRequest) (ctx : EvaluateContext) (order : PurchaseOrder)
    → All IsClear (checks_with_order req ctx order) ↔ JustifiedBy req ctx order
unfolding checks_with_order
checks_with_order_iff req ctx order =
    let pricing = price_checks req order (approved req ctx.approval) in
    let split = All-append_iff IsClear pricing.checks _ in
    let expiry = check_expiry-IsClear_iff ctx.now order in
    let currency = check_currency-IsClear_iff req order in
    let destination = check_destination-IsClear_iff req order ctx.rail_destination_fingerprint in
    let identity = check_identity-IsClear_iff order ctx.supplier_identity in
    let paid = duplicate_prior-IsClear_iff req ctx.attempts in
    let priced =
      subst
        (λ n.
          (All IsClear pricing.checks × IsClear (check_cumulative req n pricing.effective_limit))
          ↔ IsPriced req order (committed_elsewhere req ctx.attempts) ctx.approval)
        (cumulative_lem req ctx.attempts)
        (IsPriced-iff req order (committed_elsewhere req ctx.attempts) ctx.approval) in
    let mandate = check_mandate-IsClear_iff req ctx.mandate in
    (
      λ h.
          let (prices, others) = split.0 h.1.1.1.1.1 in
          record {
            current = expiry.0 h.1.0;
            currency = currency.0 h.1.1.0;
            destination = destination.0 h.1.1.1.0;
            identity = identity.0 h.1.1.1.1.0;
            priced = priced.0 (prices, others.1.1.0);
            unpaid = paid.0 (others.0, others.1.0);
            funds = mandate.0 others.1.1.1.0;
          },
      λ j.
          let (prices, fits) = priced.1 j.priced in
          let (unpaid, resolved) = paid.1 j.unpaid in
          (
            tt,
            (
              expiry.1 j.current,
              (
                currency.1 j.currency,
                (
                  destination.1 j.destination,
                  (
                    identity.1 j.identity,
                    split.1 (prices, (unpaid, (resolved, (fits, (mandate.1 j.funds, tt))))),
                  ),
                ),
              ),
            ),
          ),
    )

all_checks_iff :
    (req : PaymentRequest) (ctx : EvaluateContext)
    → All IsClear (all_checks req ctx) ↔ Justified req ctx
unfolding all_checks checks_without_order
all_checks_iff req ctx = elim (Option-cases ctx.order) [
  | inl e ↦ rw e ((λ h. absurd h.0), (λ j. cc (j.1)))
  | inr (order, e) ↦ (
    λ h. (order, e, (checks_with_order_iff req ctx order).0 (rw (e, all_checks) at h)),
    λ j. rw (j.1, all_checks) ((checks_with_order_iff req ctx j.0).1 j.2),
  )
]

-- `evaluate` answers GO exactly for a justified payment: against a known, unexpired order, in its
-- currency, to the approved destination (also at the rail, where that was read), to a verified
-- supplier where the order asks for one and a verifier was asked, for an invoice with no attempt that
-- is live, with funds left in the mandate; and either at a price within tolerance, as doubles give
-- it, also together with the order's other live invoices, or approved by a human and with no other
-- live invoice of a positive amount.
pub evaluate-go_iff :
    (sha256 : Evidence → Text) (uuid : Text) (req : PaymentRequest) (ctx : EvaluateContext)
    → ((evaluate sha256 uuid req ctx).verdict ≡ Verdict.go) ↔ Justified req ctx
unfolding evaluate
evaluate-go_iff sha256 uuid req ctx =
    let clear = verdict_of-eq-go_iff (all_checks req ctx) in
    let justified = all_checks_iff req ctx in
    (λ h. justified.0 (clear.0 h), λ j. clear.1 (justified.1 j))

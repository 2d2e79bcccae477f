-- ===== src/Procurement/Executor/Approval.antt =====
-- What a human approval can and cannot do for a payment that `evaluate` sent to review.
use ligis.Prelude.{
  ℕ, ◌≡◌, ◌≢◌, inl, inr, refl, sym, ◌∙◌, subst, ◌↔◌, true, false, not, ◌&&◌, Option, none, some,
  some-injective, List, [], ◌∷◌, arith, All, All-append_iff, find, Option-cases,
}
use ligis.Procurement.Types.{
  Text, Instant, PaymentRequest, PurchaseOrder, PaymentAttempt, Mandate, Approval, Check, Verdict,
}
use ligis.Procurement.Ledger.{LedgerState, StoredDecision, get_decision, put_approval}
use ligis.Procurement.Controller.Defs.{
  RailFingerprint, SupplierIdentity, EvaluateContext, Evidence, is_fail, is_review, verdict_of,
  check_expiry, check_currency, check_destination, check_identity, price_checks, approved,
  check_duplicate, check_prior, check_cumulative, check_mandate, cumulative, checks_without_order,
  checks_with_order, all_checks, evaluate,
}
use ligis.Procurement.Controller.Checks.{
  IsClear, highest_price, Covers, IsWithinTolerance, FitsOrder, IsIdentified,
  check_expiry-IsClear_iff, check_currency-IsClear_iff, check_destination-IsClear_iff,
  duplicate_prior-IsClear_iff, check_mandate-IsClear_iff,
}
use ligis.Procurement.Controller.Justified.{committed_elsewhere, JustifiedBy, evaluate-go_iff}
use ligis.Procurement.Executor.Defs.{
  approve, approval_of, is_approvable, is_settled, ApproveResult, not_review,
}

-- The checks that only pass or fail.
abbrev Decides : Check → Type 0
Decides c = is_review c ≡ false

module _ (req : PaymentRequest) (order : PurchaseOrder) where
  expiry-Decides : (now : Instant) → Decides (check_expiry now order)
  unfolding check_expiry
  expiry-Decides now = ground arith

  currency-Decides : Decides (check_currency req order)
  unfolding check_currency
  currency-Decides = ground arith

  destination-Decides : (rail : RailFingerprint) → Decides (check_destination req order rail)
  unfolding check_destination
  destination-Decides RailFingerprint.unchecked = ground arith
  destination-Decides RailFingerprint.lookup_failed = ground arith
  destination-Decides (RailFingerprint.found fp) = ground arith

module _ (req : PaymentRequest) where
  duplicate-Decides : (attempts : List PaymentAttempt) → Decides (check_duplicate req attempts)
  unfolding check_duplicate
  duplicate-Decides attempts = ground arith

  prior-Decides : (attempts : List PaymentAttempt) → Decides (check_prior req attempts)
  unfolding check_prior
  prior-Decides attempts = ground arith

  cumulative-Decides : (n limit : ℕ) → Decides (check_cumulative req n limit)
  unfolding check_cumulative
  cumulative-Decides n limit = ground arith

  mandate-Decides : (m : Option Mandate) → Decides (check_mandate req m)
  unfolding check_mandate
  mandate-Decides none = ground arith
  mandate-Decides (some m) = ground arith

-- The checks that may send a payment to review are those that a human may approve.
abbrev IsReviewable : Check → Type 0
IsReviewable c = is_review c ≡ true → is_approvable c.id ≡ true

identity-IsReviewable :
    (order : PurchaseOrder) (identity : Option SupplierIdentity)
    → IsReviewable (check_identity order identity)
unfolding check_identity
identity-IsReviewable order none h = ground arith
identity-IsReviewable order (some i) h = ground arith

prices-IsReviewable :
    (req : PaymentRequest) (order : PurchaseOrder) (covering : Option Approval)
    → All IsReviewable (price_checks req order covering).checks
unfolding price_checks
prices-IsReviewable req order none = ground arith
prices-IsReviewable req order (some a) = ground arith

all_checks-IsReviewable :
    (req : PaymentRequest) (ctx : EvaluateContext) → All IsReviewable (all_checks req ctx)
unfolding all_checks checks_without_order checks_with_order
all_checks-IsReviewable req ctx = elim (Option-cases ctx.order) [
  | inl e ↦ rw (e, all_checks) (ground arith)
  | inr (order, e) ↦
      let pricing = price_checks req order (approved req ctx.approval) in
      rw (e, all_checks)
        (
          (λ h. cc),
          (
            (λ h. cc (expiry-Decides req order ctx.now)),
            (
              (λ h. cc (currency-Decides req order)),
              (
                (λ h. cc (destination-Decides req order ctx.rail_destination_fingerprint)),
                (
                  identity-IsReviewable order ctx.supplier_identity,
                  (All-append_iff IsReviewable pricing.checks _).1 (
                    prices-IsReviewable req order (approved req ctx.approval),
                    (
                      (λ h. cc (duplicate-Decides req ctx.attempts)),
                      (
                        (λ h. cc (prior-Decides req ctx.attempts)),
                        (
                          (λ h. cc (
                              cumulative-Decides req (cumulative req ctx.attempts)
                                pricing.effective_limit)),
                          ((λ h. cc (mandate-Decides req ctx.mandate)), tt),
                        ),
                      ),
                    ),
                  ),
                ),
              ),
            ),
          ),
        )
]

-- The test of `approve` finds nothing where no check fails.
nothing_bad :
    (cs : List Check)
    → find is_fail cs ≡ none
    → All IsReviewable cs
    → find (λ c. not (is_settled c.result) && not (is_approvable c.id)) cs ≡ none
nothing_bad [] e h = refl
nothing_bad (c ∷ cs) e h = ground (arith, nothing_bad cs)

verdict_of-eq-review : (cs : List Check) → verdict_of cs ≡ Verdict.review → find is_fail cs ≡ none
unfolding verdict_of
verdict_of-eq-review cs h = ground arith

approve_by_verdict :
    (uuid decision_id approver : Text) (stored : StoredDecision) (l : LedgerState) (v : Verdict)
    → get_decision decision_id l ≡ some stored
    → stored.decision.verdict ≡ v
    → (v ≡ Verdict.review
        → find (λ c. not (is_settled c.result) && not (is_approvable c.id)) stored.decision.checks
          ≡ none)
    → approve uuid decision_id approver l ≡ elim v [
      | Verdict.review ↦
          ApproveResult.approved
            (approval_of uuid decision_id approver stored.request)
            (put_approval (approval_of uuid decision_id approver stored.request) l)
      | _ ↦ ApproveResult.refused not_review
    ]
unfolding approve
approve_by_verdict uuid decision_id approver stored l Verdict.go h e ok = rw (h, e, approve)
approve_by_verdict uuid decision_id approver stored l Verdict.stop h e ok = rw (h, e, approve)
approve_by_verdict uuid decision_id approver stored l Verdict.review h e ok =
    rw (h, e, ok refl, approve)

-- `approve` accepts every decision of `evaluate` that is REVIEW, and stores an unused approval bound
-- to the request; it refuses every other as not reviewable. Its further test never refuses one.
pub approve-evaluate :
    (sha256 : Evidence → Text) (uuid decision_id approver : Text) (req : PaymentRequest)
    (ctx : EvaluateContext) (l : LedgerState)
    → get_decision decision_id l
      ≡ some (record { decision = evaluate sha256 decision_id req ctx; request = req })
    → approve uuid decision_id approver l ≡ elim (evaluate sha256 decision_id req ctx).verdict [
      | Verdict.review ↦
          ApproveResult.approved
            (approval_of uuid decision_id approver req)
            (put_approval (approval_of uuid decision_id approver req) l)
      | _ ↦ ApproveResult.refused not_review
    ]
unfolding evaluate
approve-evaluate sha256 uuid decision_id approver req ctx l h =
    approve_by_verdict uuid decision_id approver _ l (verdict_of (all_checks req ctx)) h refl
      (λ review.
        nothing_bad (all_checks req ctx) (verdict_of-eq-review (all_checks req ctx) review)
          (all_checks-IsReviewable req ctx))

no_fail : (cs : List Check) → find is_fail cs ≡ none → All (λ c. is_fail c ≡ false) cs
no_fail [] e = tt
no_fail (c ∷ cs) e = ground (arith, no_fail cs)

decided : (c : Check) → is_fail c ≡ false → Decides c → IsClear c
decided c f d = ground arith

-- What a decision without a failing check says of the checks that only pass or fail.
record Passes (req : PaymentRequest) (ctx : EvaluateContext) (order : PurchaseOrder) : Type 0 where
  expiry : IsClear (check_expiry ctx.now order)
  currency : IsClear (check_currency req order)
  destination : IsClear (check_destination req order ctx.rail_destination_fingerprint)
  duplicate : IsClear (check_duplicate req ctx.attempts)
  prior : IsClear (check_prior req ctx.attempts)
  mandate : IsClear (check_mandate req ctx.mandate)

passes :
    (req : PaymentRequest) (ctx : EvaluateContext) (order : PurchaseOrder)
    → ctx.order ≡ some order
    → find is_fail (all_checks req ctx) ≡ none
    → Passes req ctx order
unfolding all_checks checks_with_order
passes req ctx order e h =
    let pricing = price_checks req order (approved req ctx.approval) in
    let all : All (λ c. is_fail c ≡ false) (checks_with_order req ctx order) =
      no_fail (checks_with_order req ctx order) (rw (e, all_checks) at h) in
    let others = ((All-append_iff (λ c. is_fail c ≡ false) pricing.checks _).0 all.1.1.1.1.1).1 in
    record {
      expiry = decided (check_expiry ctx.now order) all.1.0 (expiry-Decides req order ctx.now);
      currency = decided (check_currency req order) all.1.1.0 (currency-Decides req order);
      destination =
          decided (check_destination req order ctx.rail_destination_fingerprint) all.1.1.1.0
            (destination-Decides req order ctx.rail_destination_fingerprint);
      duplicate =
          decided (check_duplicate req ctx.attempts) others.0 (duplicate-Decides req ctx.attempts);
      prior = decided (check_prior req ctx.attempts) others.1.0 (prior-Decides req ctx.attempts);
      mandate =
          decided (check_mandate req ctx.mandate) others.1.1.1.0 (mandate-Decides req ctx.mandate);
    }

approval_of-Covers :
    (uuid decision_id approver : Text) (req : PaymentRequest)
    → Covers (approval_of uuid decision_id approver req) req
unfolding approval_of
approval_of-Covers uuid decision_id approver req = record {
  unused = refl;
  order = refl;
  invoice = refl;
  amount = refl;
  currency = refl;
  fingerprint = refl;
}

approved_JustifiedBy :
    (req : PaymentRequest) (ctx : EvaluateContext) (order : PurchaseOrder) (a : Approval)
    → Covers a req
    → Passes req ctx order
    → IsIdentified order ctx.supplier_identity
    → committed_elsewhere req ctx.attempts ≡ 0
    → JustifiedBy req (record ctx { approval = some a }) order
approved_JustifiedBy req ctx order a covers p identity alone = record {
  current = (check_expiry-IsClear_iff ctx.now order).0 p.expiry;
  currency = (check_currency-IsClear_iff req order).0 p.currency;
  destination =
      (check_destination-IsClear_iff req order ctx.rail_destination_fingerprint).0 p.destination;
  identity = identity;
  priced = inr (covers, alone);
  unpaid = (duplicate_prior-IsClear_iff req ctx.attempts).0 (p.duplicate, p.prior);
  funds = (check_mandate-IsClear_iff req ctx.mandate).0 p.mandate;
}

-- A payment that is justified without its approval was not in review.
not_review_if :
    (req : PaymentRequest) (ctx : EvaluateContext) (order : PurchaseOrder) (a : Approval)
    → ctx.order ≡ some order
    → JustifiedBy req (record ctx { approval = some a }) order
    → IsWithinTolerance req order
      × FitsOrder req (committed_elsewhere req ctx.attempts) (highest_price order)
    → verdict_of (all_checks req ctx) ≢ Verdict.review
unfolding evaluate
not_review_if req ctx order a e by within review =
    let justified : JustifiedBy req ctx order = record {
      current = by.current;
      currency = by.currency;
      destination = by.destination;
      identity = by.identity;
      priced = inl within;
      unpaid = by.unpaid;
      funds = by.funds;
    } in
    let go = (evaluate-go_iff (λ _. 0) 0 req ctx).1 (order, e, justified) in cc

-- A payment in review becomes GO by the approval that `approve` gives it exactly when the supplier
-- needs no further verification and the order has no other committed invoice: so an approval does
-- not help where the verifier refused the supplier, nor beside another invoice of the order.
pub evaluate-approved_iff :
    (sha256 : Evidence → Text) (uuid decision_id approval_id approver : Text) (req : PaymentRequest)
    (ctx : EvaluateContext) (order : PurchaseOrder)
    → ctx.order ≡ some order
    → (evaluate sha256 decision_id req ctx).verdict ≡ Verdict.review
    → ((evaluate sha256 uuid req (record ctx {
      approval = some (approval_of approval_id decision_id approver req);
    })).verdict
        ≡ Verdict.go)
      ↔ (IsIdentified order ctx.supplier_identity × (committed_elsewhere req ctx.attempts ≡ 0))
unfolding evaluate
evaluate-approved_iff sha256 uuid decision_id approval_id approver req ctx order e review =
    let a = approval_of approval_id decision_id approver req in
    let ctx' : EvaluateContext = record ctx { approval = some a } in
    let covers = approval_of-Covers approval_id decision_id approver req in
    let passed = passes req ctx order e (verdict_of-eq-review (all_checks req ctx) review) in
    let justified = evaluate-go_iff sha256 uuid req ctx' in
    (
      λ go.
          let (order', e', by) = justified.0 go in
          let by' : JustifiedBy req ctx' order =
            subst (JustifiedBy req ctx') (some-injective order' order (sym e' ∙ e)) by in
          (
            by'.identity,
            elim by'.priced [
              | inr alone ↦ alone.1
              | inl within ↦ absurd (not_review_if req ctx order a e by' within review)
            ],
          ),
      λ (identity, alone).
          justified.1 (order, e, approved_JustifiedBy req ctx order a covers passed identity alone),
    )

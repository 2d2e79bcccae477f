-- ===== src/Gate/Stopped.antt =====
-- When the gate answers STOP.
use ligis.Prelude.{
  ◌≡◌, ◌↔◌, inl, inr, ◌∙◌, Bool, true, ◌||◌, Option, none, some, arith, Option-cases,
}
use mathlib.Core.Path.{ap₂}
use ligis.Gate.Defs.{
  Signal, PaymentMandate, PaymentIntent, is_stop, check_intent, mandate_result, MandateResult,
  merge_constraint, combine_signals, amount_signal, GateVerdict, Signals, compose_verdict, Layers,
  decide_signals, decide,
}
use ligis.Gate.Terms.{
  payees_of, max_of, expected_of, excludes, exceeds_cap, exceeds_price, stops, merged, payee_view,
  cap_view, price_view, terms, violates,
}

combined-Stops :
    (o : Option Signal) (jev : Signal)
    → is_stop (combine_signals o jev).status ≡ (stops o || is_stop jev.status)
unfolding combine_signals
combined-Stops none jev = ground arith
combined-Stops (some s) jev = ground arith

combined_amount-Stops :
    (m : MandateResult) (jev : Signal)
    → is_stop (amount_signal m jev).status
      ≡ (stops m.amount_signal || (stops m.expected_usd_signal || is_stop jev.status))
unfolding amount_signal combine_signals
combined_amount-Stops m jev = elim (Option-cases m.amount_signal) [
  | inl e ↦ elim (Option-cases m.expected_usd_signal) [
    | inl f ↦ ground (arith, e, f)
    | inr (x, f) ↦ ground (arith, e, f)
  ]
  | inr (a, e) ↦ elim (Option-cases m.expected_usd_signal) [
    | inl f ↦ ground (arith, e, f)
    | inr (x, f) ↦ ground (arith, e, f)
  ]
]

-- Each constraint stops exactly where a term of either mandate is broken.
result-Stops :
    (intent : PaymentIntent) (operator : Option PaymentMandate)
    → (stops (mandate_result intent operator).payee_signal ≡ (
        excludes intent.payee (payees_of operator)
        || excludes intent.payee (payees_of intent.mandate)))
      × (stops (mandate_result intent operator).amount_signal ≡ (
          exceeds_cap intent.amount_usd (max_of operator)
          || exceeds_cap intent.amount_usd (max_of intent.mandate)))
      × (stops (mandate_result intent operator).expected_usd_signal ≡ (
          exceeds_price intent.amount_usd (expected_of operator)
          || exceeds_price intent.amount_usd (expected_of intent.mandate)))
result-Stops intent operator =
    let o = terms intent operator in
    let c = terms intent intent.mandate in
    let p = payee_view intent.payee (payees_of operator) in
    let q = payee_view intent.payee (payees_of intent.mandate) in
    let v = cap_view intent.amount_usd (max_of operator) in
    let w = cap_view intent.amount_usd (max_of intent.mandate) in
    let x = price_view intent.amount_usd (expected_of operator) in
    let y = price_view intent.amount_usd (expected_of intent.mandate) in
    (
      ap₂ (λ f g. stops (merge_constraint f g)) o.0 c.0
          ∙ (merged _ _ p.0 q.0).1
          ∙ ap₂ (λ f g. f || g) p.1 q.1,
      ap₂ (λ f g. stops (merge_constraint f g)) o.1 c.1
          ∙ (merged _ _ v.0 w.0).1
          ∙ ap₂ (λ f g. f || g) v.1 w.1,
      ap₂ (λ f g. stops (merge_constraint f g)) o.2 c.2
          ∙ (merged _ _ x.0 y.0).1
          ∙ ap₂ (λ f g. f || g) x.1 y.1,
    )

compose_verdict-stop_iff :
    (s : Signals) (e : Bool)
    → (compose_verdict s e ≡ GateVerdict.stop) ↔ (
        (is_stop s.payee.status
          || (is_stop s.amount.status || (is_stop s.scope.status || is_stop s.verified.status)))
        ≡ true)
unfolding compose_verdict
compose_verdict-stop_iff s e = ground arith

-- One of Jev's two signals, or one of the two other signals, is STOP.
abbrev pub layers_stop : Layers → Bool
layers_stop l =
    is_stop l.jev_payee.status
    || (is_stop l.jev_amount.status || (is_stop l.scope.status || is_stop l.verified.status))

rearranged :
    (a a' b b' c c' d e f g p q x y z : Bool)
    → x ≡ (a || a')
    → y ≡ (b || b')
    → z ≡ (c || c')
    → p ≡ (x || d)
    → q ≡ (y || (z || e))
    → ((p || (q || (f || g))) ≡ true)
      ↔ (((a || (b || c)) || ((a' || (b' || c')) || (d || (e || (f || g))))) ≡ true)
rearranged a a' b b' c c' d e f g p q x y z h k i j m = ground arith

-- The gate answers STOP exactly if the payment violates the operator's mandate or the caller's (its
-- list of payees, its cap, or its contracted price with tolerance), or one of Jev's two signals or
-- the two other signals is STOP.
pub decide-stop_iff :
    (intent : PaymentIntent) (operator : Option PaymentMandate) (l : Layers)
    (evidence_enabled : Bool)
    → (decide intent operator l evidence_enabled ≡ GateVerdict.stop)
      ↔ ((violates intent operator || (violates intent intent.mandate || layers_stop l)) ≡ true)
unfolding decide decide_signals check_intent
decide-stop_iff intent operator l e =
    let c = compose_verdict-stop_iff (decide_signals intent operator l) e in
    let s = result-Stops intent operator in
    let r =
      rearranged (excludes intent.payee (payees_of operator))
        (excludes intent.payee (payees_of intent.mandate))
        (exceeds_cap intent.amount_usd (max_of operator))
        (exceeds_cap intent.amount_usd (max_of intent.mandate))
        (exceeds_price intent.amount_usd (expected_of operator))
        (exceeds_price intent.amount_usd (expected_of intent.mandate)) (is_stop l.jev_payee.status)
        (is_stop l.jev_amount.status) (is_stop l.scope.status) (is_stop l.verified.status) _ _ _ _ _
        s.0 s.1 s.2 (combined-Stops (mandate_result intent operator).payee_signal l.jev_payee)
        (combined_amount-Stops (mandate_result intent operator) l.jev_amount) in
    ((λ k. r.0 (c.0 k)), (λ k. c.1 (r.1 k)))

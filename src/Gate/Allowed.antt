-- ===== src/Gate/Allowed.antt =====
-- When the gate answers GO.
use ligis.Prelude.{◌≡◌, ◌↔◌, ◌⊎◌, sym, ◌∙◌, Bool, true, false, not, ◌&&◌, ◌||◌, Option, arith}
use mathlib.Core.Path.{ap₂}
use ligis.Wallet.Number.{lt, of_ℕ}
use ligis.Gate.Defs.{
  VerdictStatus, Signal, PaymentMandate, PaymentIntent, is_stop, check_payee, check_max,
  check_expected, check_intent, mandate_result, combine_signals, amount_signal, GateVerdict,
  MandateResult, Signals, compose_verdict, merge_constraint, Layers, decide_signals, decide,
}
use ligis.Gate.Terms.{
  payees_of, max_of, expected_of, lists, excludes, is_positive, exceeds_cap, exceeds_price, has_cap,
  merged, payee_view, cap_view, price_view, combined, combined_amount, terms, violates,
}

-- A signal that does not stand in the way: GO, or skipped where no evidence is asked for.
abbrev pub IsQuiet : Bool → VerdictStatus → Type 0
IsQuiet evidence_enabled s =
    (s ≡ VerdictStatus.go) ⊎ ((s ≡ VerdictStatus.skipped) × (evidence_enabled ≡ false))

compose_verdict_iff :
    (s : Signals) (e : Bool)
    → (compose_verdict s e ≡ GateVerdict.go) ↔ (
        (s.payee.status ≡ VerdictStatus.go)
        × (s.amount.status ≡ VerdictStatus.go)
        × IsQuiet e s.scope.status
        × IsQuiet e s.verified.status)
unfolding compose_verdict
compose_verdict_iff s e = ground arith

iff_from :
    {s t : VerdictStatus} {P Q : Type 0}
    → s ≡ t
    → (t ≡ VerdictStatus.go) ↔ P
    → P ↔ Q
    → (s ≡ VerdictStatus.go) ↔ Q
iff_from e f g = ((λ h. g.0 (f.0 (sym e ∙ h))), (λ q. e ∙ f.1 (g.1 q)))

payee_Bools :
    (st so ep eq ip iq lp lq j : Bool)
    → st ≡ (ep || eq)
    → so ≡ (ip || iq)
    → (ip && not ep) ≡ lp
    → (iq && not eq) ≡ lq
    → ((st ≡ false) × (so ≡ true) × (j ≡ false))
      ↔ ((ep ≡ false) × (eq ≡ false) × ((lp || lq) ≡ true) × (j ≡ false))
payee_Bools st so ep eq ip iq lp lq j h1 h2 h3 h4 = ground arith

amount_Bools :
    (sa sx ia ix c1 c2 p1 p2 i1 i2 h1 h2 q1 q2 pos j : Bool)
    → sa ≡ (c1 || c2)
    → sx ≡ (p1 || p2)
    → ia ≡ (i1 || i2)
    → ix ≡ ((q1 && pos) || (q2 && pos))
    → (i1 && not c1) ≡ (h1 && (pos && not c1))
    → (i2 && not c2) ≡ (h2 && (pos && not c2))
    → ((sa ≡ false) × (sx ≡ false) × ((ia || ix) ≡ true) × (j ≡ false)) ↔ (
        (c1 ≡ false)
        × (c2 ≡ false)
        × (p1 ≡ false)
        × (p2 ≡ false)
        × (pos ≡ true)
        × ((h1 || (h2 || (q1 || q2))) ≡ true)
        × (j ≡ false))
amount_Bools sa sx ia ix c1 c2 p1 p2 i1 i2 h1 h2 q1 q2 pos j a b c d e f = ground arith

payee_iff :
    (intent : PaymentIntent) (operator : Option PaymentMandate) (jev : Signal)
    → ((combine_signals (mandate_result intent operator).payee_signal jev).status
        ≡ VerdictStatus.go)
      ↔ ((excludes intent.payee (payees_of operator) ≡ false)
          × (excludes intent.payee (payees_of intent.mandate) ≡ false)
          × ((lists intent.payee (payees_of operator)
                || lists intent.payee (payees_of intent.mandate))
              ≡ true)
          × (is_stop jev.status ≡ false))
payee_iff intent operator jev =
    let o = terms intent operator in
    let c = terms intent intent.mandate in
    let v = payee_view intent.payee (payees_of operator) in
    let w = payee_view intent.payee (payees_of intent.mandate) in
    let m =
      merged (check_payee intent.payee (payees_of operator))
        (check_payee intent.payee (payees_of intent.mandate)) v.0 w.0 in
    iff_from (ap₂ (λ x y. (combine_signals (merge_constraint x y) jev).status) o.0 c.0)
      (combined
        (merge_constraint (check_payee intent.payee (payees_of operator))
          (check_payee intent.payee (payees_of intent.mandate)))
        jev m.0)
      (payee_Bools _ _ _ _ _ _ _ _ _ (m.1 ∙ ap₂ (λ x y. x || y) v.1 w.1) m.2 v.2 w.2)

amount_iff :
    (intent : PaymentIntent) (operator : Option PaymentMandate) (jev : Signal)
    → ((amount_signal (mandate_result intent operator) jev).status ≡ VerdictStatus.go) ↔ (
        (exceeds_cap intent.amount_usd (max_of operator) ≡ false)
        × (exceeds_cap intent.amount_usd (max_of intent.mandate) ≡ false)
        × (exceeds_price intent.amount_usd (expected_of operator) ≡ false)
        × (exceeds_price intent.amount_usd (expected_of intent.mandate) ≡ false)
        × (lt (of_ℕ 0) intent.amount_usd ≡ true)
        × ((has_cap (max_of operator)
              || (has_cap (max_of intent.mandate)
                  || (is_positive (expected_of operator)
                      || is_positive (expected_of intent.mandate))))
            ≡ true)
        × (is_stop jev.status ≡ false))
amount_iff intent operator jev =
    let o = terms intent operator in
    let c = terms intent intent.mandate in
    let v = cap_view intent.amount_usd (max_of operator) in
    let w = cap_view intent.amount_usd (max_of intent.mandate) in
    let x = price_view intent.amount_usd (expected_of operator) in
    let y = price_view intent.amount_usd (expected_of intent.mandate) in
    let a =
      merged (check_max intent.amount_usd (max_of operator))
        (check_max intent.amount_usd (max_of intent.mandate)) v.0 w.0 in
    let b =
      merged (check_expected intent.amount_usd (expected_of operator))
        (check_expected intent.amount_usd (expected_of intent.mandate)) x.0 y.0 in
    let r : MandateResult = record {
      payee_signal = (mandate_result intent operator).payee_signal;
      amount_signal =
          merge_constraint (check_max intent.amount_usd (max_of operator))
            (check_max intent.amount_usd (max_of intent.mandate));
      expected_usd_signal =
          merge_constraint (check_expected intent.amount_usd (expected_of operator))
            (check_expected intent.amount_usd (expected_of intent.mandate));
    } in
    iff_from
      (ap₂
        (λ f g.
          (amount_signal
            (record {
              payee_signal = (mandate_result intent operator).payee_signal;
              amount_signal = f;
              expected_usd_signal = g;
            })
            jev).status)
        (ap₂ merge_constraint o.1 c.1) (ap₂ merge_constraint o.2 c.2))
      (combined_amount r jev a.0 b.0)
      (amount_Bools _ _ _ _ _ _ _ _ _ _ _ _ _ _ _ _ (a.1 ∙ ap₂ (λ f g. f || g) v.1 w.1)
        (b.1 ∙ ap₂ (λ f g. f || g) x.1 y.1) a.2 (b.2 ∙ ap₂ (λ f g. f || g) x.2 y.2) v.2 w.2)

none_of : (a b c : Bool) → (a || (b || c)) ≡ false → (a ≡ false) × (b ≡ false) × (c ≡ false)
none_of a b c h = ground arith

-- Why a payment is allowed: by the operator's mandate, the caller's, or both.
pub record IsAllowed (intent : PaymentIntent) (operator : Option PaymentMandate) (l : Layers)
    (evidence_enabled : Bool) : Type 0 where
  pub unviolated : violates intent operator ≡ false
  pub unviolated_caller : violates intent intent.mandate ≡ false
  pub listed :
      (lists intent.payee (payees_of operator) || lists intent.payee (payees_of intent.mandate))
      ≡ true
  pub positive : lt (of_ℕ 0) intent.amount_usd ≡ true
  pub bound :
      (has_cap (max_of operator)
        || (has_cap (max_of intent.mandate)
            || (is_positive (expected_of operator) || is_positive (expected_of intent.mandate))))
      ≡ true
  pub jev_payee : is_stop l.jev_payee.status ≡ false
  pub jev_amount : is_stop l.jev_amount.status ≡ false
  pub scope : IsQuiet evidence_enabled l.scope.status
  pub verified : IsQuiet evidence_enabled l.verified.status

-- The gate answers GO exactly if neither the operator's mandate nor the caller's is violated (by its
-- list of payees, its cap, or its contracted price with tolerance), one of them lists the payee, the
-- amount is positive and one of them bounds it by a cap or a positive price, Jev stops neither, and
-- the two other signals are GO, or skipped where no evidence is asked for.
pub decide-go_iff :
    (intent : PaymentIntent) (operator : Option PaymentMandate) (l : Layers)
    (evidence_enabled : Bool)
    → (decide intent operator l evidence_enabled ≡ GateVerdict.go)
      ↔ IsAllowed intent operator l evidence_enabled
unfolding decide decide_signals check_intent
decide-go_iff intent operator l e =
    let c = compose_verdict_iff (decide_signals intent operator l) e in
    let p = payee_iff intent operator l.jev_payee in
    let a = amount_iff intent operator l.jev_amount in
    (
      λ k.
          let s = c.0 k in
          let q = p.0 s.0 in
          let b = a.0 s.1 in
          record {
            unviolated = ground (arith, q.0, b.0, b.2);
            unviolated_caller = ground (arith, q.1, b.1, b.3);
            listed = q.2;
            positive = b.4;
            bound = b.5;
            jev_payee = q.3;
            jev_amount = b.6;
            scope = s.2;
            verified = s.3;
          },
      λ j.
          let u = none_of (excludes intent.payee (payees_of operator)) _ _ j.unviolated in
          let v =
            none_of (excludes intent.payee (payees_of intent.mandate)) _ _ j.unviolated_caller in
          c.1 (
            p.1 (u.0, v.0, j.listed, j.jev_payee),
            a.1 (u.1, v.1, u.2, v.2, j.positive, j.bound, j.jev_amount),
            j.scope,
            j.verified,
          ),
    )

-- ===== src/Wallet/Decision/Sound.antt =====
-- What the gate's answers that `fetchDecision` accepts are like, and their confidence.
use ligis.Prelude.{
  ◌⊎◌, Option, ◌≡◌, ap, subst, inl, inr, Bool, true, false, not, ◌&&◌, some, none, List, [], ◌∷◌,
  arith, All, any, filter, map, Bool-cases, ◌==◌,
}
use ligis.Wallet.Chars.{Text, codes}
use ligis.Wallet.Number.{Number, lt, is_finite, of_ℕ, lt-false_trans, lt-asym, finite-not_nan}
use ligis.Wallet.Types.{
  Value, get_field, OperatorPolicy, ParsedOperation, GateSignal, GateDecision, ok, err,
}
use ligis.Wallet.Operation.Steps.{bind-ok, require-ok, ok-injective}
use ligis.Wallet.Decision.Defs.{
  Answer, as_text, as_fields, as_list, as_finite, as_verdict, parse_signal, parse_all,
  parse_provenance, parse_decision, minimum, is_answered, minimum_confidence, decision_confidence,
  Transported, response, or_malformed, read_answer, fetch_decision, GateQuery, gate_query,
}

-- A confidence is a number from 0 to 1.
pub record IsConfidence (n : Number) : Type 0 where
  pub finite : is_finite n ≡ true
  pub least : lt n (of_ℕ 0) ≡ false
  pub most : lt (of_ℕ 1) n ≡ false

abbrev pub IsSignal : GateSignal → Type 0
IsSignal s = IsConfidence s.confidence

parse_signal-IsSignal : (v : Value) (s : GateSignal) → parse_signal v ≡ ok s → IsSignal s
unfolding parse_signal
parse_signal-IsSignal v s h =
    let s1 = bind-ok (as_fields v) _ s h in
    let s2 = bind-ok (as_text (get_field (codes "id") s1.0)) _ s s1.2 in
    let s3 = bind-ok (as_text (get_field (codes "status") s1.0)) _ s s2.2 in
    let s4 = bind-ok (as_finite (get_field (codes "confidence") s1.0)) _ s s3.2 in
    let s5 = require-ok (not (lt s4.0 (of_ℕ 0)) && not (lt (of_ℕ 1) s4.0)) tt _ s s4.2 in
    subst IsSignal (ok-injective s5.1) (record {
      finite = as_finite-ok (get_field (codes "confidence") s1.0) s4.0 s4.1;
      least = ground (arith, s5.0);
      most = ground (arith, s5.0);
    })
  where
    as_finite-ok : (v : Value) (n : Number) → as_finite v ≡ ok n → is_finite n ≡ true
    as_finite-ok (Value.num m) n h = ground arith
    as_finite-ok _ n h = ground arith

parse_all-All :
    {A : Type 0} (f : Value → Answer A) (P : A → Type 0)
    → ((v : Value) (a : A) → f v ≡ ok a → P a)
    → (vs : List Value) (xs : List A) → parse_all f vs ≡ ok xs
    → All P xs
unfolding parse_all
parse_all-All f P h [] xs e = subst (All P) (ok-injective e) tt
parse_all-All f P h (v ∷ vs) xs e =
    let s1 = bind-ok (f v) _ xs e in
    let s2 = bind-ok (parse_all f vs) _ xs s1.2 in
    subst (All P) (ok-injective s2.2) (h v s1.0 s1.1, parse_all-All f P h vs s2.0 s2.1)

parse_decision-IsSignal :
    (v : Value) (d : GateDecision) → parse_decision v ≡ ok d → All IsSignal d.signals
unfolding parse_decision
parse_decision-IsSignal v d h =
    let s1 = bind-ok (as_fields v) _ d h in
    let s2 = bind-ok (as_text (get_field (codes "verdict") s1.0)) _ d s1.2 in
    let s3 = bind-ok (as_verdict s2.0) _ d s2.2 in
    let s4 = bind-ok (as_list (get_field (codes "signals") s1.0)) _ d s3.2 in
    let s5 = bind-ok (parse_all parse_signal s4.0) _ d s4.2 in
    let s6 = bind-ok (as_finite (get_field (codes "latencyMs") s1.0)) _ d s5.2 in
    let s7 = require-ok (not (lt s6.0 (of_ℕ 0))) tt _ d s6.2 in
    let s8 = bind-ok (parse_provenance (get_field (codes "provenance") s1.0)) _ d s7.1 in
    subst (λ x. All IsSignal x.signals) (ok-injective s8.2)
      (parse_all-All parse_signal IsSignal parse_signal-IsSignal s4.0 s5.0 s5.1)

-- A number of which the bound is not above.
abbrev IsAbove : Number → Number → Type 0
IsAbove m n = lt n m ≡ false

minimum-IsAbove :
    (m n : Number) (ns : List Number)
    → is_finite n ≡ true
    → All (λ x. is_finite x ≡ true) ns
    → IsAbove m (minimum n ns)
    → IsAbove m n × All (IsAbove m) ns
minimum-IsAbove m n [] f fs h = (h, tt)
minimum-IsAbove m n (x ∷ xs) f fs h = elim (Bool-cases (lt x n)) [
  | inl e ↦
      let r = minimum-IsAbove m x xs fs.0 fs.1 (ground (arith, e, h)) in
      (lt-false_trans m x n (finite-not_nan x fs.0) r.0 (lt-asym x n e), (r.0, r.1))
  | inr e ↦
      let r = minimum-IsAbove m n xs f fs.1 (ground (arith, e, h)) in
      (r.0, (lt-false_trans m n x (finite-not_nan n f) r.0 e, r.1))
]

filter-All :
    {A : Type 0} (P : A → Type 0) (p : A → Bool) (xs : List A) → All P xs → All P (filter p xs)
filter-All P p [] h = tt
filter-All P p (x ∷ xs) h = ground (arith, filter-All P p xs h.1)

confidences-finite :
    (ss : List GateSignal)
    → All IsSignal ss
    → All (λ x. is_finite x ≡ true) (map (λ s. s.confidence) ss)
confidences-finite [] h = tt
confidences-finite (s ∷ ss) h = (h.0.finite, confidences-finite ss h.1)

confidence-IsAbove :
    (m : Number) (ss : List GateSignal)
    → All (IsAbove m) (map (λ s. s.confidence) ss)
    → All (λ s. IsAbove m s.confidence) ss
confidence-IsAbove m [] h = tt
confidence-IsAbove m (s ∷ ss) h = (h.0, confidence-IsAbove m ss h.1)

minimum_confidence-IsAbove :
    (m : Number) (ss : List GateSignal)
    → All IsSignal ss
    → IsAbove m (minimum_confidence ss)
    → All (λ s. IsAbove m s.confidence) ss
minimum_confidence-IsAbove m [] h k = tt
minimum_confidence-IsAbove m (s ∷ ss) h k =
    let r =
      minimum-IsAbove m s.confidence (map (λ x. x.confidence) ss) h.0.finite
        (confidences-finite ss h.1) k in
    (r.0, confidence-IsAbove m ss r.1)

any-answered :
    (m : Number) (ss : List GateSignal)
    → IsAbove m (minimum_confidence (filter is_answered ss))
    → lt (of_ℕ 0) m ≡ true
    → any is_answered ss ≡ true
any-answered m [] h k = ground (arith, h, k)
any-answered m (s ∷ ss) h k = elim (Bool-cases (is_answered s)) [
  | inl e ↦ ground (arith, e)
  | inr e ↦ ground (arith, e, any-answered m ss (ground (arith, e, h)) k)
]

or_malformed-ok : (a : Answer GateDecision) (d : GateDecision) → or_malformed a ≡ ok d → a ≡ ok d
unfolding or_malformed
or_malformed-ok (ok x) d h = ground arith
or_malformed-ok (err e) d h = ground arith

abbrev Accepts : Transported → GateDecision → Type 0
Accepts t d = (v : Value) × (t ≡ response 200 (some v)) × (parse_decision v ≡ ok d)

read_answer-Accepts : (t : Transported) (d : GateDecision) → read_answer t ≡ ok d → Accepts t d
unfolding read_answer
read_answer-Accepts (Transported.failed aborted) d h = ground arith
read_answer-Accepts (response status none) d h = ground arith
read_answer-Accepts (response status (some v)) d h = elim (Bool-cases (status == 200)) [
  | inl e ↦ (
    v,
    ap (λ s. response s (some v)) (ground (arith, e)),
    or_malformed-ok (parse_decision v) d (ground (arith, e, h)),
  )
  | inr e ↦ ground (arith, e, h)
]

-- An answer of the gate is accepted only with status 200 and a body that is such a decision, and all
-- its confidences are numbers from 0 to 1. For any minimum, the minimum is not positive, or the
-- decision's confidence is below it, or some signal answered and none that answered is below it.
pub fetch_decision-confident :
    (operation : ParsedOperation) (policy : OperatorPolicy) (purpose : Option Text)
    (transport : GateQuery → Transported) (d : GateDecision) (m : Number)
    → fetch_decision operation policy purpose transport ≡ ok d
    → ((v : Value) × (transport (gate_query operation policy purpose) ≡ response 200 (some v))
        × (parse_decision v ≡ ok d))
      × All (λ s. IsConfidence s.confidence) d.signals
      × ((lt (of_ℕ 0) m ≡ false)
          ⊎ ((lt (decision_confidence d) m ≡ true)
              ⊎ ((any is_answered d.signals ≡ true)
                  × All (λ s. lt s.confidence m ≡ false) (filter is_answered d.signals))))
unfolding fetch_decision decision_confidence
fetch_decision-confident operation policy purpose transport d m h =
    let a = read_answer-Accepts (transport (gate_query operation policy purpose)) d h in
    let ss = parse_decision-IsSignal a.0 d a.2 in
    (
      a,
      ss,
      elim (Bool-cases (lt (of_ℕ 0) m)) [
        | inr low ↦ inl low
        | inl p ↦ inr (elim (Bool-cases (lt (decision_confidence d) m)) [
          | inl below ↦ inl below
          | inr k ↦ inr (
            any-answered m d.signals k p,
            minimum_confidence-IsAbove m (filter is_answered d.signals)
                (filter-All IsSignal is_answered d.signals ss) k,
          )
        ])
      ],
    )

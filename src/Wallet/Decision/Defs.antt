-- ===== src/Wallet/Decision/Defs.antt =====
-- The definitions of decision.ts. The transport is an argument.
use ligis.Prelude.{
  ℕ, Bool, not, ◌&&◌, Option, none, some, List, [], ◌∷◌, ◌++◌, map, ◌==◌, if◌then◌else◌, filter,
}
use ligis.Wallet.Chars.{Text, codes, text_eq}
use ligis.Wallet.Number.{Number, lt, is_finite, of_ℕ}
use ligis.Wallet.Types.{
  Value, Fields, elements, get_field, Verdict, OperatorPolicy, ParsedOperation, GateSignal,
  GateDecision, RefusalCode, Result, ok, err, ◌>>=◌, ◌>>◌, require,
}

-- `null` for what does not match the schema.
abbrev pub Answer : Type 0 → Type 0
Answer A = Result (Unit {0}) A

abbrev pub as_text : Value → Answer Text
as_text (Value.str s) = ok s
as_text _ = err tt

abbrev pub as_optional_text : Value → Option Text
as_optional_text (Value.str s) = some s
as_optional_text _ = none

abbrev pub as_fields : Value → Answer Fields
as_fields (Value.obj fs) = ok fs
as_fields _ = err tt

abbrev pub as_list : Value → Answer (List Value)
as_list (Value.arr vs) = ok (elements vs)
as_list _ = err tt

-- `isFiniteNumber`
abbrev pub as_finite : Value → Answer Number
as_finite (Value.num n) = if is_finite n then ok n else err tt
as_finite _ = err tt

abbrev pub as_verdict : Text → Answer Verdict
as_verdict s =
    if text_eq s (codes "GO")
    then ok Verdict.go
    else if text_eq s (codes "STOP")
    then ok Verdict.stop
    else if text_eq s (codes "UNKNOWN")
    then ok Verdict.unknown
    else err tt

unfoldable pub parse_signal : Value → Answer GateSignal
parse_signal v = do
  signal ← as_fields v
  id ← as_text (get_field (codes "id") signal)
  status ← as_text (get_field (codes "status") signal)
  confidence ← as_finite (get_field (codes "confidence") signal)
  require (not (lt confidence (of_ℕ 0)) && not (lt (of_ℕ 1) confidence)) tt
  ok (record {
    id = id;
    status = status;
    confidence = confidence;
    reason = as_optional_text (get_field (codes "reason") signal);
  })

unfoldable pub parse_all : {A : Type 0} → (Value → Answer A) → List Value → Answer (List A)
parse_all f [] = ok []
parse_all f (v ∷ vs) = do a ← f v; xs ← parse_all f vs; ok (a ∷ xs)

unfoldable pub parse_provenance : Value → Answer (List Text)
parse_provenance Value.undefined = ok []
parse_provenance (Value.arr vs) = parse_all as_text (elements vs)
parse_provenance _ = err tt

unfoldable pub parse_decision : Value → Answer GateDecision
parse_decision payload = do
  body ← as_fields payload
  word ← as_text (get_field (codes "verdict") body)
  verdict ← as_verdict word
  entries ← as_list (get_field (codes "signals") body)
  signals ← parse_all parse_signal entries
  latency ← as_finite (get_field (codes "latencyMs") body)
  require (not (lt latency (of_ℕ 0))) tt
  provenance ← parse_provenance (get_field (codes "provenance") body)
  ok (record {
    verdict = verdict;
    signals = signals;
    latency_ms = latency;
    provenance = provenance;
  })

-- `Math.min`, on numbers that are not `NaN`.
abbrev pub minimum : Number → List Number → Number
minimum n [] = n
minimum n (m ∷ ms) = minimum (if lt m n then m else n) ms

abbrev pub is_answered : GateSignal → Bool
is_answered signal = not (text_eq signal.status (codes "SKIPPED"))

abbrev pub minimum_confidence : List GateSignal → Number
minimum_confidence [] = of_ℕ 0
minimum_confidence (s ∷ ss) = minimum s.confidence (map (λ x. x.confidence) ss)

unfoldable pub decision_confidence : GateDecision → Number
decision_confidence decision = minimum_confidence (filter is_answered decision.signals)

-- What became of the request: it failed, after the timer had aborted it or not; or there is a status
-- and a body, `none` where that is no JSON.
pub data Transported : Type 0 where
  failed : (aborted : Bool) → Transported
  response : (status : ℕ) → (body : Option Value) → Transported

abbrev pub DecisionResult : Type 0
DecisionResult = Result RefusalCode GateDecision

unfoldable pub or_malformed : Answer GateDecision → DecisionResult
or_malformed (ok d) = ok d
or_malformed (err e) = err RefusalCode.decision_malformed

-- What the code makes of the transport's answer.
unfoldable pub read_answer : Transported → DecisionResult
unfolding or_malformed
read_answer (failed aborted) =
    err (if aborted then RefusalCode.decision_timeout else RefusalCode.decision_unavailable)
read_answer (response status body) =
    if status == 200
    then elim body [
      | none ↦ err RefusalCode.decision_malformed
      | some payload ↦ or_malformed (parse_decision payload)
    ]
    else err RefusalCode.decision_unavailable

-- The request to the gate: its address, and what its body says; the body's mandate repeats the payee
-- and the amount.
pub record GateQuery : Type 0 where
  pub url : Text
  pub payee : Text
  pub amount_usd : ℕ
  pub capability : Option Text
  pub purpose : Option Text

-- An empty text is not sent.
abbrev pub if_any : Option Text → Option Text
if_any (some (c ∷ s)) = some (c ∷ s)
if_any _ = none

unfoldable pub gate_query : ParsedOperation → OperatorPolicy → Option Text → GateQuery
gate_query operation policy purpose = record {
  url = policy.gate_endpoint ++ codes "/api/gate";
  payee = operation.bound.payee;
  amount_usd = operation.amount_usd;
  capability = if_any policy.required_capability;
  purpose = if_any purpose;
}

-- The transport is a function of the request.
unfoldable pub fetch_decision :
    ParsedOperation → OperatorPolicy → Option Text → (GateQuery → Transported) → DecisionResult
unfolding read_answer
fetch_decision operation policy purpose transport =
    read_answer (transport (gate_query operation policy purpose))

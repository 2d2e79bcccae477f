-- ===== src/Wallet/Guard/Signing.antt =====
-- When the signer is asked, and what it is asked.
use ligis.Prelude.{ℕ, ◌≡◌, refl, sym, ap, ◌∙◌, false, none, some, arith, get}
use ligis.Wallet.Number.{lt}
use ligis.Wallet.Types.{
  Verdict, OperatorPolicy, BoundFields, ParsedOperation, GateDecision, ok, err, ◌>>=◌,
}
use ligis.Wallet.Policy.Tighten.{tighten_with_agent_request}
use ligis.Wallet.Policy.Narrower.{HasWindows, tighten-IsNarrower}
use ligis.Wallet.Operation.Defs.{parse_operation}
use ligis.Wallet.Operation.Steps.{bind-ok}
use ligis.Wallet.Operation.Permitted.{Permitted, parse_operation-Permitted}
use ligis.Wallet.Operation.Tightened.{parse_operation-tightened}
use ligis.Wallet.Decision.Defs.{fetch_decision, decision_confidence}
use ligis.Wallet.Guard.Defs.{
  PaymentGuard, Assessing, Approved, SignRequest, Step, purpose_of, start, assess, sign_request,
  EnforceCall, conclude, enforce,
}
use ligis.Wallet.Guard.Cleared.{Started, Assessed, start-Started, assess-Assessed}

-- What stands behind a request to the signer: the operator's policy permits the operation as it is
-- asked for, the gate, asked about an operation of the same fingerprint, answered GO with enough
-- confidence, and nothing was signed under that fingerprint before.
pub record Cleared (hash : BoundFields → ℕ) (guard : PaymentGuard) (call : EnforceCall)
    (r : SignRequest) : Type 0 where
  pub policy : OperatorPolicy
  pub has_policy : guard.policy ≡ some policy
  pub operation : ParsedOperation
  pub first : parse_operation hash call.request policy call.now ≡ ok operation
  pub current : ParsedOperation
  pub second : parse_operation hash call.request_then policy call.now_then ≡ ok current
  pub permitted : Permitted policy call.now_then current
  pub same : hash current.bound ≡ hash operation.bound
  pub decision : GateDecision
  pub effective : OperatorPolicy
  pub tightened : tighten_with_agent_request policy call.agent_request ≡ ok effective
  pub decided :
      fetch_decision operation effective (purpose_of call.agent_request) call.transport
      ≡ ok decision
  pub go : decision.verdict ≡ Verdict.go
  pub confident : lt (decision_confidence decision) policy.min_go_confidence ≡ false
  pub fresh : get (hash operation.bound) guard.signed ≡ none
  pub request : r ≡ sign_request guard call.request_then

module _ (hash : BoundFields → ℕ) (guard : PaymentGuard) (call : EnforceCall) where
  -- The call up to the signer.
  abbrev pub approve_call : Step Approved
  approve_call = start hash guard call.request call.agent_request call.now >>= λ waiting.
      assess hash waiting call.transport call.request_then call.now_then

  pub conclude-asked :
      (s : Step Approved) (r : SignRequest)
      → (conclude guard call s).asked ≡ some r
      → (approved : Approved) × (s ≡ ok approved) × (r ≡ sign_request guard call.request_then)
  conclude-asked (ok approved) r h = (approved, refl, ground arith)
  conclude-asked (err o) r h = ground arith

  Assessed-Cleared :
      (waiting : Assessing) (approved : Approved) (r : SignRequest)
      → HasWindows call.agent_request
      → Started hash guard call.request call.agent_request call.now waiting
      → Assessed hash waiting call approved
      → r ≡ sign_request guard call.request_then
      → Cleared hash guard call r
  Assessed-Cleared waiting approved r w s a e =
      let narrower =
        tighten-IsNarrower s.policy call.agent_request waiting.effective w s.tightened in
      let first =
        parse_operation-tightened hash call.request call.agent_request s.policy waiting.effective
          call.now waiting.operation w s.tightened s.parsed in
      let second =
        parse_operation-tightened hash call.request_then call.agent_request s.policy
          waiting.effective call.now_then a.current w s.tightened a.parsed in
      let p1 =
        parse_operation-Permitted hash call.request s.policy call.now waiting.operation first in
      let p2 =
        parse_operation-Permitted hash call.request_then s.policy call.now_then a.current second in
      record {
        policy = s.policy;
        has_policy = s.has_policy;
        operation = waiting.operation;
        first = first;
        current = a.current;
        second = second;
        permitted = p2.0;
        same = sym p2.1 ∙ a.same ∙ p1.1;
        decision = approved.decision;
        effective = waiting.effective;
        tightened = s.tightened;
        decided =
            sym (
              ap (λ p. fetch_decision waiting.operation waiting.effective p call.transport)
                s.purpose)
            ∙ a.decided;
        go = a.go;
        confident =
            ap (lt (decision_confidence approved.decision)) (sym narrower.min_go_confidence)
            ∙ a.confident;
        fresh = ap (λ f. get f guard.signed) (sym p1.1) ∙ s.unsigned;
        request = e;
      }

  -- The signer is asked only for a cleared operation, whatever an agent's mandate of which the window
  -- is not NaN says, and it is asked for what the request is at that time.
  pub enforce-asked :
      (r : SignRequest)
      → HasWindows call.agent_request
      → (enforce hash guard call).asked ≡ some r
      → Cleared hash guard call r
  unfolding enforce
  enforce-asked r w h =
      let f = conclude-asked approve_call r h in
      let b = bind-ok (start hash guard call.request call.agent_request call.now) _ f.0 f.1 in
      Assessed-Cleared b.0 f.0 r w
        (start-Started hash guard call.request call.agent_request call.now b.0 b.1)
        (assess-Assessed hash b.0 call f.0 b.2) f.2

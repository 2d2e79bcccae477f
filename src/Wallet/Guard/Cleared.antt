-- ===== src/Wallet/Guard/Cleared.antt =====
-- What stands before the signer.
use ligis.Prelude.{
  ℕ, ◌≡◌, refl, subst, Bool, true, false, not, Option, none, some, arith, ◌==◌, get,
}
use ligis.Wallet.Number.{lt}
use ligis.Wallet.Types.{
  Verdict, OperatorPolicy, AgentRequest, AuthorizationRequest, BoundFields, ParsedOperation,
  GateDecision, RefusalCode, Result, ok,
}
use ligis.Wallet.Policy.Tighten.{Loosening, tighten_with_agent_request}
use ligis.Wallet.Operation.Defs.{OperationError, parse_operation}
use ligis.Wallet.Operation.Steps.{bind-ok, ok-injective}
use ligis.Wallet.Decision.Defs.{fetch_decision, decision_confidence}
use ligis.Wallet.Guard.Defs.{
  Recorded, PaymentGuard, Assessing, Approved, or_missing, or_loosening, or_refusal, or_undecided,
  unless_signed, is_go, purpose_of, require_go, require_same, start, assess, EnforceCall,
}

or_missing-ok : (o : Option OperatorPolicy) (p : OperatorPolicy) → or_missing o ≡ ok p → o ≡ some p
or_missing-ok o p h = ground arith

or_loosening-ok :
    (r : Result Loosening OperatorPolicy) (p : OperatorPolicy) → or_loosening r ≡ ok p → r ≡ ok p
or_loosening-ok r p h = ground arith

or_refusal-ok :
    (code : RefusalCode) (r : Result OperationError ParsedOperation) (op : ParsedOperation)
    → or_refusal code r ≡ ok op
    → r ≡ ok op
or_refusal-ok code r op h = ground arith

or_undecided-ok :
    (op : ParsedOperation) (r : Result RefusalCode GateDecision) (d : GateDecision)
    → or_undecided op r ≡ ok d
    → r ≡ ok d
or_undecided-ok op r d h = ground arith

unless_signed-ok :
    (op : ParsedOperation) (o : Option Recorded) → unless_signed op o ≡ ok tt → o ≡ none
unless_signed-ok op o h = ground arith

require_go-ok :
    (b : Bool) (op : ParsedOperation) (d : GateDecision) → require_go b op d ≡ ok tt → b ≡ true
require_go-ok b op d h = ground arith

require_same-ok : (b : Bool) → require_same b ≡ ok tt → b ≡ true
require_same-ok b h = ground arith

-- The steps before the gate, with what each answers.
pub record Started (hash : BoundFields → ℕ) (guard : PaymentGuard) (request : AuthorizationRequest)
    (agent : Option AgentRequest) (now : ℕ) (waiting : Assessing) : Type 0 where
  pub policy : OperatorPolicy
  pub has_policy : guard.policy ≡ some policy
  pub tightened : tighten_with_agent_request policy agent ≡ ok waiting.effective
  pub parsed : parse_operation hash request waiting.effective now ≡ ok waiting.operation
  pub purpose : waiting.purpose ≡ purpose_of agent
  pub unsigned : get waiting.operation.fingerprint guard.signed ≡ none

-- The steps between the gate and the signer.
pub record Assessed (hash : BoundFields → ℕ) (waiting : Assessing) (call : EnforceCall)
    (approved : Approved) : Type 0 where
  pub operation : approved.operation ≡ waiting.operation
  pub decided :
      fetch_decision waiting.operation waiting.effective waiting.purpose call.transport
      ≡ ok approved.decision
  pub go : approved.decision.verdict ≡ Verdict.go
  pub confident :
      lt (decision_confidence approved.decision) waiting.effective.min_go_confidence ≡ false
  pub current : ParsedOperation
  pub parsed : parse_operation hash call.request_then waiting.effective call.now_then ≡ ok current
  pub same : current.fingerprint ≡ waiting.operation.fingerprint

module _ (hash : BoundFields → ℕ) where
  pub start-Started :
      (guard : PaymentGuard) (request : AuthorizationRequest) (agent : Option AgentRequest)
      (now : ℕ) (waiting : Assessing)
      → start hash guard request agent now ≡ ok waiting
      → Started hash guard request agent now waiting
  unfolding start
  start-Started guard request agent now waiting h =
      let s1 = bind-ok (or_missing guard.policy) _ waiting h in
      let s2 = bind-ok (or_loosening (tighten_with_agent_request s1.0 agent)) _ waiting s1.2 in
      let s3 =
        bind-ok
          (or_refusal RefusalCode.unsupported_operation (parse_operation hash request s2.0 now)) _
          waiting s2.2 in
      let s4 = bind-ok (unless_signed s3.0 (get s3.0.fingerprint guard.signed)) _ waiting s3.2 in
      let loosened = or_loosening-ok (tighten_with_agent_request s1.0 agent) s2.0 s2.1 in
      let operation =
        or_refusal-ok RefusalCode.unsupported_operation (parse_operation hash request s2.0 now) s3.0
          s3.1 in
      subst (Started hash guard request agent now) (ok-injective s4.2) (record {
        policy = s1.0;
        has_policy = or_missing-ok guard.policy s1.0 s1.1;
        tightened = loosened;
        parsed = operation;
        purpose = refl;
        unsigned = unless_signed-ok s3.0 (get s3.0.fingerprint guard.signed) s4.1;
      })

  pub assess-Assessed :
      (waiting : Assessing) (call : EnforceCall) (approved : Approved)
      → assess hash waiting call.transport call.request_then call.now_then ≡ ok approved
      → Assessed hash waiting call approved
  unfolding assess
  assess-Assessed waiting call approved h =
      let op = waiting.operation in
      let answer =
        fetch_decision waiting.operation waiting.effective waiting.purpose call.transport in
      let s1 = bind-ok (or_undecided op answer) _ approved h in
      let s2 = bind-ok (require_go (is_go s1.0.verdict) op s1.0) _ approved s1.2 in
      let confident = not (lt (decision_confidence s1.0) waiting.effective.min_go_confidence) in
      let s3 = bind-ok (require_go confident op s1.0) _ approved s2.2 in
      let parsed = parse_operation hash call.request_then waiting.effective call.now_then in
      let s4 = bind-ok (or_refusal RefusalCode.stale_approval parsed) _ approved s3.2 in
      let s5 = bind-ok (require_same (s4.0.fingerprint == op.fingerprint)) _ approved s4.2 in
      let is_same = require_same-ok (s4.0.fingerprint == op.fingerprint) s5.1 in
      let is_confident = require_go-ok confident op s1.0 s3.1 in
      let goes = require_go-ok (is_go s1.0.verdict) op s1.0 s2.1 in
      subst (Assessed hash waiting call) (ok-injective s5.2) (record {
        operation = refl;
        decided = or_undecided-ok op answer s1.0 s1.1;
        go = ground (arith, goes);
        confident = ground (arith, is_confident);
        current = s4.0;
        parsed = or_refusal-ok RefusalCode.stale_approval parsed s4.0 s4.1;
        same = ground (arith, is_same);
      })

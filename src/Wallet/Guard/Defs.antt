-- ===== src/Wallet/Guard/Defs.antt =====
-- The definitions of guard.ts. `enforce` awaits the gate and then the signer; the parts before,
-- between and after are `start`, `assess` and `sign`. What the caller may change meanwhile is an
-- argument: the request is read again after the gate has answered.
use ligis.Prelude.{ℕ, Bool, true, false, not, Option, none, some, [], ◌==◌, Table, get, put}
use ligis.Wallet.Chars.{Text}
use ligis.Wallet.Number.{lt}
use ligis.Wallet.Types.{
  Value, Verdict, OperatorPolicy, AgentRequest, Authorization, Domain, AuthorizationRequest,
  BoundFields, ParsedOperation, GateDecision, RefusalCode, GuardOutcome, Result, ok, err, ◌>>=◌,
  ◌>>◌,
}
use ligis.Wallet.Policy.Tighten.{Loosening, tighten_with_agent_request}
use ligis.Wallet.Policy.Parse.{PolicyError, Url, parse_operator_policy}
use ligis.Wallet.Operation.Defs.{OperationError, parse_operation}
use ligis.Wallet.Decision.Defs.{GateQuery, Transported, fetch_decision, decision_confidence}

pub record Recorded : Type 0 where
  pub signature : Text
  pub decision : GateDecision

-- What a guard closes over: its policy, `none` where it could not be parsed, its command, and the
-- signatures by fingerprint.
pub record PaymentGuard : Type 0 where
  pub policy : Option OperatorPolicy
  pub command_id : Text
  pub signed : Table Recorded

abbrev policy_of : Result PolicyError OperatorPolicy → Option OperatorPolicy
policy_of (ok p) = some p
policy_of (err e) = none

unfoldable pub create_payment_guard : (Text → Option Url) → Value → Text → PaymentGuard
create_payment_guard url policy command_id = record {
  policy = policy_of (parse_operator_policy url policy);
  command_id = command_id;
  signed = [];
}

-- A call that waits for the gate, and one that waits for the signer.
pub record Assessing : Type 0 where
  pub operation : ParsedOperation
  pub effective : OperatorPolicy
  pub purpose : Option Text

pub record Approved : Type 0 where
  pub operation : ParsedOperation
  pub decision : GateDecision

-- What the signer is asked to sign.
pub record SignRequest : Type 0 where
  pub command_id : Text
  pub domain : Option Domain
  pub message : Option Authorization

-- A step of a call goes on, or answers the caller.
abbrev pub Step : Type 0 → Type 0
Step A = Result GuardOutcome A

abbrev pub refuse : {A : Type 0} → RefusalCode → Step A
refuse code = err (GuardOutcome.refused (record { code = code; operation = none; decision = none }))

abbrev pub refuse_at : {A : Type 0} → RefusalCode → ParsedOperation → Option GateDecision → Step A
refuse_at code operation decision =
    err (
      GuardOutcome.refused
        (record { code = code; operation = some operation; decision = decision }))

abbrev pub or_loosening : Result Loosening OperatorPolicy → Step OperatorPolicy
or_loosening (ok p) = ok p
or_loosening (err e) = refuse RefusalCode.agent_policy_loosening

-- `code` is what the caller is told when the operation does not parse.
abbrev pub or_refusal : RefusalCode → Result OperationError ParsedOperation → Step ParsedOperation
or_refusal code (ok op) = ok op
or_refusal code (err e) = refuse code

abbrev pub or_undecided : ParsedOperation → Result RefusalCode GateDecision → Step GateDecision
or_undecided operation (ok d) = ok d
or_undecided operation (err code) = refuse_at code operation none

abbrev pub or_missing : Option OperatorPolicy → Step OperatorPolicy
or_missing none = refuse RefusalCode.policy_missing
or_missing (some p) = ok p

-- A recorded signature answers the call.
abbrev pub unless_signed : ParsedOperation → Option Recorded → Step (Unit {0})
unless_signed operation none = ok tt
unless_signed operation (some r) = err (
    GuardOutcome.signed (record {
      signature = r.signature;
      operation = operation;
      decision = r.decision;
      idempotent_replay = true;
    }))

abbrev pub is_go : Verdict → Bool
is_go Verdict.go = true
is_go _ = false

-- `if (!test) return` with the decision.
abbrev pub require_go : Bool → ParsedOperation → GateDecision → Step (Unit {0})
require_go true operation decision = ok tt
require_go false operation decision =
    refuse_at RefusalCode.decision_not_go operation (some decision)

abbrev pub require_same : Bool → Step (Unit {0})
require_same true = ok tt
require_same false = refuse RefusalCode.stale_approval

-- `agentRequest?.purpose`
abbrev pub purpose_of : Option AgentRequest → Option Text
purpose_of none = none
purpose_of (some request) = request.purpose

module _ (hash : BoundFields → ℕ) where
  -- Before the gate is asked.
  unfoldable pub start :
      PaymentGuard → AuthorizationRequest → Option AgentRequest → ℕ → Step Assessing
  start guard request agent_request now = do
    policy ← or_missing guard.policy
    effective ← or_loosening (tighten_with_agent_request policy agent_request)
    operation ←
        or_refusal RefusalCode.unsupported_operation (parse_operation hash request effective now)
    unless_signed operation (get operation.fingerprint guard.signed)
    ok (record { operation = operation; effective = effective; purpose = purpose_of agent_request })

  -- The gate is asked, and its answer judged, up to the request to the signer.
  unfoldable pub assess :
      Assessing → (GateQuery → Transported) → AuthorizationRequest → ℕ → Step Approved
  assess call transport request now = do
    decision ←
        or_undecided call.operation
          (fetch_decision call.operation call.effective call.purpose transport)
    require_go (is_go decision.verdict) call.operation decision
    require_go (not (lt (decision_confidence decision) call.effective.min_go_confidence))
        call.operation decision
    current ←
        or_refusal RefusalCode.stale_approval (parse_operation hash request call.effective now)
    require_same (current.fingerprint == call.operation.fingerprint)
    ok (record { operation = call.operation; decision = decision })

-- What the signer is asked for; the request is the caller's, not the parsed operation.
unfoldable pub sign_request : PaymentGuard → AuthorizationRequest → SignRequest
sign_request guard request = record {
  command_id = guard.command_id;
  domain = request.domain;
  message = request.authorization;
}

-- From the signer's answer, `none` where it throws.
unfoldable pub sign : Approved → Option Text → PaymentGuard → GuardOutcome × PaymentGuard
sign approved none guard = (
  GuardOutcome.refused (record {
    code = RefusalCode.signer_failed;
    operation = some approved.operation;
    decision = some approved.decision;
  }),
  guard,
)
sign approved (some signature) guard = (
  GuardOutcome.signed (record {
    signature = signature;
    operation = approved.operation;
    decision = approved.decision;
    idempotent_replay = false;
  }),
  record guard {
    signed =
        put approved.operation.fingerprint
          (record { signature = signature; decision = approved.decision }) guard.signed;
  },
)

-- What a call of `enforce` meets: its arguments, the times of its two readings of the clock, the
-- transport, the request as it is then, and the signer.
pub record EnforceCall : Type 0 where
  pub request : AuthorizationRequest
  pub agent_request : Option AgentRequest
  pub now : ℕ
  pub transport : GateQuery → Transported
  pub request_then : AuthorizationRequest
  pub now_then : ℕ
  pub signer : SignRequest → Option Text

-- The outcome, the guard, and what the signer was asked to sign.
pub record Enforced : Type 0 where
  pub outcome : GuardOutcome
  pub guard : PaymentGuard
  pub asked : Option SignRequest

abbrev pub conclude : PaymentGuard → EnforceCall → Step Approved → Enforced
conclude guard call (err outcome) = record { outcome = outcome; guard = guard; asked = none }
conclude guard call (ok approved) =
    let request = sign_request guard call.request_then in
    let (outcome, guard_then) = sign approved (call.signer request) guard in
    record { outcome = outcome; guard = guard_then; asked = some request }

unfoldable pub enforce : (BoundFields → ℕ) → PaymentGuard → EnforceCall → Enforced
enforce hash guard call = conclude guard call (
    start hash guard call.request call.agent_request call.now >>= λ waiting.
    assess hash waiting call.transport call.request_then call.now_then)

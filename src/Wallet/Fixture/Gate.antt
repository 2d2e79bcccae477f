-- ===== src/Wallet/Fixture/Gate.antt =====
-- An answer of the gate, and a call of the guard.
use ligis.Prelude.{ℕ, ◌*◌, ◌≡◌, refl, none, some, [], ◌∷◌, arith}
use ligis.Prelude.Int.{pos}
use ligis.Wallet.Chars.{
  Text, codes, is_address, is_bytes32, is_uint, is_numeric, to_ℕ, to_lower, trim,
}
use ligis.Wallet.Number.{Number, of_ℕ}
use ligis.Wallet.Types.{Value, Verdict, GateSignal, GateDecision, ok}
use ligis.Wallet.Operation.Defs.{
  require_address, require_uint, require_bytes32, require_version, require_text, require_chain_id,
  asset_for, base_units_to_usd, or_throw, parse_domain, parse_authorization, check_authorization,
  check_amount, parse_operation,
}
use ligis.Wallet.Decision.Defs.{
  parse_signal, parse_all, parse_provenance, parse_decision, decision_confidence, Transported,
  response, or_malformed, read_answer, fetch_decision, GateQuery,
}
use ligis.Wallet.Guard.Defs.{
  PaymentGuard, SignRequest, start, assess, sign, sign_request, EnforceCall, enforce,
}
use ligis.Wallet.Fixture.Operation.{
  fields, array, number, policy, request, hash, operation, agent, tightened, policy_tightened,
  tightened_parsed,
}

abbrev pub signal : Text → Text → ℕ → Value
signal id status percent = Value.obj (
    fields (
      (codes "id", Value.str id)
      ∷ (codes "status", Value.str status)
      ∷ (codes "confidence", Value.num (Number.micro (pos (percent * 10000))))
      ∷ []))

abbrev pub payload : Value
payload = Value.obj (
    fields (
      (codes "verdict", Value.str (codes "GO"))
      ∷ (
        codes "signals",
        Value.arr (
            array (
              signal (codes "sanctions") (codes "GO") 90
              ∷ signal (codes "graph") (codes "SKIPPED") 0
              ∷ signal (codes "identity") (codes "GO") 70
              ∷ [])),
      )
      ∷ (codes "latencyMs", number 12)
      ∷ []))

abbrev pub transport : GateQuery → Transported
transport q = response 200 (some payload)

abbrev pub said : Text → Text → ℕ → GateSignal
said id status percent = record {
  id = id;
  status = status;
  confidence = Number.micro (pos (percent * 10000));
  reason = none;
}

abbrev pub decision : GateDecision
decision = record {
  verdict = Verdict.go;
  signals =
      said (codes "sanctions") (codes "GO") 90
      ∷ said (codes "graph") (codes "SKIPPED") 0
      ∷ said (codes "identity") (codes "GO") 70
      ∷ [];
  latency_ms = of_ℕ 12;
  provenance = [];
}

pub answer_fetched : fetch_decision operation tightened none transport ≡ ok decision
unfolding fetch_decision read_answer or_malformed parse_decision parse_all parse_signal
    parse_provenance
answer_fetched = refl

pub confidence_read : decision_confidence decision ≡ Number.micro (pos 700000)
unfolding decision_confidence
confidence_read = refl

abbrev pub guard : PaymentGuard
guard = record { policy = some policy; command_id = codes "ligis:pay"; signed = [] }

abbrev pub pay_call : EnforceCall
pay_call = record {
  request = request;
  agent_request = some agent;
  now = 1500000;
  transport = transport;
  request_then = request;
  now_then = 1501000;
  signer = λ r. some (codes "0xsigned");
}

abbrev pub asked : SignRequest
asked = record {
  command_id = codes "ligis:pay";
  domain = request.domain;
  message = request.authorization;
}

-- The guard after the call.
abbrev pub guard_then : PaymentGuard
guard_then = record guard {
  signed = (25001000, record { signature = codes "0xsigned"; decision = decision }) ∷ [];
}

pub parsed_then : parse_operation hash request tightened 1501000 ≡ ok operation
unfolding parse_operation or_throw parse_domain parse_authorization check_authorization check_amount
    base_units_to_usd asset_for require_address require_uint require_bytes32 require_version
    require_text require_chain_id is_address is_bytes32 is_uint is_numeric to_ℕ to_lower trim
parsed_then = refl

pub call_asks : (enforce hash guard pay_call).asked ≡ some asked
unfolding enforce start assess sign sign_request
call_asks =
    ground (arith, policy_tightened, tightened_parsed, parsed_then, answer_fetched, confidence_read)

pub call_signs : (enforce hash guard pay_call).guard ≡ guard_then
unfolding enforce start assess sign sign_request
call_signs =
    ground (arith, policy_tightened, tightened_parsed, parsed_then, answer_fetched, confidence_read)

-- ===== src/Gate/Tests.antt =====
-- Runs of the gate, and its theorems at concrete inputs.
use ligis.Prelude.Double.{round}
use ligis.Prelude.Int.{pos}
use ligis.Wallet.Number.{Number}
use ligis.Prelude.{◌≡◌, ◌↔◌, refl, true, false, ◌||◌, Option, none, some, [], ◌∷◌}
use ligis.Wallet.Chars.{codes, to_lower, trim}
use ligis.Wallet.Number.{of_ℕ}
use ligis.Gate.Defs.{
  is_over_price, VerdictStatus, SignalId, PaymentMandate, PaymentIntent, base_signal, check_payee,
  check_max, check_expected, check_intent, combine_signals, amount_signal, GateVerdict,
  compose_verdict, Layers, decide_signals, decide,
}
use ligis.Gate.Allowed.{IsAllowed, decide-go_iff}
use ligis.Wallet.Types.{Verdict}
use ligis.Gate.Reads.{
  JevVerdict, JevIntentResult, CredentialRead, SubjectResolution, EvidenceStatus, PayeeEvidence,
  is_empty_text,
}
use ligis.Gate.Layers.{OperatorTerms, Config, capability_asked, Answers, layers_of, decide_from}
use ligis.Gate.Qualified.{IsTrusted, decide_from-go, decide_from-zk_stop, decide_from-revoked}
use ligis.Gate.Terms.{violates}
use ligis.Gate.Stopped.{layers_stop, decide-stop_iff}

abbrev mandate : PaymentMandate
mandate = record {
  payees = some (codes "vendor-a" ∷ codes "Vendor-B" ∷ []);
  max_usd = some (of_ℕ 50);
  expected_usd = some (of_ℕ 10);
}

-- 11 dollars are within the tolerance of a contracted price of 10; 12 dollars are not.
abbrev intent : PaymentIntent
intent = record { payee = codes "vendor-b"; amount_usd = of_ℕ 11; mandate = some mandate }

abbrev overbilled : PaymentIntent
overbilled = record intent { amount_usd = of_ℕ 12 }

-- The operator has a cap of its own.
abbrev operator_mandate : Option PaymentMandate
operator_mandate = some (record { payees = none; max_usd = some (of_ℕ 20); expected_usd = none })

abbrev layers : Layers
layers = record {
  jev_payee = base_signal SignalId.right_payee VerdictStatus.go (of_ℕ 1);
  jev_amount = base_signal SignalId.right_amount VerdictStatus.skipped (of_ℕ 0);
  scope = base_signal SignalId.in_scope VerdictStatus.go (of_ℕ 1);
  verified = base_signal SignalId.verified_payee VerdictStatus.skipped (of_ℕ 0);
}

allowed : decide intent operator_mandate layers false ≡ GateVerdict.go
unfolding decide decide_signals check_intent check_payee check_max check_expected combine_signals
    amount_signal compose_verdict to_lower round
allowed = refl

stopped : decide overbilled none layers false ≡ GateVerdict.stop
unfolding decide decide_signals check_intent check_payee check_max check_expected combine_signals
    amount_signal compose_verdict to_lower round
stopped = refl

-- 1.243 dollars are above a contracted price of 1.13: the product is 1.2429999999999999.
rounded_down : is_over_price (Number.micro (pos 1130000)) (Number.micro (pos 1243000)) ≡ true
unfolding round
rounded_down = refl

-- Jev alone allows nothing.
without_mandate : decide (record intent { mandate = none }) none layers false ≡ GateVerdict.unknown
unfolding decide decide_signals check_intent check_payee check_max check_expected combine_signals
    amount_signal compose_verdict
without_mandate = refl

decide-go_iff_example :
    (decide intent operator_mandate layers false ≡ GateVerdict.go)
    ↔ IsAllowed intent operator_mandate layers false
decide-go_iff_example = decide-go_iff intent operator_mandate layers false

decide-stop_iff_example : (decide overbilled none layers false ≡ GateVerdict.stop) ↔ (
    (violates overbilled none || (violates overbilled overbilled.mandate || layers_stop layers))
    ≡ true)
decide-stop_iff_example = decide-stop_iff overbilled none layers false

abbrev registry_read : CredentialRead
registry_read = record {
  capable = true;
  revoked = true;
  self_issued = false;
  issuer = some (codes "0xIssuer");
  capability_id = codes "pay";
  capability_hash = codes "0xPay";
}

abbrev resolution : SubjectResolution
resolution = record {
  subject = codes "vendor-b";
  verdicts = none ∷ some registry_read ∷ [];
  capable = true;
  self_issued = false;
  primary = some registry_read;
}

abbrev jev_passed : JevIntentResult
jev_passed = record { verdict = JevVerdict.go; flags = []; confidence = of_ℕ 1 }

abbrev answers : Answers
answers = record {
  jev = jev_passed;
  credential = some resolution;
  page = none;
  external = [];
  zk = some Verdict.go;
}

abbrev terms_set : OperatorTerms
terms_set = record {
  required_capability = none;
  required_sources = none;
  eligible_sources = none;
  mandate = operator_mandate;
}

abbrev config : Config
config = record {
  operator = terms_set;
  evidence_enabled = true;
  env_capability = [];
  env_sources = [];
}

asked : is_empty_text (capability_asked config (codes "pay")) ≡ false
unfolding trim
asked = refl

-- A private proof does not override the revocation.
decide_from-revoked_example : decide_from intent (codes "pay") config answers ≡ GateVerdict.stop
decide_from-revoked_example =
    decide_from-revoked intent (codes "pay") config answers resolution refl asked refl refl

abbrev rejected : Answers
rejected = record answers { zk = some Verdict.stop }

decide_from-zk_stop_example : decide_from intent (codes "pay") config rejected ≡ GateVerdict.stop
decide_from-zk_stop_example = decide_from-zk_stop intent (codes "pay") config rejected refl

abbrev positive_record : PayeeEvidence
positive_record = record { source = codes "erc8004"; status = EvidenceStatus.positive }

abbrev found : CredentialRead
found = record registry_read { revoked = false }

abbrev vouched : Answers
vouched = record answers {
  credential = some (record resolution { verdicts = some found ∷ []; primary = some found });
  external = positive_record ∷ [];
  zk = none;
}

vouched_go : decide_from intent (codes "pay") config vouched ≡ GateVerdict.go
unfolding decide_from trim to_lower compose_verdict combine_signals check_payee amount_signal
    check_max check_expected round
vouched_go = refl

decide_from-go_example :
    IsAllowed intent operator_mandate (layers_of config (codes "pay") vouched) true
    × IsTrusted config (codes "pay") vouched
decide_from-go_example = decide_from-go intent (codes "pay") config vouched vouched_go

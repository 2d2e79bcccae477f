-- ===== src/Wallet/Tests.antt =====
-- The theorems at the inputs of Wallet/Fixture.
use ligis.Prelude.{
  ◌≤◌, ◌≡◌, ◌≢◌, ◌⊎◌, refl, true, false, none, some, [], ◌∷◌, arith, All, any, filter, length,
}
use ligis.Prelude.Int.{pos}
use ligis.Wallet.Chars.{codes}
use ligis.Wallet.Number.{Number, lt, of_ℕ}
use ligis.Wallet.Types.{Value, AgentMandate, ok, err}
use ligis.Wallet.Policy.Tighten.{merge, tighten_with}
use ligis.Wallet.Operation.Defs.{
  OperationError, ParsedAuthorization, check_authorization, parse_operation,
}
use ligis.Wallet.Decision.Defs.{
  parse_decision, is_answered, decision_confidence, response, gate_query,
}
use ligis.Wallet.Guard.Defs.{Recorded}
use ligis.Wallet.Policy.Narrower.{HasWindows}
use ligis.Wallet.Policy.Sound.{IsSound, parse_operator_policy-IsSound}
use ligis.Wallet.Operation.Permitted.{Permitted, parse_operation-Permitted}
use ligis.Wallet.Operation.Tightened.{parse_operation-tightened, tighten_with-nan}
use ligis.Wallet.Decision.Sound.{IsConfidence, fetch_decision-confident}
use ligis.Wallet.Guard.Signing.{Cleared, enforce-asked}
use ligis.Wallet.Guard.Once.{
  is_new, enforce_all, IsRecorded, enforce_all-recorded, enforce_all-once,
}
use ligis.Wallet.Guard.Overlap.{overlapping, overlapping-twice}
use ligis.Wallet.Fixture.Operation.{
  payer, shop, nonce, url, policy_input, policy, policy_parsed, request, hash, operation,
  request_parsed, agent, tightened, policy_tightened, tightened_parsed,
}
use ligis.Wallet.Fixture.Gate.{
  transport, decision, answer_fetched, guard, pay_call, asked, guard_then, call_asks,
}

mandate_window : HasWindows (some agent)
mandate_window m h n k = ground (arith, h, k)

enforce-asked_example : Cleared hash guard pay_call asked
enforce-asked_example = enforce-asked hash guard pay_call asked mandate_window call_asks

enforce_all-once_example :
    length (filter (is_new 25001000) (enforce_all hash guard (pay_call ∷ pay_call ∷ []))) ≤ 1
enforce_all-once_example = enforce_all-once hash 25001000 guard (pay_call ∷ pay_call ∷ [])

abbrev recorded : Recorded
recorded = record { signature = codes "0xsigned"; decision = decision }

enforce_all-recorded_example :
    All (IsRecorded 25001000 recorded) (enforce_all hash guard_then (pay_call ∷ []))
enforce_all-recorded_example =
    enforce_all-recorded hash 25001000 recorded guard_then (pay_call ∷ []) refl

overlapping-twice_example :
    ((overlapping hash guard pay_call pay_call).0.asked ≡ some asked)
    × ((overlapping hash guard pay_call pay_call).1.asked ≡ some asked)
    × ((overlapping hash guard pay_call pay_call).1.outcome
        ≡ (overlapping hash guard pay_call pay_call).0.outcome)
overlapping-twice_example =
    overlapping-twice hash guard pay_call asked (codes "0xsigned") call_asks refl

parse_operation-Permitted_example :
    Permitted policy 1500000 operation × (operation.fingerprint ≡ hash operation.bound)
parse_operation-Permitted_example =
    parse_operation-Permitted hash request policy 1500000 operation request_parsed

parse_operation-tightened_example : parse_operation hash request policy 1500000 ≡ ok operation
parse_operation-tightened_example =
    parse_operation-tightened hash request (some agent) policy tightened 1500000 operation
      mandate_window policy_tightened tightened_parsed

abbrev nan_mandate : AgentMandate
nan_mandate = record {
  max_usd = none;
  max_validity_seconds = some Number.nan;
  required_capability = none;
}

-- A window of a hundred years.
abbrev long : ParsedAuthorization
long = record {
  from = payer;
  payee = shop;
  value = 25000000;
  valid_after = 1000;
  valid_before = 3153600000;
  nonce = nonce;
}

too_long : check_authorization long policy 1500 ≡ err OperationError.window_too_long
unfolding check_authorization
too_long = refl

tighten_with-nan_example :
    (tighten_with policy nan_mandate ≡ ok (merge policy nan_mandate))
    × (check_authorization long (merge policy nan_mandate) 1500
        ≢ err OperationError.window_too_long)
tighten_with-nan_example = tighten_with-nan policy nan_mandate long 1500 refl refl refl

parse_operator_policy-IsSound_example : IsSound policy
parse_operator_policy-IsSound_example =
    parse_operator_policy-IsSound url policy_input policy policy_parsed

fetch_decision-confident_example :
    ((v : Value) × (transport (gate_query operation tightened none) ≡ response 200 (some v))
      × (parse_decision v ≡ ok decision))
    × All (λ s. IsConfidence s.confidence) decision.signals
    × ((lt (of_ℕ 0) (Number.micro (pos 500000)) ≡ false)
        ⊎ ((lt (decision_confidence decision) (Number.micro (pos 500000)) ≡ true)
            ⊎ ((any is_answered decision.signals ≡ true)
                × All
                    (λ s. lt s.confidence (Number.micro (pos 500000)) ≡ false)
                    (filter is_answered decision.signals))))
fetch_decision-confident_example =
    fetch_decision-confident operation tightened none transport decision (Number.micro (pos 500000))
      answer_fetched

-- ===== src/Wallet/Policy/Tighten.antt =====
-- `tightenWithAgentRequest`
use ligis.Prelude.{Bool, false, not, ◌||◌, Option, none, some, if◌then◌else◌}
use ligis.Wallet.Chars.{text_eq}
use ligis.Wallet.Number.{Number, lt, is_finite}
use ligis.Wallet.Types.{OperatorPolicy, AgentMandate, AgentRequest, Result, ok, err}

-- The reasons why a mandate is refused.
pub data Loosening : Type 0 where
  cap_raised window_extended capability_changed : Loosening

abbrev pub raises_cap : OperatorPolicy → Option Number → Bool
raises_cap policy none = false
raises_cap policy (some n) = not (is_finite n) || lt policy.max_usd n

-- Only `>` is tested here: `NaN` passes.
abbrev pub extends_window : OperatorPolicy → Option Number → Bool
extends_window policy none = false
extends_window policy (some n) = lt policy.max_validity_seconds n

abbrev pub changes_capability : OperatorPolicy → AgentMandate → Bool
changes_capability policy mandate = elim mandate.required_capability [
  | none ↦ false
  | some c ↦ elim policy.required_capability [ none ↦ false | some p ↦ not (text_eq c p) ]
]

abbrev pub or_else {ℓ} : {A : Type ℓ} → Option A → A → A
or_else none d = d
or_else (some a) d = a

abbrev pub or_else_some {ℓ} : {A : Type ℓ} → Option A → Option A → Option A
or_else_some none d = d
or_else_some (some a) d = some a

-- The policy with what the mandate sets in its place.
abbrev pub merge : OperatorPolicy → AgentMandate → OperatorPolicy
merge policy mandate = record policy {
  max_usd = or_else mandate.max_usd policy.max_usd;
  max_validity_seconds = or_else mandate.max_validity_seconds policy.max_validity_seconds;
  required_capability = or_else_some mandate.required_capability policy.required_capability;
}

unfoldable pub tighten_with : OperatorPolicy → AgentMandate → Result Loosening OperatorPolicy
tighten_with policy mandate =
    if raises_cap policy mandate.max_usd
    then err cap_raised
    else if extends_window policy mandate.max_validity_seconds
    then err window_extended
    else if changes_capability policy mandate
    then err capability_changed
    else ok (merge policy mandate)

-- A call with no request, or a request with no mandate, keeps the policy.
unfoldable pub tighten_with_agent_request :
    OperatorPolicy → Option AgentRequest → Result Loosening OperatorPolicy
tighten_with_agent_request policy none = ok policy
tighten_with_agent_request policy (some request) = elim request.mandate [
  | none ↦ ok policy
  | some mandate ↦ tighten_with policy mandate
]

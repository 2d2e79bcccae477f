-- ===== src/Wallet/Policy/Narrower.antt =====
-- What `tightenWithAgentRequest` may change of a policy.
use ligis.Prelude.{◌≡◌, refl, inl, inr, false, Option, none, some, arith, Option-cases}
use ligis.Wallet.Number.{Number, lt, is_nan, finite-not_nan, lt-false_trans}
use ligis.Wallet.Types.{OperatorPolicy, AgentMandate, AgentRequest, ok}
use ligis.Wallet.Policy.Tighten.{
  raises_cap, extends_window, or_else, tighten_with, tighten_with_agent_request,
}

-- Every amount and every window within the new limits is within the old ones, and all that is not a
-- limit is as before.
pub record IsNarrower (old new : OperatorPolicy) : Type 0 where
  pub gate_endpoint : new.gate_endpoint ≡ old.gate_endpoint
  pub assets : new.assets ≡ old.assets
  pub chains : new.chains ≡ old.chains
  pub payees : new.payees ≡ old.payees
  pub gate_timeout_ms : new.gate_timeout_ms ≡ old.gate_timeout_ms
  pub min_go_confidence : new.min_go_confidence ≡ old.min_go_confidence
  pub cap : (n : Number) → lt new.max_usd n ≡ false → lt old.max_usd n ≡ false
  pub window :
      (n : Number) → lt new.max_validity_seconds n ≡ false → lt old.max_validity_seconds n ≡ false

IsNarrower-refl : (p : OperatorPolicy) → IsNarrower p p
IsNarrower-refl p = record {
  gate_endpoint = refl;
  assets = refl;
  chains = refl;
  payees = refl;
  gate_timeout_ms = refl;
  min_go_confidence = refl;
  cap = λ n h. h;
  window = λ n h. h;
}

-- The mandate's window, if it has one, is a number.
abbrev pub HasWindow : AgentMandate → Type 0
HasWindow mandate = (n : Number) → mandate.max_validity_seconds ≡ some n → is_nan n ≡ false

cap-narrows :
    (p : OperatorPolicy) (o : Option Number)
    → raises_cap p o ≡ false
    → (n : Number) → lt (or_else o p.max_usd) n ≡ false
    → lt p.max_usd n ≡ false
cap-narrows p none r n h = h
cap-narrows p (some m) r n h =
    lt-false_trans n m p.max_usd (finite-not_nan m (ground arith)) h (ground arith)

window-narrows :
    (p : OperatorPolicy) (o : Option Number)
    → ((m : Number) → o ≡ some m → is_nan m ≡ false)
    → extends_window p o ≡ false
    → (n : Number) → lt (or_else o p.max_validity_seconds) n ≡ false
    → lt p.max_validity_seconds n ≡ false
window-narrows p none w r n h = h
window-narrows p (some m) w r n h = lt-false_trans n m p.max_validity_seconds (w m refl) h r

pub tighten_with-IsNarrower :
    (p : OperatorPolicy) (mandate : AgentMandate) (p' : OperatorPolicy)
    → HasWindow mandate
    → tighten_with p mandate ≡ ok p'
    → IsNarrower p p'
unfolding tighten_with
tighten_with-IsNarrower p mandate p' w h = record {
  gate_endpoint = ground arith;
  assets = ground arith;
  chains = ground arith;
  payees = ground arith;
  gate_timeout_ms = ground arith;
  min_go_confidence = ground arith;
  cap = λ n k. cap-narrows p mandate.max_usd (ground arith) n (ground arith);
  window = λ n k. window-narrows p mandate.max_validity_seconds w (ground arith) n (ground arith);
}

abbrev pub HasWindows : Option AgentRequest → Type 0
HasWindows none = Unit
HasWindows (some request) = (m : AgentMandate) → request.mandate ≡ some m → HasWindow m

pub tighten-IsNarrower :
    (p : OperatorPolicy) (request : Option AgentRequest) (p' : OperatorPolicy)
    → HasWindows request
    → tighten_with_agent_request p request ≡ ok p'
    → IsNarrower p p'
unfolding tighten_with_agent_request
tighten-IsNarrower p none p' w h = ground (arith, IsNarrower-refl p)
tighten-IsNarrower p (some request) p' w h = elim (Option-cases request.mandate) [
  | inl e ↦ ground (arith, IsNarrower-refl p, e)
  | inr (m, e) ↦ tighten_with-IsNarrower p m p' (w m e) (ground (arith, e))
]

-- ===== src/Wallet/Operation/Tightened.antt =====
-- How the operations that `parseOperation` returns depend on the policy, and on an agent's mandate.
use ligis.Prelude.{ℕ, ◌-◌, ◌/◌, ◌≡◌, ◌≢◌, ap, sym, ◌∙◌, false, Option, some, arith}
use ligis.Wallet.Number.{Number, of_ℕ}
use ligis.Wallet.Types.{
  ApprovedAsset, OperatorPolicy, AgentMandate, AgentRequest, Domain, AuthorizationRequest,
  BoundFields, ParsedOperation, ok, err,
}
use ligis.Wallet.Policy.Tighten.{
  raises_cap, changes_capability, merge, tighten_with, tighten_with_agent_request,
}
use ligis.Wallet.Policy.Narrower.{IsNarrower, HasWindows, tighten-IsNarrower}
use ligis.Wallet.Operation.Defs.{
  OperationError, asset_for, base_units_to_usd, ParsedAuthorization, parse_domain,
  check_authorization, check_amount, parse_operation,
}
use ligis.Wallet.Operation.Steps.{parse_operation-Steps, Steps-parse_operation}

parse_domain-IsNarrower :
    (raw : Domain) (p p' : OperatorPolicy)
    → IsNarrower p p'
    → parse_domain raw p' ≡ parse_domain raw p
unfolding parse_domain asset_for
parse_domain-IsNarrower raw p p' n =
    ap (λ c. parse_domain raw (record p' { chains = c })) n.chains
    ∙ ap (λ l. parse_domain raw (record p' { chains = p.chains; assets = l })) n.assets

check_authorization-IsNarrower :
    (a : ParsedAuthorization) (p p' : OperatorPolicy) (seconds : ℕ)
    → IsNarrower p p'
    → check_authorization a p' seconds ≡ ok tt
    → check_authorization a p seconds ≡ ok tt
unfolding check_authorization
check_authorization-IsNarrower a p p' seconds n h =
    ground (arith, n.payees, n.window (of_ℕ (a.valid_before - a.valid_after)))

check_amount-IsNarrower :
    (asset : ApprovedAsset) (value : ℕ) (p p' : OperatorPolicy) (usd : ℕ)
    → IsNarrower p p'
    → check_amount asset value p' ≡ ok usd
    → check_amount asset value p ≡ ok usd
unfolding check_amount base_units_to_usd
check_amount-IsNarrower asset value p p' usd n h = ground (arith, n.cap (of_ℕ usd))

-- An operation that passes under the policy tightened by an agent's request passes under the
-- operator's own policy, with the same fields, amount and fingerprint, where the mandate's window
-- is not NaN.
pub parse_operation-tightened :
    (hash : BoundFields → ℕ) (request : AuthorizationRequest) (agent : Option AgentRequest)
    (p p' : OperatorPolicy) (now : ℕ) (op : ParsedOperation)
    → HasWindows agent
    → tighten_with_agent_request p agent ≡ ok p'
    → parse_operation hash request p' now ≡ ok op
    → parse_operation hash request p now ≡ ok op
parse_operation-tightened hash request agent p p' now op w t h =
    let n = tighten-IsNarrower p agent p' w t in
    let s = parse_operation-Steps hash request p' now op h in
    Steps-parse_operation hash request p now op (record {
      raw = s.raw;
      d = s.d;
      auth = s.auth;
      a = s.a;
      usd = s.usd;
      supported = s.supported;
      has_domain = s.has_domain;
      domain = sym (parse_domain-IsNarrower s.raw p p' n) ∙ s.domain;
      has_auth = s.has_auth;
      parsed = s.parsed;
      checked = check_authorization-IsNarrower s.a p p' (now / 1000) n s.checked;
      amount = check_amount-IsNarrower s.d.asset s.a.value p p' s.usd n s.amount;
      result = s.result;
    })

not_too_long :
    (a : ParsedAuthorization) (p : OperatorPolicy) (seconds : ℕ)
    → p.max_validity_seconds ≡ Number.nan
    → check_authorization a p seconds ≡ err OperationError.window_too_long
    → ⊥
unfolding check_authorization
not_too_long a p seconds h e = ground arith

-- A mandate whose window is NaN is accepted whatever the policy's limit, if its cap and capability
-- are, and under the policy that it leaves no window is refused as too long.
pub tighten_with-nan :
    (p : OperatorPolicy) (mandate : AgentMandate) (a : ParsedAuthorization) (seconds : ℕ)
    → mandate.max_validity_seconds ≡ some Number.nan
    → raises_cap p mandate.max_usd ≡ false
    → changes_capability p mandate ≡ false
    → (tighten_with p mandate ≡ ok (merge p mandate))
      × (check_authorization a (merge p mandate) seconds ≢ err OperationError.window_too_long)
unfolding tighten_with
tighten_with-nan p mandate a seconds h c k =
    (ground (arith, h, c, k), not_too_long a (merge p mandate) seconds (ground (arith, h)))

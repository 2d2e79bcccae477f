-- ===== src/Wallet/Operation/Permitted.antt =====
-- What an operation that `parseOperation` returns has.
use ligis.Prelude.{
  ℕ, ◌+◌, ◌-◌, ◌*◌, ◌/◌, ◌%◌, ◌^◌, ◌≤◌, ◌<◌, ◌≡◌, refl, sym, ap, subst, ◌∙◌, true, false, some,
  arith, ◌==◌, any,
}
use native.Mathlib.Nat.{div-add-mod, add-zero, mul_comm}
use ligis.Wallet.Chars.{text_eq}
use ligis.Wallet.Number.{lt, of_ℕ}
use ligis.Wallet.Types.{
  ApprovedAsset, OperatorPolicy, Domain, AuthorizationRequest, BoundFields, ParsedOperation, ok,
}
use ligis.Wallet.Operation.Defs.{
  OperationError, asset_for, base_units_to_usd, is_allowed_payee, ParsedDomain, ParsedAuthorization,
  parse_domain, check_authorization, check_amount, or_throw, require_chain_id, require_text,
  require_version, require_address, parse_operation, max_safe_integer,
}
use ligis.Wallet.Operation.Steps.{bind-ok, require-ok, or_throw-ok, parse_operation-Steps}

-- The asset that the policy approves for the domain.
pub record ApprovedFor (policy : OperatorPolicy) (d : ParsedDomain) : Type 0 where
  pub chain : any (λ c. c == d.chain_id) policy.chains ≡ true
  pub asset : asset_for policy d.chain_id d.contract ≡ some d.asset

parse_domain-ApprovedFor :
    (raw : Domain) (policy : OperatorPolicy) (d : ParsedDomain)
    → parse_domain raw policy ≡ ok d
    → ApprovedFor policy d
unfolding parse_domain
parse_domain-ApprovedFor raw policy d h =
    let s1 = bind-ok (require_chain_id raw.chain_id) _ d h in
    let s2 = bind-ok (require_text raw.name) _ d s1.2 in
    let s3 = bind-ok (require_version raw.version) _ d s2.2 in
    let s4 = bind-ok (require_address raw.verifying_contract) _ d s3.2 in
    let s5 =
      require-ok (any (λ c. c == s1.0) policy.chains) OperationError.chain_not_permitted _ d s4.2 in
    let s6 =
      bind-ok (or_throw (asset_for policy s1.0 s4.0) OperationError.asset_not_approved) _ d s5.1 in
    let found =
      or_throw-ok (asset_for policy s1.0 s4.0) OperationError.asset_not_approved s6.0 s6.1 in
    record { chain = ground (arith, s5.0, s6.2); asset = ground (arith, found, s6.2) }

-- The conditions on the authorization, in seconds.
pub record IsCurrent (a : ParsedAuthorization) (policy : OperatorPolicy) (seconds : ℕ)
    : Type 0 where
  pub positive : 0 < a.value
  pub others : text_eq a.from a.payee ≡ false
  pub begun : a.valid_after ≤ seconds
  pub unexpired : seconds < a.valid_before
  pub window : lt policy.max_validity_seconds (of_ℕ (a.valid_before - a.valid_after)) ≡ false
  pub payee : is_allowed_payee policy.payees a.payee ≡ true

check_authorization-IsCurrent :
    (a : ParsedAuthorization) (policy : OperatorPolicy) (seconds : ℕ)
    → check_authorization a policy seconds ≡ ok tt
    → IsCurrent a policy seconds
unfolding check_authorization
check_authorization-IsCurrent a policy seconds h = record {
  positive = ground arith;
  others = ground arith;
  begun = ground arith;
  unexpired = ground arith;
  window = ground arith;
  payee = ground arith;
}

exact_quotient : (n m q : ℕ) → n % m ≡ 0 → n / m ≡ q → n ≡ q * m
exact_quotient n m q r e =
    sym (div-add-mod n m)
    ∙ ap (λ x. m * (n / m) + x) r
    ∙ ap (λ x. m * x + 0) e
    ∙ add-zero (m * q)
    ∙ mul_comm m q

-- A whole number of dollars, at least one and not above the cap.
pub record IsAmount (asset : ApprovedAsset) (value : ℕ) (policy : OperatorPolicy) (usd : ℕ)
    : Type 0 where
  pub exact : value ≡ usd * 10 ^ asset.decimals
  pub positive : 0 < usd
  pub safe : usd ≤ max_safe_integer
  pub capped : lt policy.max_usd (of_ℕ usd) ≡ false

check_amount-IsAmount :
    (asset : ApprovedAsset) (value : ℕ) (policy : OperatorPolicy) (usd : ℕ)
    → check_amount asset value policy ≡ ok usd
    → IsAmount asset value policy usd
unfolding check_amount base_units_to_usd
check_amount-IsAmount asset value policy usd h = record {
  exact = exact_quotient value (10 ^ asset.decimals) usd (ground arith) (ground arith);
  positive = ground arith;
  safe = ground arith;
  capped = ground arith;
}

-- What the policy permits of an operation, read from its bound fields.
pub record Permitted (policy : OperatorPolicy) (now : ℕ) (op : ParsedOperation) : Type 0 where
  pub chain : any (λ c. c == op.bound.chain_id) policy.chains ≡ true
  pub asset :
      (asset : ApprovedAsset) × (asset_for policy op.bound.chain_id op.bound.verifying_contract
        ≡ some asset)
      × (op.bound.asset ≡ asset.address)
      × (op.bound.value_base_units ≡ op.amount_usd * 10 ^ asset.decimals)
  pub positive : 0 < op.amount_usd
  pub capped : lt policy.max_usd (of_ℕ op.amount_usd) ≡ false
  pub others : text_eq op.bound.from op.bound.payee ≡ false
  pub begun : op.bound.valid_after ≤ now / 1000
  pub unexpired : now / 1000 < op.bound.valid_before
  pub window :
      lt policy.max_validity_seconds (of_ℕ (op.bound.valid_before - op.bound.valid_after)) ≡ false
  pub payee : is_allowed_payee policy.payees op.bound.payee ≡ true

-- An operation that `parse_operation` returns is on an approved chain, in the asset that the policy
-- lists for its contract, worth a whole number of dollars that is positive and not above the cap,
-- to an allowed payee other than the payer, in a window that has begun, has not ended and is not
-- longer than the policy's limit; and its fingerprint is the hash of its bound fields.
pub parse_operation-Permitted :
    (hash : BoundFields → ℕ) (request : AuthorizationRequest) (policy : OperatorPolicy) (now : ℕ)
    (op : ParsedOperation)
    → parse_operation hash request policy now ≡ ok op
    → Permitted policy now op × (op.fingerprint ≡ hash op.bound)
parse_operation-Permitted hash request policy now op h =
    let s = parse_operation-Steps hash request policy now op h in
    let d = parse_domain-ApprovedFor s.raw policy s.d s.domain in
    let a = check_authorization-IsCurrent s.a policy (now / 1000) s.checked in
    let u = check_amount-IsAmount s.d.asset s.a.value policy s.usd s.amount in
    subst (λ o. Permitted policy now o × (o.fingerprint ≡ hash o.bound)) (sym s.result)
      (
        record {
          chain = d.chain;
          asset = (s.d.asset, d.asset, refl, u.exact);
          positive = u.positive;
          capped = u.capped;
          others = a.others;
          begun = a.begun;
          unexpired = a.unexpired;
          window = a.window;
          payee = a.payee;
        },
        refl,
      )

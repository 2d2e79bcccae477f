-- ===== src/Wallet/Operation/Defs.antt =====
-- The definitions of operation.ts. SHA-256 over the canonical text of the bound fields is the
-- argument `hash`; `now` is in milliseconds.
use ligis.Prelude.{
  ℕ, ◌-◌, ◌/◌, ◌%◌, ◌^◌, Bool, true, not, ◌&&◌, Option, none, some, List, [], ◌∷◌, ltb, leb, ◌==◌,
  if◌then◌else◌, find, any,
}
use ligis.Wallet.Chars.{
  Text, codes, text_eq, is_address, is_bytes32, is_uint, is_numeric, to_ℕ, to_lower, trim,
}
use ligis.Wallet.Number.{lt, of_ℕ, is_positive_int, to_int}
use ligis.Wallet.Types.{
  Value, ApprovedAsset, OperatorPolicy, Authorization, Domain, AuthorizationRequest, BoundFields,
  ParsedOperation, Result, ok, err, ◌>>=◌, ◌>>◌, require,
}

-- `OperationError`, by what it says.
pub data OperationError : Type 0 where
  unsupported_primary_type domain_required bad_chain_id not_a_text not_numeric not_an_address
        not_an_integer not_bytes32 chain_not_permitted asset_not_approved authorization_required
        not_positive pays_itself empty_window already_expired not_yet_valid window_too_long
        payee_not_allowed not_whole out_of_range below_one_usd over_cap :
      OperationError

abbrev pub Parsed : Type 0 → Type 0
Parsed A = Result OperationError A

unfoldable pub require_address : Value → Parsed Text
require_address (Value.str s) = if is_address s then ok (to_lower s) else err not_an_address
require_address _ = err not_an_address

unfoldable pub require_uint : Value → Parsed ℕ
require_uint (Value.str s) = if is_uint s then ok (to_ℕ s) else err not_an_integer
require_uint _ = err not_an_integer

unfoldable pub require_bytes32 : Value → Parsed Text
require_bytes32 (Value.str s) = if is_bytes32 s then ok (to_lower s) else err not_bytes32
require_bytes32 _ = err not_bytes32

unfoldable pub require_version : Value → Parsed Text
require_version (Value.str s) = if is_numeric s then ok s else err not_numeric
require_version _ = err not_numeric

unfoldable pub require_text : Value → Parsed Text
require_text (Value.str s) = if text_eq (trim s) [] then err not_a_text else ok (trim s)
require_text _ = err not_a_text

unfoldable pub require_chain_id : Value → Parsed ℕ
require_chain_id (Value.num n) = if is_positive_int n then ok (to_int n) else err bad_chain_id
require_chain_id _ = err bad_chain_id

abbrev pub is_asset : ℕ → Text → ApprovedAsset → Bool
is_asset chain_id contract a = a.chain_id == chain_id && text_eq a.address (to_lower contract)

unfoldable pub asset_for : OperatorPolicy → ℕ → Text → Option ApprovedAsset
asset_for policy chain_id contract = find (is_asset chain_id contract) policy.assets

-- `Number.MAX_SAFE_INTEGER`
abbrev pub max_safe_integer : ℕ
max_safe_integer = 2 ^ 53 - 1

unfoldable pub base_units_to_usd : ApprovedAsset → ℕ → Parsed ℕ
base_units_to_usd asset value = do
  require (value % 10 ^ asset.decimals == 0) not_whole
  require (leb (value / 10 ^ asset.decimals) max_safe_integer) out_of_range
  ok (value / 10 ^ asset.decimals)

unfoldable pub or_throw : {A : Type 0} → Option A → OperationError → Parsed A
or_throw none e = err e
or_throw (some a) e = ok a

abbrev pub is_supported : Option Text → Bool
is_supported none = true
is_supported (some t) = text_eq t (codes "TransferWithAuthorization")

abbrev pub is_listed : List Text → Text → Bool
is_listed payees payee = any (λ p. text_eq p payee) payees

abbrev pub is_allowed_payee : List Text → Text → Bool
is_allowed_payee [] payee = true
is_allowed_payee (p ∷ payees) payee = is_listed (p ∷ payees) payee

-- What the domain fixes, before the authorization is read.
pub record ParsedDomain : Type 0 where
  pub chain_id : ℕ
  pub name : Text
  pub version : Text
  pub contract : Text
  pub asset : ApprovedAsset

unfoldable pub parse_domain : Domain → OperatorPolicy → Parsed ParsedDomain
unfolding or_throw
parse_domain domain policy = do
  chain_id ← require_chain_id domain.chain_id
  name ← require_text domain.name
  version ← require_version domain.version
  contract ← require_address domain.verifying_contract
  require (any (λ c. c == chain_id) policy.chains) chain_not_permitted
  asset ← or_throw (asset_for policy chain_id contract) asset_not_approved
  ok (record {
    chain_id = chain_id;
    name = name;
    version = version;
    contract = contract;
    asset = asset;
  })

pub record ParsedAuthorization : Type 0 where
  pub from : Text
  pub payee : Text
  pub value : ℕ
  pub valid_after : ℕ
  pub valid_before : ℕ
  pub nonce : Text

unfoldable pub parse_authorization : Authorization → Parsed ParsedAuthorization
parse_authorization auth = do
  from ← require_address auth.from
  payee ← require_address auth.to
  value ← require_uint auth.value
  valid_after ← require_uint auth.valid_after
  valid_before ← require_uint auth.valid_before
  nonce ← require_bytes32 auth.nonce
  ok (record {
    from = from;
    payee = payee;
    value = value;
    valid_after = valid_after;
    valid_before = valid_before;
    nonce = nonce;
  })

-- The conditions on the authorization's own fields, `seconds` the present time.
unfoldable pub check_authorization : ParsedAuthorization → OperatorPolicy → ℕ → Parsed (Unit {0})
check_authorization a policy seconds = do
  require (ltb 0 a.value) not_positive
  require (not (text_eq a.from a.payee)) pays_itself
  require (ltb a.valid_after a.valid_before) empty_window
  require (ltb seconds a.valid_before) already_expired
  require (leb a.valid_after seconds) not_yet_valid
  require (not (lt policy.max_validity_seconds (of_ℕ (a.valid_before - a.valid_after))))
      window_too_long
  require (is_allowed_payee policy.payees a.payee) payee_not_allowed

unfoldable pub check_amount : ApprovedAsset → ℕ → OperatorPolicy → Parsed ℕ
check_amount asset value policy = do
  usd ← base_units_to_usd asset value
  require (ltb 0 usd) below_one_usd
  require (not (lt policy.max_usd (of_ℕ usd))) over_cap
  ok usd

abbrev pub bind_fields : ParsedDomain → ParsedAuthorization → BoundFields
bind_fields d a = record {
  asset = d.asset.address;
  chain_id = d.chain_id;
  domain_name = d.name;
  domain_version = d.version;
  from = a.from;
  nonce = a.nonce;
  payee = a.payee;
  valid_after = a.valid_after;
  valid_before = a.valid_before;
  value_base_units = a.value;
  verifying_contract = d.contract;
}

unfoldable pub parse_operation :
    (BoundFields → ℕ) → AuthorizationRequest → OperatorPolicy → ℕ → Parsed ParsedOperation
unfolding or_throw
parse_operation hash request policy now = do
  require (is_supported request.primary_type) unsupported_primary_type
  domain ← or_throw request.domain domain_required
  d ← parse_domain domain policy
  auth ← or_throw request.authorization authorization_required
  a ← parse_authorization auth
  check_authorization a policy (now / 1000)
  usd ← check_amount d.asset a.value policy
  ok (record { bound = bind_fields d a; amount_usd = usd; fingerprint = hash (bind_fields d a) })

-- ===== src/Wallet/Policy/Parse.antt =====
-- `parseOperatorPolicy` of policy.ts. `new URL` is the argument `url`, `none` where it throws.
use ligis.Prelude.{
  ℕ, ◌-◌, ◌^◌, Bool, false, not, ◌&&◌, Option, none, some, List, [], ◌∷◌, leb, length,
  if◌then◌else◌,
}
use ligis.Wallet.Chars.{Text, codes, text_eq, is_address, is_https, is_capability, to_lower, trim}
use ligis.Wallet.Number.{Number, lt, is_finite, of_ℕ, is_positive_int, to_int}
use ligis.Wallet.Types.{
  Value, Values, Fields, elements, get_field, ApprovedAsset, OperatorPolicy, Result, ok, err, ◌>>=◌,
  ◌>>◌, require,
}

-- `PolicyError`, by what it says.
pub data PolicyError : Type 0 where
  not_an_object not_a_text not_an_integer not_a_bounded_number not_a_list not_an_address not_https
        not_a_url has_credentials no_assets not_pegged no_chains not_a_capability :
      PolicyError

abbrev pub Parsed : Type 0 → Type 0
Parsed A = Result PolicyError A

-- What the code reads of a `URL`.
pub record Url : Type 0 where
  pub username : Text
  pub password : Text
  pub origin : Text

unfoldable pub traverse : {A B : Type 0} → (A → Parsed B) → List A → Parsed (List B)
traverse f [] = ok []
traverse f (a ∷ xs) = do b ← f a; bs ← traverse f xs; ok (b ∷ bs)

unfoldable pub record_of : Value → Parsed Fields
record_of (Value.obj fs) = ok fs
record_of _ = err not_an_object

unfoldable pub non_empty : Value → Parsed Text
non_empty (Value.str s) = if text_eq (trim s) [] then err not_a_text else ok (trim s)
non_empty _ = err not_a_text

unfoldable pub positive_int : Value → ℕ → Parsed ℕ
positive_int (Value.num n) max =
    if is_positive_int n && leb (to_int n) max then ok (to_int n) else err not_an_integer
positive_int _ max = err not_an_integer

unfoldable pub bounded_number : Value → ℕ → ℕ → Parsed Number
bounded_number (Value.num n) min max =
    if is_finite n && (not (lt n (of_ℕ min)) && not (lt (of_ℕ max) n))
    then ok n
    else err not_a_bounded_number
bounded_number _ min max = err not_a_bounded_number

-- An address, trimmed and in lower case.
unfoldable pub parse_address : Value → Parsed Text
parse_address v = do s ← non_empty v; require (is_address s) not_an_address; ok (to_lower s)

unfoldable pub address_list : Value → Parsed (List Text)
address_list Value.undefined = ok []
address_list Value.null = ok []
address_list (Value.arr vs) = do
  require (leb (length (elements vs)) 256) not_a_list
  traverse parse_address (elements vs)
address_list _ = err not_a_list

-- `peg === 1`
abbrev pub is_one : Value → Bool
is_one (Value.num n) = not (lt n (of_ℕ 1)) && (not (lt (of_ℕ 1) n) && is_finite n)
is_one _ = false

abbrev pub max_chain_id : ℕ
max_chain_id = 2 ^ 31 - 1

unfoldable pub parse_asset : Value → Parsed ApprovedAsset
parse_asset entry = do
  asset ← record_of entry
  address ← parse_address (get_field (codes "address") asset)
  require (is_one (get_field (codes "usdPeg") asset)) not_pegged
  chain_id ← positive_int (get_field (codes "chainId") asset) max_chain_id
  decimals ← positive_int (get_field (codes "decimals") asset) 36
  symbol ← non_empty (get_field (codes "symbol") asset)
  ok (record { address = address; chain_id = chain_id; decimals = decimals; symbol = symbol })

-- An array that is not empty.
unfoldable pub non_empty_list : Value → PolicyError → Parsed (List Value)
non_empty_list (Value.arr (Values.cons v vs)) e = ok (v ∷ elements vs)
non_empty_list _ e = err e

unfoldable pub parse_capability : Value → Parsed (Option Text)
parse_capability Value.undefined = ok none
parse_capability Value.null = ok none
parse_capability v = do
  cap ← non_empty v
  require (is_capability cap) not_a_capability
  ok (some cap)

unfoldable pub parse_endpoint : (Text → Option Url) → Value → Parsed Text
parse_endpoint url v = do
  endpoint ← non_empty v
  require (is_https endpoint) not_https
  elim (url endpoint) [
    | none ↦ err not_a_url
    | some u ↦ do
      require (text_eq u.username [] && text_eq u.password []) has_credentials
      ok u.origin
  ]

unfoldable pub parse_operator_policy : (Text → Option Url) → Value → Parsed OperatorPolicy
parse_operator_policy url input = do
  raw ← record_of input
  gate_endpoint ← parse_endpoint url (get_field (codes "gateEndpoint") raw)
  entries ← non_empty_list (get_field (codes "assets") raw) no_assets
  assets ← traverse parse_asset entries
  ids ← non_empty_list (get_field (codes "chains") raw) no_chains
  chains ← traverse (λ v. positive_int v max_chain_id) ids
  required_capability ← parse_capability (get_field (codes "requiredCapability") raw)
  payees ← address_list (get_field (codes "payees") raw)
  max_usd ← bounded_number (get_field (codes "maxUsd") raw) 0 1000000
  max_validity ← positive_int (get_field (codes "maxValiditySeconds") raw) 86400
  gate_timeout_ms ← positive_int (get_field (codes "gateTimeoutMs") raw) 60000
  min_go_confidence ← bounded_number (get_field (codes "minGoConfidence") raw) 0 1
  ok (record {
    gate_endpoint = gate_endpoint;
    assets = assets;
    chains = chains;
    payees = payees;
    max_usd = max_usd;
    max_validity_seconds = of_ℕ max_validity;
    required_capability = required_capability;
    gate_timeout_ms = gate_timeout_ms;
    min_go_confidence = min_go_confidence;
  })

-- ===== src/Wallet/Fixture/Operation.antt =====
-- An operator's policy, an authorization of 25 dollars, and a mandate that lowers the cap.
use ligis.Prelude.{ℕ, ◌+◌, ◌≡◌, refl, Option, none, some, List, [], ◌∷◌}
use ligis.Prelude.Int.{pos}
use ligis.Wallet.Chars.{
  Text, codes, is_address, is_bytes32, is_uint, is_numeric, is_https, to_ℕ, to_lower, trim,
}
use ligis.Wallet.Number.{Number, of_ℕ}
use ligis.Wallet.Types.{
  Value, Values, Fields, OperatorPolicy, AgentRequest, AuthorizationRequest, BoundFields,
  ParsedOperation, ok, err,
}
use ligis.Wallet.Policy.Tighten.{tighten_with, tighten_with_agent_request}
use ligis.Wallet.Policy.Parse.{
  Url, traverse, record_of, non_empty, positive_int, bounded_number, parse_address, address_list,
  parse_asset, non_empty_list, parse_capability, parse_endpoint, parse_operator_policy,
}
use ligis.Wallet.Operation.Defs.{
  OperationError, require_address, require_uint, require_bytes32, require_version, require_text,
  require_chain_id, asset_for, base_units_to_usd, or_throw, parse_domain, parse_authorization,
  check_authorization, check_amount, parse_operation,
}

-- The fields of an object, from its keys and values.
abbrev pub fields : List (Text × Value) → Fields
fields [] = Fields.end
fields ((k, v) ∷ t) = Fields.field k v (fields t)

abbrev pub array : List Value → Values
array [] = Values.nil
array (v ∷ vs) = Values.cons v (array vs)

abbrev pub number : ℕ → Value
number n = Value.num (of_ℕ n)

abbrev pub usdc : Text
usdc = codes "0xA0b86991c6218b36c1d19D4a2e9Eb0cE3606eB48"

abbrev pub payer : Text
payer = codes "0x1111111111111111111111111111111111111111"

abbrev pub shop : Text
shop = codes "0x2222222222222222222222222222222222222222"

abbrev pub nonce : Text
nonce = codes "0x00000000000000000000000000000000000000000000000000000000000000aB"

abbrev pub url : Text → Option Url
url s = some (record { username = []; password = []; origin = s })

abbrev pub policy_input : Value
policy_input = Value.obj (
    fields (
      (codes "gateEndpoint", Value.str (codes "https://gate.example"))
      ∷ (
        codes "assets",
        Value.arr (
            array (
              Value.obj (
                fields (
                  (codes "address", Value.str usdc)
                  ∷ (codes "usdPeg", number 1)
                  ∷ (codes "chainId", number 8453)
                  ∷ (codes "decimals", number 6)
                  ∷ (codes "symbol", Value.str (codes "USDC"))
                  ∷ []))
              ∷ [])),
      )
      ∷ (codes "chains", Value.arr (array (number 8453 ∷ [])))
      ∷ (codes "maxUsd", number 100)
      ∷ (codes "maxValiditySeconds", number 3600)
      ∷ (codes "gateTimeoutMs", number 5000)
      ∷ (codes "minGoConfidence", Value.num (Number.micro (pos 500000)))
      ∷ []))

abbrev pub policy : OperatorPolicy
policy = record {
  gate_endpoint = codes "https://gate.example";
  assets =
      (record {
        address = codes "0xa0b86991c6218b36c1d19d4a2e9eb0ce3606eb48";
        chain_id = 8453;
        decimals = 6;
        symbol = codes "USDC";
      })
      ∷ [];
  chains = 8453 ∷ [];
  payees = [];
  max_usd = of_ℕ 100;
  max_validity_seconds = of_ℕ 3600;
  required_capability = none;
  gate_timeout_ms = 5000;
  min_go_confidence = Number.micro (pos 500000);
}

pub policy_parsed : parse_operator_policy url policy_input ≡ ok policy
unfolding parse_operator_policy record_of parse_endpoint non_empty is_https non_empty_list traverse
    parse_asset parse_address is_address positive_int bounded_number parse_capability address_list
    trim to_lower
policy_parsed = refl

abbrev pub request_of : Text → AuthorizationRequest
request_of value = record {
  authorization = some (record {
    from = Value.str payer;
    to = Value.str shop;
    value = Value.str value;
    valid_after = Value.str (codes "1000");
    valid_before = Value.str (codes "2000");
    nonce = Value.str nonce;
  });
  domain = some (record {
    name = Value.str (codes " USD Coin ");
    version = Value.str (codes "2");
    chain_id = number 8453;
    verifying_contract = Value.str usdc;
  });
  primary_type = none;
}

-- 25 dollars
abbrev pub request : AuthorizationRequest
request = request_of (codes "25000000")

abbrev pub hash : BoundFields → ℕ
hash b = b.value_base_units + b.valid_after

abbrev pub bound : BoundFields
bound = record {
  asset = codes "0xa0b86991c6218b36c1d19d4a2e9eb0ce3606eb48";
  chain_id = 8453;
  domain_name = codes "USD Coin";
  domain_version = codes "2";
  from = payer;
  nonce = codes "0x00000000000000000000000000000000000000000000000000000000000000ab";
  payee = shop;
  valid_after = 1000;
  valid_before = 2000;
  value_base_units = 25000000;
  verifying_contract = codes "0xa0b86991c6218b36c1d19d4a2e9eb0ce3606eb48";
}

abbrev pub operation : ParsedOperation
operation = record { bound = bound; amount_usd = 25; fingerprint = 25001000 }

pub request_parsed : parse_operation hash request policy 1500000 ≡ ok operation
unfolding parse_operation or_throw parse_domain parse_authorization check_authorization check_amount
    base_units_to_usd asset_for require_address require_uint require_bytes32 require_version
    require_text require_chain_id is_address is_bytes32 is_uint is_numeric to_ℕ to_lower trim
request_parsed = refl

-- The amount is not a whole number of dollars.
pub fraction_refused :
    parse_operation hash (request_of (codes "25000001")) policy 1500000
    ≡ err OperationError.not_whole
unfolding parse_operation or_throw parse_domain parse_authorization check_authorization check_amount
    base_units_to_usd asset_for require_address require_uint require_bytes32 require_version
    require_text require_chain_id is_address is_bytes32 is_uint is_numeric to_ℕ to_lower trim
fraction_refused = refl

-- The mandate lowers the cap to 30 dollars.
abbrev pub agent : AgentRequest
agent = record {
  purpose = none;
  mandate = some (record {
    max_usd = some (of_ℕ 30);
    max_validity_seconds = none;
    required_capability = none;
  });
}

abbrev pub tightened : OperatorPolicy
tightened = record policy { max_usd = of_ℕ 30 }

pub policy_tightened : tighten_with_agent_request policy (some agent) ≡ ok tightened
unfolding tighten_with_agent_request tighten_with
policy_tightened = refl

pub tightened_parsed : parse_operation hash request tightened 1500000 ≡ ok operation
unfolding parse_operation or_throw parse_domain parse_authorization check_authorization check_amount
    base_units_to_usd asset_for require_address require_uint require_bytes32 require_version
    require_text require_chain_id is_address is_bytes32 is_uint is_numeric to_ℕ to_lower trim
tightened_parsed = refl

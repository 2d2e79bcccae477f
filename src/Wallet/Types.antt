-- ===== src/Wallet/Types.antt =====
-- packages/wallet-plugin/src/types.ts. What the code takes as `unknown`, or checks with `typeof`
-- although its type says otherwise, is a JavaScript value.
use ligis.Prelude.{ℕ, Bool, true, false, Option, List, [], ◌∷◌, if◌then◌else◌}
use ligis.Wallet.Chars.{Text, text_eq}
use ligis.Wallet.Number.{Number}

mutual
  pub data Value : Type 0 where
    undefined null : Value
    bool : Bool → Value
    num : Number → Value
    str : Text → Value
    arr : Values → Value
    obj : Fields → Value

  pub data Values : Type 0 where
    nil : Values
    cons : Value → Values → Values

  pub data Fields : Type 0 where
    end : Fields
    field : Text → Value → Fields → Fields

abbrev pub elements : Values → List Value
elements nil = []
elements (cons v vs) = v ∷ elements vs

-- `value[key]` of an object: `undefined` for a key that it lacks.
abbrev pub get_field : Text → Fields → Value
get_field key end = undefined
get_field key (field k v rest) = if text_eq k key then v else get_field key rest

pub data Verdict : Type 0 where
  go stop unknown : Verdict

-- `usdPeg` is always 1.
pub record ApprovedAsset : Type 0 where
  pub address : Text
  pub chain_id : ℕ
  pub decimals : ℕ
  pub symbol : Text

pub record OperatorPolicy : Type 0 where
  pub gate_endpoint : Text
  pub assets : List ApprovedAsset
  pub chains : List ℕ
  pub payees : List Text
  pub max_usd : Number
  pub max_validity_seconds : Number
  pub required_capability : Option Text
  pub gate_timeout_ms : ℕ
  pub min_go_confidence : Number

pub record AgentMandate : Type 0 where
  pub max_usd : Option Number
  pub max_validity_seconds : Option Number
  pub required_capability : Option Text

pub record AgentRequest : Type 0 where
  pub purpose : Option Text
  pub mandate : Option AgentMandate

pub record Authorization : Type 0 where
  pub from : Value
  pub to : Value
  pub value : Value
  pub valid_after : Value
  pub valid_before : Value
  pub nonce : Value

pub record Domain : Type 0 where
  pub name : Value
  pub version : Value
  pub chain_id : Value
  pub verifying_contract : Value

-- `none` for a domain or an authorization that is no object.
pub record AuthorizationRequest : Type 0 where
  pub authorization : Option Authorization
  pub domain : Option Domain
  pub primary_type : Option Text

-- The fields that a fingerprint covers.
pub record BoundFields : Type 0 where
  pub asset : Text
  pub chain_id : ℕ
  pub domain_name : Text
  pub domain_version : Text
  pub from : Text
  pub nonce : Text
  pub payee : Text
  pub valid_after : ℕ
  pub valid_before : ℕ
  pub value_base_units : ℕ
  pub verifying_contract : Text

pub record ParsedOperation : Type 0 where
  pub bound : BoundFields
  pub amount_usd : ℕ
  pub fingerprint : ℕ

pub record GateSignal : Type 0 where
  pub id : Text
  pub status : Text
  pub confidence : Number
  pub reason : Option Text

pub record GateDecision : Type 0 where
  pub verdict : Verdict
  pub signals : List GateSignal
  pub latency_ms : Number
  pub provenance : List Text

pub data RefusalCode : Type 0 where
  policy_missing agent_policy_loosening unsupported_operation policy_refused decision_unavailable
        decision_malformed decision_timeout decision_not_go stale_approval signer_failed :
      RefusalCode

pub record Signed : Type 0 where
  pub signature : Text
  pub operation : ParsedOperation
  pub decision : GateDecision
  pub idempotent_replay : Bool

-- A refusal's `reason` is a text for people, and is left out.
pub record Refusal : Type 0 where
  pub code : RefusalCode
  pub operation : Option ParsedOperation
  pub decision : Option GateDecision

pub data GuardOutcome : Type 0 where
  signed : Signed → GuardOutcome
  refused : Refusal → GuardOutcome

-- What a function that may throw answers.
pub data Result (E A : Type 0) : Type 0 where
  ok : A → Result E A
  err : E → Result E A

infixl 5 ◌>>=◌ ◌>>◌
abbrev pub ◌>>=◌ : {E A B : Type 0} → Result E A → (A → Result E B) → Result E B
ok a >>= f = f a
err e >>= f = err e

abbrev pub ◌>>◌ : {E B : Type 0} → Result E (Unit {0}) → Result E B → Result E B
m >> k = m >>= λ _. k

-- `if (!test) throw error`
abbrev pub require : {E : Type 0} → Bool → E → Result E (Unit {0})
require true e = ok tt
require false e = err e

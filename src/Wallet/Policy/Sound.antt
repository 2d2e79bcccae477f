-- ===== src/Wallet/Policy/Sound.antt =====
-- What a policy that `parseOperatorPolicy` accepts is like.
use ligis.Prelude.{
  ℕ, ◌≤◌, ◌<◌, ◌≡◌, ◌≢◌, refl, sym, subst, true, false, Option, List, [], ◌∷◌, arith, leb, length,
  All,
}
use ligis.Wallet.Chars.{Text, codes}
use ligis.Wallet.Number.{Number, lt, is_finite, of_ℕ}
use ligis.Wallet.Types.{Value, Values, elements, get_field, ApprovedAsset, OperatorPolicy, ok}
use ligis.Wallet.Policy.Parse.{
  PolicyError, Parsed, Url, traverse, record_of, non_empty, positive_int, bounded_number,
  parse_address, address_list, is_one, max_chain_id, parse_asset, non_empty_list, parse_capability,
  parse_endpoint, parse_operator_policy,
}
use ligis.Wallet.Operation.Steps.{bind-ok, require-ok, ok-injective}

abbrev IsPositiveUpTo : ℕ → ℕ → Type 0
IsPositiveUpTo max n = (0 < n) × (n ≤ max)

-- A number between two bounds.
abbrev pub IsBetween : ℕ → ℕ → Number → Type 0
IsBetween min max n = (is_finite n ≡ true) × (lt n (of_ℕ min) ≡ false) × (lt (of_ℕ max) n ≡ false)

abbrev pub IsAsset : ApprovedAsset → Type 0
IsAsset a = (0 < a.chain_id) × (a.chain_id ≤ max_chain_id) × (0 < a.decimals) × (a.decimals ≤ 36)

pub record IsSound (p : OperatorPolicy) : Type 0 where
  pub has_assets : p.assets ≢ []
  pub assets : All IsAsset p.assets
  pub has_chains : p.chains ≢ []
  pub chains : All (λ c. (0 < c) × (c ≤ max_chain_id)) p.chains
  pub payees : length p.payees ≤ 256
  pub max_usd : IsBetween 0 1000000 p.max_usd
  pub window : (n : ℕ) × (p.max_validity_seconds ≡ of_ℕ n) × (0 < n) × (n ≤ 86400)
  pub timeout : (0 < p.gate_timeout_ms) × (p.gate_timeout_ms ≤ 60000)
  pub min_go_confidence : IsBetween 0 1 p.min_go_confidence

traverse-All :
    {A B : Type 0} (f : A → Parsed B) (P : B → Type 0)
    → ((a : A) (b : B) → f a ≡ ok b → P b)
    → (xs : List A) (ys : List B) → traverse f xs ≡ ok ys
    → All P ys × (length ys ≡ length xs)
unfolding traverse
traverse-All f P h [] ys e = subst (λ l. All P l × (length l ≡ 0)) (ok-injective e) (tt, refl)
traverse-All f P h (x ∷ xs) ys e =
    let s1 = bind-ok (f x) _ ys e in
    let s2 = bind-ok (traverse f xs) _ ys s1.2 in
    let r = traverse-All f P h xs s2.0 s2.1 in
    subst (λ l. All P l × (length l ≡ length (x ∷ xs))) (ok-injective s2.2)
      ((h x s1.0 s1.1, r.0), ground (arith, r.1))

positive_int-IsPositive : (v : Value) (max n : ℕ) → positive_int v max ≡ ok n → IsPositiveUpTo max n
unfolding positive_int
positive_int-IsPositive (Value.num (Number.micro z)) max n h = ground arith
positive_int-IsPositive (Value.num _) max n h = ground arith
positive_int-IsPositive _ max n h = ground arith

bounded_number-IsBetween :
    (v : Value) (min max : ℕ) (n : Number) → bounded_number v min max ≡ ok n → IsBetween min max n
unfolding bounded_number
bounded_number-IsBetween (Value.num x) min max n h = ground arith
bounded_number-IsBetween _ min max n h = ground arith

parse_asset-IsAsset : (v : Value) (a : ApprovedAsset) → parse_asset v ≡ ok a → IsAsset a
unfolding parse_asset
parse_asset-IsAsset v a h =
    let s1 = bind-ok (record_of v) _ a h in
    let s2 = bind-ok (parse_address (get_field (codes "address") s1.0)) _ a s1.2 in
    let s3 =
      require-ok (is_one (get_field (codes "usdPeg") s1.0)) PolicyError.not_pegged _ a s2.2 in
    let s4 = bind-ok (positive_int (get_field (codes "chainId") s1.0) max_chain_id) _ a s3.1 in
    let s5 = bind-ok (positive_int (get_field (codes "decimals") s1.0) 36) _ a s4.2 in
    let s6 = bind-ok (non_empty (get_field (codes "symbol") s1.0)) _ a s5.2 in
    let c = positive_int-IsPositive (get_field (codes "chainId") s1.0) max_chain_id s4.0 s4.1 in
    let d = positive_int-IsPositive (get_field (codes "decimals") s1.0) 36 s5.0 s5.1 in
    subst IsAsset (ok-injective s6.2) (c.0, c.1, d.0, d.1)

non_empty_list-length :
    (v : Value) (e : PolicyError) (xs : List Value) → non_empty_list v e ≡ ok xs → 0 < length xs
unfolding non_empty_list
non_empty_list-length (Value.arr (Values.cons v vs)) e xs h =
    subst (λ l. 0 < length l) (ok-injective h) (omega arith)
non_empty_list-length (Value.arr Values.nil) e xs h = ground arith
non_empty_list-length _ e xs h = ground arith

address_list-length : (v : Value) (ps : List Text) → address_list v ≡ ok ps → length ps ≤ 256
unfolding address_list
address_list-length (Value.arr vs) ps h =
    let s1 = require-ok (leb (length (elements vs)) 256) PolicyError.not_a_list _ ps h in
    let r = traverse-All parse_address (λ p. Unit {0}) (λ v p e. tt) (elements vs) ps s1.1 in
    ground (arith, r.1, s1.0)
address_list-length Value.undefined ps h =
    subst (λ l. length l ≤ 256) (ok-injective h) (omega arith)
address_list-length Value.null ps h = subst (λ l. length l ≤ 256) (ok-injective h) (omega arith)
address_list-length _ ps h = ground arith

not_empty : {A : Type 0} (xs : List A) → 0 < length xs → xs ≢ []
not_empty [] h = ground (arith, h)
not_empty (x ∷ xs) h = λ e. ground (arith, e)

-- The elements that a list which is not empty is parsed into.
listed :
    {B : Type 0} (f : Value → Parsed B) (P : B → Type 0) (v : Value) (e : PolicyError)
    (entries : List Value) (ys : List B)
    → ((a : Value) (b : B) → f a ≡ ok b → P b)
    → non_empty_list v e ≡ ok entries
    → traverse f entries ≡ ok ys
    → (ys ≢ []) × All P ys
listed f P v e entries ys h k t =
    let r = traverse-All f P h entries ys t in
    (not_empty ys (subst (λ n. 0 < n) (sym r.1) (non_empty_list-length v e entries k)), r.0)

-- A policy that `parse_operator_policy` accepts lists at least one chain and one asset, each with a
-- chain id up to 2^31 - 1 and from 1 to 36 decimals, and at most 256 payees; its cap is a number from
-- 0 to 1000000, its window a whole number of seconds from 1 to 86400, its timeout from 1 to 60000
-- milliseconds, and its least confidence a number from 0 to 1.
pub parse_operator_policy-IsSound :
    (url : Text → Option Url) (input : Value) (p : OperatorPolicy)
    → parse_operator_policy url input ≡ ok p
    → IsSound p
unfolding parse_operator_policy
parse_operator_policy-IsSound url input p h =
    let s1 = bind-ok (record_of input) _ p h in
    let raw = s1.0 in
    let s2 = bind-ok (parse_endpoint url (get_field (codes "gateEndpoint") raw)) _ p s1.2 in
    let s3 =
      bind-ok (non_empty_list (get_field (codes "assets") raw) PolicyError.no_assets) _ p s2.2 in
    let s4 = bind-ok (traverse parse_asset s3.0) _ p s3.2 in
    let s5 =
      bind-ok (non_empty_list (get_field (codes "chains") raw) PolicyError.no_chains) _ p s4.2 in
    let s6 = bind-ok (traverse (λ v. positive_int v max_chain_id) s5.0) _ p s5.2 in
    let s7 = bind-ok (parse_capability (get_field (codes "requiredCapability") raw)) _ p s6.2 in
    let s8 = bind-ok (address_list (get_field (codes "payees") raw)) _ p s7.2 in
    let s9 = bind-ok (bounded_number (get_field (codes "maxUsd") raw) 0 1000000) _ p s8.2 in
    let s10 = bind-ok (positive_int (get_field (codes "maxValiditySeconds") raw) 86400) _ p s9.2 in
    let s11 = bind-ok (positive_int (get_field (codes "gateTimeoutMs") raw) 60000) _ p s10.2 in
    let s12 = bind-ok (bounded_number (get_field (codes "minGoConfidence") raw) 0 1) _ p s11.2 in
    let assets =
      listed parse_asset IsAsset (get_field (codes "assets") raw) PolicyError.no_assets s3.0 s4.0
        parse_asset-IsAsset s3.1 s4.1 in
    let chains =
      listed (λ v. positive_int v max_chain_id) (IsPositiveUpTo max_chain_id)
        (get_field (codes "chains") raw) PolicyError.no_chains s5.0 s6.0
        (λ a b e. positive_int-IsPositive a max_chain_id b e) s5.1 s6.1 in
    let window =
      positive_int-IsPositive (get_field (codes "maxValiditySeconds") raw) 86400 s10.0 s10.1 in
    subst IsSound (ok-injective s12.2) (record {
      has_assets = assets.0;
      assets = assets.1;
      has_chains = chains.0;
      chains = chains.1;
      payees = address_list-length (get_field (codes "payees") raw) s8.0 s8.1;
      max_usd = bounded_number-IsBetween (get_field (codes "maxUsd") raw) 0 1000000 s9.0 s9.1;
      window = (s10.0, refl, window.0, window.1);
      timeout = positive_int-IsPositive (get_field (codes "gateTimeoutMs") raw) 60000 s11.0 s11.1;
      min_go_confidence =
          bounded_number-IsBetween (get_field (codes "minGoConfidence") raw) 0 1 s12.0 s12.1;
    })

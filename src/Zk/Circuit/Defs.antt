-- ===== src/Zk/Circuit/Defs.antt =====
-- The circuit and the assembly of its inputs. Poseidon is the argument `poseidon`; the two 64-bit
-- times are numbers, whose bound the circuit's input types carry.
use ligis.Prelude.{ℕ, ◌^◌, not, Option, none, some, List, [], ◌∷◌, leb, ◌==◌, if◌then◌else◌}
use ligis.Zk.Field.Defs.{to_field}
use ligis.Zk.Tree.Defs.{CredentialTree, root, path, merkle_root}

pub record CredentialLeafInput : Type 0 where
  pub commitment : ℕ
  pub payee_hash : ℕ
  pub capability_hash : ℕ
  pub issuer : ℕ
  pub expires_at : ℕ
  pub nonce : ℕ

pub record CircuitInputs : Type 0 where
  pub registry_root : ℕ
  pub payee_hash : ℕ
  pub capability_hash : ℕ
  pub context : ℕ
  pub current_time : ℕ
  pub nullifier : ℕ
  pub identity_secret : ℕ
  pub issuer : ℕ
  pub expires_at : ℕ
  pub credential_nonce : ℕ
  pub leaf_index : ℕ
  pub merkle_path : List ℕ

-- The messages of the circuit's assertions. `index_too_large` stands for the range constraint that
-- `to_le_bits` puts on the index.
pub data Assertion : Type 0 where
  secret_is_zero : Assertion
  issuer_is_zero : Assertion
  credential_expired : Assertion
  index_too_large : Assertion
  not_a_member : Assertion
  bad_nullifier : Assertion

module _ (poseidon : List ℕ → ℕ) where
  abbrev pub hash_pair : ℕ → ℕ → ℕ
  hash_pair left right = poseidon (left ∷ right ∷ [])

  unfoldable pub identity_commitment : ℕ → ℕ
  identity_commitment secret = poseidon (to_field secret ∷ [])

  unfoldable pub credential_leaf : CredentialLeafInput → ℕ
  credential_leaf c =
      poseidon
        (c.commitment ∷ c.payee_hash ∷ c.capability_hash ∷ c.issuer ∷ c.expires_at ∷ c.nonce ∷ [])

  unfoldable pub nullifier_for : ℕ → ℕ → ℕ → ℕ
  nullifier_for secret capability_hash context =
      poseidon (to_field secret ∷ capability_hash ∷ context ∷ [])

  -- `main` of main.nr for trees of the depth `depth`, on inputs that are field elements: the first
  -- assertion that fails, `none` where a proof exists.
  unfoldable pub main : ℕ → CircuitInputs → Option Assertion
  unfolding credential_leaf merkle_root
  main depth i =
      if i.identity_secret == 0
      then some secret_is_zero
      else if i.issuer == 0
      then some issuer_is_zero
      else if leb i.expires_at i.current_time
      then some credential_expired
      else if leb (2 ^ depth) i.leaf_index
      then some index_too_large
      else if not (
          merkle_root hash_pair
            (credential_leaf (record {
              commitment = poseidon (i.identity_secret ∷ []);
              payee_hash = i.payee_hash;
              capability_hash = i.capability_hash;
              issuer = i.issuer;
              expires_at = i.expires_at;
              nonce = i.credential_nonce;
            }))
            i.leaf_index i.merkle_path
          == i.registry_root)
      then some not_a_member
      else if not (poseidon (i.identity_secret ∷ i.capability_hash ∷ i.context ∷ []) == i.nullifier)
      then some bad_nullifier
      else none

  -- `none` where the tree has no leaf at the index. `c` is the credential with its commitment, which
  -- the source leaves out of its argument and this does not read.
  unfoldable pub build_inputs :
      CredentialTree ℕ → ℕ → ℕ → CredentialLeafInput → ℕ → ℕ → Option CircuitInputs
  unfolding nullifier_for path root to_field
  build_inputs tree index secret c context current_time = elim (path tree index) [
    | none ↦ none
    | some merkle_path ↦ some (record {
      registry_root = root 0 tree;
      payee_hash = c.payee_hash;
      capability_hash = c.capability_hash;
      context = context;
      current_time = current_time;
      nullifier = nullifier_for secret c.capability_hash context;
      identity_secret = to_field secret;
      issuer = c.issuer;
      expires_at = c.expires_at;
      credential_nonce = c.nonce;
      leaf_index = index;
      merkle_path = merkle_path;
    })
  ]

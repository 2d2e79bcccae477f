-- ===== src/Zk/Circuit/Complete.antt =====
-- What the circuit says of the inputs that a holder assembles.
use ligis.Prelude.{
  ℕ, ◌^◌, ◌<◌, ◌≡◌, sym, ap, ◌∙◌, Option, none, some, List, leb, ◌==◌, if◌then◌else◌, length, arith,
}
use ligis.Zk.Field.Defs.{to_field}
use ligis.Zk.Tree.Defs.{CredentialTree, build, root, merkle_root}
use ligis.Zk.Tree.Root.{leaf_or}
use ligis.Zk.Tree.Path.{path-merkle_root, fits, lt_capacity}
use ligis.Zk.Circuit.Defs.{
  CredentialLeafInput, CircuitInputs, Assertion, secret_is_zero, issuer_is_zero, credential_expired,
  hash_pair, identity_commitment, credential_leaf, nullifier_for, main, build_inputs,
}

-- What is left for the circuit to object to.
abbrev pub objection : ℕ → CredentialLeafInput → ℕ → Option Assertion
objection secret c now =
    if to_field secret == 0
    then some secret_is_zero
    else if c.issuer == 0
    then some issuer_is_zero
    else if leb c.expires_at now
    then some credential_expired
    else none

-- The inputs assembled along a path.
abbrev assembled :
    (List ℕ → ℕ) → CredentialTree ℕ → ℕ → ℕ → CredentialLeafInput → ℕ → ℕ → List ℕ → CircuitInputs
assembled poseidon tree index secret c context now p = record {
  registry_root = root 0 tree;
  payee_hash = c.payee_hash;
  capability_hash = c.capability_hash;
  context = context;
  current_time = now;
  nullifier = nullifier_for poseidon secret c.capability_hash context;
  identity_secret = to_field secret;
  issuer = c.issuer;
  expires_at = c.expires_at;
  credential_nonce = c.nonce;
  leaf_index = index;
  merkle_path = p;
}

main-assembled :
    (poseidon : List ℕ → ℕ) (tree : CredentialTree ℕ) (depth index secret : ℕ)
    (c : CredentialLeafInput) (context now : ℕ) (p : List ℕ)
    → c.commitment ≡ identity_commitment poseidon secret
    → index < 2 ^ depth
    → merkle_root (hash_pair poseidon) (credential_leaf poseidon c) index p ≡ root 0 tree
    → main poseidon depth (assembled poseidon tree index secret c context now p)
      ≡ objection secret c now
unfolding main identity_commitment credential_leaf nullifier_for
main-assembled poseidon tree depth index secret c context now p hc lt hr = ground (arith, hc, hr)

pub main-build_inputs :
    (poseidon : List ℕ → ℕ) (leaves : List ℕ) (depth : ℕ) (tree : CredentialTree ℕ)
    (index secret : ℕ) (c : CredentialLeafInput) (context now : ℕ)
    → build (hash_pair poseidon) 0 leaves depth ≡ some tree
    → index < length leaves
    → leaf_or 0 leaves index ≡ credential_leaf poseidon c
    → c.commitment ≡ identity_commitment poseidon secret
    → (i : CircuitInputs) × (build_inputs poseidon tree index secret c context now ≡ some i)
      × (main poseidon depth i ≡ objection secret c now)
unfolding build_inputs
main-build_inputs poseidon leaves depth tree index secret c context now built lt hl hc =
    let s = path-merkle_root (hash_pair poseidon) 0 leaves depth tree index built lt in
    (
      assembled poseidon tree index secret c context now s.0,
      ground (arith, s.1),
      main-assembled poseidon tree depth index secret c context now s.0 hc
          (lt_capacity (fits (hash_pair poseidon) 0 leaves depth tree built) lt)
          (ap (λ l. merkle_root (hash_pair poseidon) l index s.0) (sym hl) ∙ s.3),
    )

pub build_inputs-root :
    (poseidon : List ℕ → ℕ) (tree : CredentialTree ℕ) (index secret : ℕ) (c : CredentialLeafInput)
    (context now : ℕ) (i : CircuitInputs)
    → build_inputs poseidon tree index secret c context now ≡ some i
    → i.registry_root ≡ root 0 tree
unfolding build_inputs
build_inputs-root poseidon tree index secret c context now i h = ground arith

-- ===== src/Zk/Registry/Witness.antt =====
-- The holder's witness from the leaves of a manifest.
use ligis.Prelude.{ℕ, zero, suc, ◌<◌, ◌≡◌, some, List, [], ◌∷◌, length, arith}
use ligis.Zk.Tree.Defs.{CredentialTree, build, root}
use ligis.Zk.Tree.Root.{leaf_or}
use ligis.Zk.Circuit.Defs.{
  CredentialLeafInput, CircuitInputs, hash_pair, credential_leaf, identity_commitment, build_inputs,
  main,
}
use ligis.Zk.Circuit.Complete.{objection, main-build_inputs, build_inputs-root}
use ligis.Zk.Registry.Build.{find_index, witness_from_leaves}

find_index-found :
    (leaf : ℕ) (ls : List ℕ) (i : ℕ)
    → find_index leaf ls ≡ some i
    → (i < length ls) × (leaf_or 0 ls i ≡ leaf)
find_index-found leaf [] i h = ground (arith, h)
find_index-found leaf (l ∷ ls) zero h = ground arith
find_index-found leaf (l ∷ ls) (suc i) h = ground (arith, h, find_index-found leaf ls i)

witness_parts :
    (poseidon : List ℕ → ℕ) (leaves : List ℕ) (depth : ℕ) (c : CredentialLeafInput)
    (tree : CredentialTree ℕ) (index : ℕ)
    → witness_from_leaves poseidon leaves depth c ≡ some (tree, index)
    → (find_index (credential_leaf poseidon c) leaves ≡ some index)
      × (build (hash_pair poseidon) 0 leaves depth ≡ some tree)
unfolding witness_from_leaves
witness_parts poseidon leaves depth c tree index h = ground arith

-- A holder whose credential's leaf is among a manifest's leaves, so that the search gives a tree and
-- an index, can assemble inputs with that tree's root, and a proof exists exactly where the secret
-- is not a multiple of the field's modulus, the issuer is not zero and the credential has not
-- expired; otherwise the first of these is the assertion that fails.
pub witness_from_leaves-main :
    (poseidon : List ℕ → ℕ) (leaves : List ℕ) (depth : ℕ) (c : CredentialLeafInput)
    (tree : CredentialTree ℕ) (index secret context now : ℕ)
    → witness_from_leaves poseidon leaves depth c ≡ some (tree, index)
    → c.commitment ≡ identity_commitment poseidon secret
    → (i : CircuitInputs) × (build_inputs poseidon tree index secret c context now ≡ some i)
      × (build (hash_pair poseidon) 0 leaves depth ≡ some tree)
      × (i.registry_root ≡ root 0 tree)
      × (main poseidon depth i ≡ objection secret c now)
witness_from_leaves-main poseidon leaves depth c tree index secret context now h hc =
    let w = witness_parts poseidon leaves depth c tree index h in
    let f = find_index-found (credential_leaf poseidon c) leaves index w.0 in
    let b =
      main-build_inputs poseidon leaves depth tree index secret c context now w.1 f.0 f.1 hc in
    (b.0, b.1, w.1, build_inputs-root poseidon tree index secret c context now b.0 b.1, b.2)

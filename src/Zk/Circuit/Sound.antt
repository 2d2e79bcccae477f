-- ===== src/Zk/Circuit/Sound.antt =====
-- What a satisfied circuit says of the credentials from which the tree was built.
use ligis.Prelude.{
  ℕ, zero, suc, ◌^◌, ◌<◌, ◌≡◌, ◌≢◌, refl, sym, ap, ◌∙◌, Option, none, some, List, [], ◌∷◌, map,
  length, arith,
}
use ligis.Zk.Tree.Defs.{CredentialTree, build, root, merkle_root}
use ligis.Zk.Tree.Root.{leaf_or}
use ligis.Zk.Tree.Path.{merkle_root_sound}
use ligis.Zk.Circuit.Defs.{CredentialLeafInput, CircuitInputs, hash_pair, credential_leaf, main}

abbrev pub nth : {A : Type 0} → List A → ℕ → Option A
nth [] i = none
nth (x ∷ xs) zero = some x
nth (x ∷ xs) (suc i) = nth xs i

abbrev at : List ℕ → ℕ → ℕ
at l i = leaf_or 0 l i

-- The credential that the circuit's private inputs describe.
abbrev pub claimed : (List ℕ → ℕ) → CircuitInputs → CredentialLeafInput
claimed poseidon i = record {
  commitment = poseidon (i.identity_secret ∷ []);
  payee_hash = i.payee_hash;
  capability_hash = i.capability_hash;
  issuer = i.issuer;
  expires_at = i.expires_at;
  nonce = i.credential_nonce;
}

main-none :
    (poseidon : List ℕ → ℕ) (depth : ℕ) (i : CircuitInputs)
    → main poseidon depth i ≡ none
    → (i.identity_secret ≢ 0)
      × (i.issuer ≢ 0)
      × (i.current_time < i.expires_at)
      × (i.leaf_index < 2 ^ depth)
      × (merkle_root
            (hash_pair poseidon)
            (credential_leaf poseidon (claimed poseidon i))
            i.leaf_index
            i.merkle_path
          ≡ i.registry_root)
      × (poseidon (i.identity_secret ∷ i.capability_hash ∷ i.context ∷ []) ≡ i.nullifier)
unfolding main
main-none poseidon depth i h = ground arith

pair_injective :
    (poseidon : List ℕ → ℕ)
    → ((xs ys : List ℕ) → poseidon xs ≡ poseidon ys → xs ≡ ys)
    → (a b c d : ℕ) → hash_pair poseidon a b ≡ hash_pair poseidon c d
    → (a ≡ c) × (b ≡ d)
pair_injective poseidon inj a b c d h =
    let e = inj (a ∷ b ∷ []) (c ∷ d ∷ []) h in (ap (λ l. at l 0) e, ap (λ l. at l 1) e)

credential_leaf_injective :
    (poseidon : List ℕ → ℕ)
    → ((xs ys : List ℕ) → poseidon xs ≡ poseidon ys → xs ≡ ys)
    → (c d : CredentialLeafInput) → credential_leaf poseidon c ≡ credential_leaf poseidon d
    → c ≡ d
unfolding credential_leaf
credential_leaf_injective poseidon inj c d h =
    ap
      (λ l. record {
        commitment = at l 0;
        payee_hash = at l 1;
        capability_hash = at l 2;
        issuer = at l 3;
        expires_at = at l 4;
        nonce = at l 5;
      })
      (inj
        (c.commitment ∷ c.payee_hash ∷ c.capability_hash ∷ c.issuer ∷ c.expires_at ∷ c.nonce ∷ [])
        (d.commitment ∷ d.payee_hash ∷ d.capability_hash ∷ d.issuer ∷ d.expires_at ∷ d.nonce ∷ [])
        h)

leaf_nonzero :
    (poseidon : List ℕ → ℕ)
    → ((xs : List ℕ) → poseidon xs ≢ 0)
    → (c : CredentialLeafInput) → credential_leaf poseidon c ≢ 0
unfolding credential_leaf
leaf_nonzero poseidon pos c h = pos _ h

leaf_or-credential :
    (poseidon : List ℕ → ℕ)
    → ((xs ys : List ℕ) → poseidon xs ≡ poseidon ys → xs ≡ ys)
    → ((xs : List ℕ) → poseidon xs ≢ 0)
    → (creds : List CredentialLeafInput) (idx : ℕ) (c : CredentialLeafInput)
    → credential_leaf poseidon c ≡ leaf_or 0 (map (credential_leaf poseidon) creds) idx
    → nth creds idx ≡ some c
leaf_or-credential poseidon inj pos [] idx c h = elim (leaf_nonzero poseidon pos c h) [ ]
leaf_or-credential poseidon inj pos (d ∷ ds) zero c h =
    ap some (credential_leaf_injective poseidon inj d c (sym h))
leaf_or-credential poseidon inj pos (d ∷ ds) (suc idx) c h =
    leaf_or-credential poseidon inj pos ds idx c h

-- Where Poseidon has no collisions and is never zero: a proof against the root of the tree built
-- from some credentials exists only for a credential among them, at the index given, that was
-- issued to the holder of the secret for the public payee and capability and expires after the
-- public time, and only with the nullifier of that secret, capability and context.
pub main_sound :
    (poseidon : List ℕ → ℕ)
    → ((xs ys : List ℕ) → poseidon xs ≡ poseidon ys → xs ≡ ys)
    → ((xs : List ℕ) → poseidon xs ≢ 0)
    → (creds : List CredentialLeafInput) (depth : ℕ) (tree : CredentialTree ℕ) (i : CircuitInputs)
    → build (hash_pair poseidon) 0 (map (credential_leaf poseidon) creds) depth ≡ some tree
    → i.registry_root ≡ root 0 tree
    → length i.merkle_path ≡ depth
    → main poseidon depth i ≡ none
    → (c : CredentialLeafInput) × (nth creds i.leaf_index ≡ some c)
      × (c.commitment ≡ poseidon (i.identity_secret ∷ []))
      × (c.payee_hash ≡ i.payee_hash)
      × (c.capability_hash ≡ i.capability_hash)
      × (i.current_time < c.expires_at)
      × (i.nullifier ≡ poseidon (i.identity_secret ∷ c.capability_hash ∷ i.context ∷ []))
main_sound poseidon inj pos creds depth tree i built hroot hlen h =
    let s = main-none poseidon depth i h in
    let e =
      merkle_root_sound (hash_pair poseidon) (pair_injective poseidon inj) 0
        (map (credential_leaf poseidon) creds) depth tree
        (credential_leaf poseidon (claimed poseidon i)) i.leaf_index i.merkle_path built hlen s.3
        (s.4 ∙ hroot) in
    (
      claimed poseidon i,
      leaf_or-credential poseidon inj pos creds i.leaf_index (claimed poseidon i) e,
      refl,
      refl,
      refl,
      s.2,
      sym s.5,
    )

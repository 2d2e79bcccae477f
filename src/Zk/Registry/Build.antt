-- ===== src/Zk/Registry/Build.antt =====
-- `buildRegistryRoot` from the credentials that its replay leaves, and `witnessFromManifest`.
use ligis.Prelude.{
  ℕ, suc, ◌+◌, Option, none, some, List, [], ◌∷◌, ◌++◌, map, leb, ◌==◌, if◌then◌else◌,
}
use ligis.Wallet.Chars.{Text, to_lower}
use ligis.Zk.Tree.Defs.{CredentialTree, build, root}
use ligis.Zk.Circuit.Defs.{CredentialLeafInput, hash_pair, credential_leaf}
use ligis.Zk.Credential.Defs.{capability_field, payee_field}
use ligis.Zk.Registry.Keys.{entries}
use ligis.Zk.Registry.Defs.{
  RegistryEvent, SubjectRegistration, Credential, sort_events, replay, registration_of,
  verify_registrations, Skipped, issuer_field, commitment_field, Collected,
}

-- The argument of `credentialLeaf`; `issuer` is the issuer's field.
unfoldable pub leaf_input : (Text → ℕ) → Credential → SubjectRegistration → ℕ → CredentialLeafInput
unfolding payee_field capability_field
leaf_input keccak c reg issuer = record {
  commitment = commitment_field reg.commitment;
  payee_hash = payee_field keccak reg.zcash_address;
  capability_hash = capability_field keccak c.event.capability_hash;
  issuer = issuer;
  expires_at = c.event.expires_at;
  nonce = c.event.nonce;
}

module _ (keccak : Text → ℕ) (by_subject : List (Text × SubjectRegistration)) (as_of : ℕ) where
  abbrev pub push_leaf : Credential → SubjectRegistration → Collected → Option Collected
  push_leaf c reg st = elim (issuer_field c.event.issuer) [
    | none ↦ none
    | some issuer ↦ some (record {
      leaves = st.leaves ++ (leaf_input keccak c reg issuer ∷ []);
      skipped = st.skipped;
    })
  ]

  -- The body of the loop over the credentials, `none` where it throws.
  unfoldable pub admit : Credential → Collected → Option Collected
  admit c st =
      if c.is_revoked
      then some (record {
        leaves = st.leaves;
        skipped = record {
          revoked = st.skipped.revoked + 1;
          expired = st.skipped.expired;
          unregistered = st.skipped.unregistered;
          bad_registration = st.skipped.bad_registration;
        };
      })
      else if leb c.event.expires_at as_of
      then some (record {
        leaves = st.leaves;
        skipped = record {
          revoked = st.skipped.revoked;
          expired = st.skipped.expired + 1;
          unregistered = st.skipped.unregistered;
          bad_registration = st.skipped.bad_registration;
        };
      })
      else elim (registration_of (to_lower c.event.subject) by_subject) [
        | none ↦ some (record {
          leaves = st.leaves;
          skipped = record {
            revoked = st.skipped.revoked;
            expired = st.skipped.expired;
            unregistered = st.skipped.unregistered + 1;
            bad_registration = st.skipped.bad_registration;
          };
        })
        | some reg ↦ push_leaf c reg st
      ]

  unfoldable pub collect : List Credential → Collected → Option Collected
  unfolding admit
  collect [] st = some st
  collect (c ∷ cs) st = elim (admit c st) [ none ↦ none | some st' ↦ collect cs st' ]

-- The tree and what the manifest is made of.
pub record RegistryRoot : Type 0 where
  pub tree : CredentialTree ℕ
  pub depth : ℕ
  pub root : ℕ
  pub as_of : ℕ
  pub leaves : List ℕ
  pub skipped : Skipped

abbrev pub nothing_collected : ℕ → Collected
nothing_collected bad = record {
  leaves = [];
  skipped = record { revoked = 0; expired = 0; unregistered = 0; bad_registration = bad };
}

module _ (poseidon : List ℕ → ℕ) (keccak : Text → ℕ) where
  abbrev pub publish : ℕ → ℕ → Collected → Option RegistryRoot
  publish as_of depth st =
      elim (build (hash_pair poseidon) 0 (map (credential_leaf poseidon) st.leaves) depth) [
        | none ↦ none
        | some tree ↦ some (record {
          tree = tree;
          depth = depth;
          root = root 0 tree;
          as_of = as_of;
          leaves = map (credential_leaf poseidon) st.leaves;
          skipped = st.skipped;
        })
      ]

  -- `none` where it throws.
  unfoldable pub build_registry_root :
      (Text → Text → Option Text)
      → List RegistryEvent
      → List SubjectRegistration
      → ℕ
      → ℕ
      → Option RegistryRoot
  unfolding replay sort_events verify_registrations collect build root credential_leaf
  build_registry_root recover events registrations as_of depth =
      let regs = verify_registrations recover registrations [] 0 in
      elim (collect keccak regs.0 as_of (entries (replay [] (sort_events events)))
        (nothing_collected regs.1)) [ none ↦ none | some st ↦ publish as_of depth st ]

abbrev pub find_index : ℕ → List ℕ → Option ℕ
find_index leaf [] = none
find_index leaf (l ∷ ls) =
    let rest = find_index leaf ls in
    if l == leaf then some 0 else elim rest [ none ↦ none | some i ↦ some (suc i) ]

-- `witnessFromManifest`, from the leaves and the depth of the manifest, for a credential with its
-- commitment and hashes computed.
unfoldable pub witness_from_leaves :
    (List ℕ → ℕ) → List ℕ → ℕ → CredentialLeafInput → Option (CredentialTree ℕ × ℕ)
unfolding build credential_leaf
witness_from_leaves poseidon leaves depth c =
    elim (find_index (credential_leaf poseidon c) leaves) [
      | none ↦ none
      | some index ↦ elim (build (hash_pair poseidon) 0 leaves depth) [
        | none ↦ none
        | some tree ↦ some (tree, index)
      ]
    ]

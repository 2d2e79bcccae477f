-- ===== src/Zk/Fixture/Published.antt =====
-- Two credentials, of which one is revoked, the registration of their subject, and the holder's proof
-- against the root that they give.
use ligis.Prelude.{ℕ, ◌+◌, ◌≡◌, refl, Option, none, some, List, [], ◌∷◌}
use ligis.Wallet.Chars.{Text, codes, to_lower, trim, is_address, is_bytes32, to_ℕ}
use ligis.Zk.Field.Defs.{to_field}
use ligis.Zk.Tree.Defs.{CredentialTree, next_level, build_levels, build, root}
use ligis.Zk.Circuit.Defs.{
  CredentialLeafInput, CircuitInputs, hash_pair, identity_commitment, credential_leaf,
  nullifier_for, main,
}
use ligis.Zk.Credential.Defs.{capability_field, payee_field}
use ligis.Zk.Registry.Defs.{Issued, Revoked, RegistryEvent, issued, revoked, SubjectRegistration}
use ligis.Zk.Registry.Build.{leaf_input, RegistryRoot, build_registry_root, witness_from_leaves}
use ligis.Zk.Fixture.Poseidon.{toy}

abbrev pub issuer_address : Text
issuer_address = codes "0x00000000000000000000000000000000000000aB"

abbrev pub holder : Text
holder = codes "0xHolder"

-- A sum of the characters, in the place of Keccak-256.
abbrev pub checksum : Text → ℕ
checksum [] = 7
checksum (c ∷ s) = c + checksum s

-- A signature is the signer's name.
abbrev pub recover_signer : Text → Text → Option Text
recover_signer message signature = some signature

abbrev pub granted : ℕ → Issued
granted nonce = record {
  issuer = issuer_address;
  subject = holder;
  capability_hash = codes "pay";
  nonce = nonce;
  expires_at = 900;
}

abbrev pub withdrawn : Revoked
withdrawn = record {
  issuer = issuer_address;
  subject = holder;
  capability_hash = codes "pay";
  nonce = 1;
}

abbrev pub events : List RegistryEvent
events = revoked 12 0 withdrawn ∷ issued 10 0 (granted 1) ∷ issued 11 3 (granted 2) ∷ []

abbrev pub registration : SubjectRegistration
registration = record {
  subject = holder;
  zcash_address = codes " zs1Payee ";
  commitment = codes "43";
  signature = codes "0xHOLDER";
}

abbrev pub credential : CredentialLeafInput
credential = record {
  commitment = 43;
  payee_hash = payee_field checksum (codes " zs1Payee ");
  capability_hash = capability_field checksum (codes "pay");
  issuer = 0xab;
  expires_at = 900;
  nonce = 2;
}

abbrev pub leaves : List ℕ
leaves = credential_leaf toy credential ∷ []

abbrev pub tree : CredentialTree ℕ
tree = record {
  depth = 1;
  levels = build_levels (hash_pair toy) 1 0 ((0, credential_leaf toy credential) ∷ []);
}

abbrev pub registry_root : RegistryRoot
registry_root = record {
  tree = tree;
  depth = 1;
  root = root 0 tree;
  as_of = 100;
  leaves = leaves;
  skipped = record { revoked = 1; expired = 0; unregistered = 0; bad_registration = 0 };
}

pub root_built :
    build_registry_root toy checksum recover_signer events (registration ∷ []) 100 1
    ≡ some registry_root
unfolding build_registry_root leaf_input credential_leaf to_lower to_ℕ is_address
root_built = refl

abbrev pub inputs : CircuitInputs
inputs = record {
  registry_root = root 0 tree;
  payee_hash = credential.payee_hash;
  capability_hash = credential.capability_hash;
  context = 77;
  current_time = 200;
  nullifier = nullifier_for toy 5 credential.capability_hash 77;
  identity_secret = 5;
  issuer = 0xab;
  expires_at = 900;
  credential_nonce = 2;
  leaf_index = 0;
  merkle_path = 0 ∷ [];
}

pub proof_exists : main toy 1 inputs ≡ none
unfolding main credential_leaf nullifier_for build_levels root next_level to_field payee_field
    capability_field to_lower trim is_bytes32
proof_exists = refl

pub witness_found : witness_from_leaves toy leaves 1 credential ≡ some (tree, 0)
unfolding witness_from_leaves credential_leaf build payee_field to_field to_lower trim
    capability_field is_bytes32
witness_found = refl

pub committed : credential.commitment ≡ identity_commitment toy 5
unfolding identity_commitment to_field
committed = refl

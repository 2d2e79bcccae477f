-- ===== src/Zk/Credential/Defs.antt =====
-- `evaluateZkCredential`, cut where it awaits the nullifier store and the verifier. Keccak-256 of
-- the UTF-8 bytes of a text, as a number, is the argument `keccak`.
use ligis.Prelude.{
  ℕ, ◌+◌, Bool, true, false, Option, none, some, List, [], ◌∷◌, ltb, ◌==◌, if◌then◌else◌, any,
}
use ligis.Wallet.Chars.{Text, is_bytes32}
use ligis.Wallet.Types.{Verdict, stop, unknown}
use ligis.Zk.Field.Defs.{to_field, field_hex, of_hex}
use ligis.Zk.Label.Defs.{canonical}

pub record MembershipPublicInputs : Type 0 where
  pub registry_root : ℕ
  pub payee_hash : ℕ
  pub capability_hash : ℕ
  pub context : ℕ
  pub current_time : ℕ
  pub nullifier : ℕ

pub record ZkProofInput : Type 0 where
  pub proof : Text
  pub context_label : Text
  pub public_inputs : MembershipPublicInputs

pub record Intent : Type 0 where
  pub payee : Text
  pub capability : Option Text

pub data RootManifest : Type 0 where
  absent unusable : RootManifest
  published : (root as_of leaf_count : ℕ) → RootManifest

pub data VerifyOutcome : Type 0 where
  verified invalid unavailable : VerifyOutcome

pub data NullifierClaim : Type 0 where
  claimed replayed unavailable : NullifierClaim

-- `seen` is `none` where the store is unavailable; `claim` also gives the store afterwards.
pub record NullifierStore (S : Type 0) : Type 0 where
  pub seen : S → Text → Text → Option Bool
  pub claim : S → Text → Text → NullifierClaim × S

-- The stores of the source catch what goes wrong, so neither throws; the verifier may, where `verify`
-- is `none`. `now` is in milliseconds; the ages are in seconds.
pub record ZkDeps : Type 0 where
  pub verify : Text → MembershipPublicInputs → Option VerifyOutcome
  pub trusted_roots : List ℕ
  pub root_manifest : RootManifest
  pub max_root_age : Option ℕ
  pub now : ℕ
  pub max_proof_age : Option ℕ

pub data RootSource : Type 0 where
  pinned manifest : RootSource

pub data Reason : Type 0 where
  not_configured manifest_unusable no_trusted_roots stale_root untrusted_root : Reason
  no_capability wrong_capability wrong_payee unbound_context from_future too_old : Reason
  store_unavailable replay not_verified invalid_proof not_recorded proven : Reason

pub data Verification : Type 0 where
  verified rejected unverified : Verification

pub record ZkCredentialResult : Type 0 where
  pub status : Verdict
  pub verification : Verification
  pub reason : Reason
  pub registry_root : Text
  pub root_source : Option RootSource
  pub nullifier : Text
  pub context : Text

-- Where the evaluation of a presentation stands: before its first await, before the verifier, before
-- the claim, and answered. `thrown` is an exception: the null dereference on a label that does
-- not parse, or what the verifier throws.
pub data Phase : Type 0 where
  waiting thrown : Phase
  unseen proved : RootSource → Phase
  answered : ZkCredentialResult → Phase

module _ (zk : ZkProofInput) where
  abbrev pub result : Verdict → Verification → Reason → Option RootSource → ZkCredentialResult
  result status verification reason source = record {
    status = status;
    verification = verification;
    reason = reason;
    registry_root = field_hex zk.public_inputs.registry_root;
    root_source = source;
    nullifier = field_hex zk.public_inputs.nullifier;
    context = zk.context_label;
  }

  -- The source's local `stop` and `unknown`.
  abbrev pub stopped : Reason → Option RootSource → Phase
  stopped reason source = answered (result stop rejected reason source)

  abbrev pub unsure : Reason → Option RootSource → Phase
  unsure reason source = answered (result unknown unverified reason source)

-- A text without its first two characters.
abbrev pub digits : Text → Text
digits (z ∷ x ∷ s) = s
digits s = s

module _ (keccak : Text → ℕ) where
  abbrev pub keccak_field : Text → ℕ
  keccak_field s = to_field (keccak s)

  unfoldable pub capability_field : Text → ℕ
  capability_field s = if is_bytes32 s then to_field (of_hex 0 (digits s)) else keccak_field s

  unfoldable pub payee_field : Text → ℕ
  payee_field address = keccak_field (canonical address)

  unfoldable pub context_field : Text → ℕ
  context_field label = keccak_field label

abbrev pub default_age : ℕ → Option ℕ → ℕ
default_age d none = d
default_age d (some n) = n

abbrev pub has_published : RootManifest → Bool
has_published (published root as_of leaf_count) = true
has_published _ = false

abbrev pub no_roots : RootManifest → Reason
no_roots unusable = manifest_unusable
no_roots _ = no_trusted_roots

abbrev pub is_empty : {A : Type 0} → List A → Bool
is_empty [] = true
is_empty (x ∷ xs) = false

pub data Trust : Type 0 where
  trusted : RootSource → Trust
  stale untrusted : Trust

-- Which source, if any, the root is trusted from, at `now_s` seconds.
unfoldable pub trust : ZkDeps → ℕ → ℕ → Trust
trust deps now_s root =
    if any (λ r. r == root) deps.trusted_roots then trusted pinned else elim deps.root_manifest [
      | absent ↦ untrusted
      | unusable ↦ untrusted
      | published r as_of leaf_count ↦
          if r == root
          then if ltb (as_of + default_age 86400 deps.max_root_age) now_s
            then stale
            else trusted manifest
          else untrusted
    ]

-- ===== src/Zk/Credential/Parse.antt =====
-- `parseZkProof` and `trustedRootsFromEnv`.
use ligis.Prelude.{
  ℕ, ◌*◌, ◌/◌, ◌%◌, Bool, true, false, ◌&&◌, Option, none, some, List, [], ◌∷◌, leb, ◌==◌, length,
}
use ligis.Wallet.Chars.{Text, codes, all_chars, is_hex, trim}
use ligis.Wallet.Types.{Value, Fields, get_field, Result, ok, err, ◌>>=◌, ◌>>◌, require}
use ligis.Zk.Field.Defs.{parse_field}
use ligis.Zk.Label.Defs.{split, parse_gate_context_label}
use ligis.Zk.Credential.Defs.{MembershipPublicInputs, ZkProofInput}

pub data ZkProofError : Type 0 where
  not_an_object bad_proof bad_context_label no_public_inputs bad_public_input : ZkProofError

-- /^0x(?:[0-9a-fA-F]{2})+$/ and at most MAX_PROOF_BYTES
unfoldable pub is_proof : Text → Bool
is_proof (z ∷ x ∷ s) =
    z == b'0'
    && (x == b'x'
        && (leb 2 (length s)
            && (length s % 2 == 0 && (all_chars is_hex s && leb (length s / 2) (64 * 1024)))))
is_proof _ = false

abbrev pub fields_or : ZkProofError → Value → Result ZkProofError Fields
fields_or e (Value.obj fs) = ok fs
fields_or e _ = err e

abbrev pub text_or : ZkProofError → Value → Result ZkProofError Text
text_or e (Value.str s) = ok s
text_or e _ = err e

abbrev pub public_input : Fields → Text → Result ZkProofError ℕ
public_input fs key = elim (parse_field (get_field key fs)) [
  | none ↦ err bad_public_input
  | some n ↦ ok n
]

-- The loop over PUBLIC_INPUT_ORDER.
unfoldable pub parse_public_inputs : Fields → Result ZkProofError MembershipPublicInputs
unfolding parse_field
parse_public_inputs fs = do
  registry_root ← public_input fs (codes "registry_root")
  payee_hash ← public_input fs (codes "payee_hash")
  capability_hash ← public_input fs (codes "capability_hash")
  context ← public_input fs (codes "context")
  current_time ← public_input fs (codes "current_time")
  nullifier ← public_input fs (codes "nullifier")
  ok (record {
    registry_root = registry_root;
    payee_hash = payee_hash;
    capability_hash = capability_hash;
    context = context;
    current_time = current_time;
    nullifier = nullifier;
  })

abbrev pub is_some : {A : Type 0} → Option A → Bool
is_some none = false
is_some (some a) = true

unfoldable pub parse_zk_proof : Value → Result ZkProofError ZkProofInput
unfolding is_proof parse_public_inputs parse_gate_context_label
parse_zk_proof raw = do
  r ← fields_or not_an_object raw
  proof ← text_or bad_proof (get_field (codes "proof") r)
  require (is_proof proof) bad_proof
  label ← text_or bad_context_label (get_field (codes "contextLabel") r)
  require (is_some (parse_gate_context_label label)) bad_context_label
  pi ← fields_or no_public_inputs (get_field (codes "publicInputs") r)
  public_inputs ← parse_public_inputs pi
  ok (record { proof = proof; context_label = label; public_inputs = public_inputs })

-- The entries that parse, in order.
abbrev pub parse_roots : List Text → List ℕ
parse_roots [] = []
parse_roots (s ∷ ss) =
    let rest = parse_roots ss in
    elim (parse_field (Value.str (trim s))) [ none ↦ rest | some n ↦ n ∷ rest ]

-- LIGIS_ZK_TRUSTED_ROOTS, the empty text where it is not set.
unfoldable pub trusted_roots_from_env : Text → List ℕ
unfolding parse_field
trusted_roots_from_env value = parse_roots (split b',' value)

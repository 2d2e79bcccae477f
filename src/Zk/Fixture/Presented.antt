-- ===== src/Zk/Fixture/Presented.antt =====
-- One proof presented twice at once to a gate that trusts the published root.
use ligis.Prelude.{ℕ, ◌≡◌, refl, none, some, List, [], ◌∷◌, ◌++◌, true}
use ligis.Wallet.Chars.{Text, codes, to_lower, trim, is_bytes32, is_hex, to_ℕ}
use ligis.Wallet.Types.{Value, ok}
use ligis.Wallet.Fixture.Operation.{fields}
use ligis.Zk.Field.Defs.{to_field, parse_field}
use ligis.Zk.Label.Defs.{parse_gate_context_label, context_prefix}
use ligis.Zk.Credential.Defs.{
  MembershipPublicInputs, ZkProofInput, Intent, RootManifest, VerifyOutcome, ZkDeps, RootSource,
  Phase,
}
use ligis.Zk.Credential.Evaluate.{begin, check_proof, record_nullifier, memory_nullifier_store}
use ligis.Zk.Credential.Bound.{is_go}
use ligis.Zk.Credential.Steps.{
  Presentation, World, Reached, at_first, after, begins, checks, claims,
}
use ligis.Zk.Credential.Parse.{parse_zk_proof}
use ligis.Zk.Fixture.Published.{checksum}

abbrev pub label : Text
label = context_prefix ++ codes ":zs1payee:pay:order-7"

abbrev pub public_inputs : MembershipPublicInputs
public_inputs = record {
  registry_root = 4242;
  payee_hash = 825;
  capability_hash = 337;
  context = 3192;
  current_time = 1000;
  nullifier = 99;
}

abbrev pub raw_proof : Value
raw_proof = Value.obj (
    fields (
      (codes "proof", Value.str (codes "0xabcd"))
      ∷ (codes "contextLabel", Value.str label)
      ∷ (
        codes "publicInputs",
        Value.obj (
            fields (
              (codes "registry_root", Value.str (codes "4242"))
              ∷ (codes "payee_hash", Value.str (codes "825"))
              ∷ (codes "capability_hash", Value.str (codes "337"))
              ∷ (codes "context", Value.str (codes "3192"))
              ∷ (codes "current_time", Value.str (codes "1000"))
              ∷ (codes "nullifier", Value.str (codes "0x63"))
              ∷ [])),
      )
      ∷ []))

abbrev pub zk : ZkProofInput
zk = record { proof = codes "0xabcd"; context_label = label; public_inputs = public_inputs }

abbrev pub intent : Intent
intent = record { payee = codes "zs1Payee "; capability = some (codes "pay") }

abbrev pub deps : ZkDeps
deps = record {
  verify = λ proof pub_inputs. some VerifyOutcome.verified;
  trusted_roots = [];
  root_manifest = RootManifest.published 4242 900 1;
  max_root_age = none;
  now = 1030000;
  max_proof_age = none;
}

pub proof_parsed : parse_zk_proof raw_proof ≡ ok zk
unfolding parse_zk_proof parse_field is_hex to_ℕ
proof_parsed = refl

pub begun :
    begin checksum zk intent memory_nullifier_store deps [] ≡ Phase.unseen RootSource.manifest
unfolding begin memory_nullifier_store parse_gate_context_label is_bytes32 to_field to_lower trim
begun = refl

pub proof_checked : check_proof zk deps RootSource.manifest ≡ Phase.proved RootSource.manifest
unfolding check_proof
proof_checked = refl

accepted : is_go ((record_nullifier memory_nullifier_store zk RootSource.manifest []).0) ≡ true
unfolding record_nullifier memory_nullifier_store
accepted = refl

abbrev pub presented : ℕ → Presentation
presented i = record { zk = zk; intent = intent; deps = deps }

abbrev pub Run : World (List Text) → Type 0
Run w = Reached checksum memory_nullifier_store presented [] w

-- Both begin, both are checked, and then the first claims and the second claims.
pub run : (w : World (List Text)) × Run w × (is_go (w.phases 0) ≡ true)
run =
    let r0 = at_first in
    let r1 = after r0 (begins 0 refl) in
    let r2 = after r1 (begins 1 refl) in
    let r3 = after r2 (checks 0 RootSource.manifest begun) in
    let r4 = after r3 (checks 1 RootSource.manifest begun) in
    let r5 = after r4 (claims 0 RootSource.manifest proof_checked) in
    let r6 = after r5 (claims 1 RootSource.manifest proof_checked) in (_, r6, accepted)

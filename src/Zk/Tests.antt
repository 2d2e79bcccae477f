-- ===== src/Zk/Tests.antt =====
-- The theorems at the values of Zk/Fixture.
use ligis.Prelude.{
  ℕ, ◌≡◌, ◌↔◌, ◌<◌, ◌⊎◌, refl, true, false, none, some, List, [], ◌∷◌, ◌++◌, arith, length, map,
}
use ligis.Wallet.Chars.{Text, codes, to_lower, trim, is_hex}
use ligis.Wallet.Types.{Value}
use ligis.Zk.Field.Defs.{field_modulus, to_field, field_hex, parse_field}
use ligis.Zk.Field.RoundTrip.{parse_field-field_hex, field_hex-parse_field}
use ligis.Zk.Label.Defs.{
  GateContext, context_prefix, canonical, gate_context_label, parse_gate_context_label,
}
use ligis.Zk.Label.RoundTrip.{
  parse_gate_context_label-gate_context_label, gate_context_label-parse_gate_context_label,
}
use ligis.Zk.Tree.Defs.{CredentialTree, build_levels, build, root, path, merkle_root}
use ligis.Zk.Tree.Nodes.{full_node}
use ligis.Zk.Tree.Root.{leaf_or, root-build}
use ligis.Zk.Tree.Path.{path-merkle_root}
use ligis.Zk.Circuit.Defs.{
  CredentialLeafInput, CircuitInputs, hash_pair, credential_leaf, build_inputs, main,
}
use ligis.Zk.Circuit.Complete.{objection}
use ligis.Zk.Circuit.Sound.{nth, main_sound}
use ligis.Zk.Credential.Defs.{Phase, ZkDeps, ZkCredentialResult}
use ligis.Zk.Credential.Evaluate.{evaluate_zk_credential, memory_nullifier_store}
use ligis.Zk.Credential.Bound.{is_go}
use ligis.Zk.Credential.Admitted.{Admitted, evaluate_zk_credential-go_iff}
use ligis.Zk.Credential.Once.{memory_nullifier_store-distinct}
use ligis.Zk.Credential.Parsed.{InField, is_failing, parse_zk_proof-evaluate_zk_credential}
use ligis.Zk.Registry.Holder.{IsHolder, build_registry_root-main}
use ligis.Zk.Registry.Witness.{witness_from_leaves-main}
use ligis.Zk.Registry.Keys.{lookup}
use ligis.Zk.Registry.Defs.{replay, issued_key}
use ligis.Zk.Registry.Replay.{history, lookup-replay}
use ligis.Zk.Fixture.Poseidon.{toy, toy_injective, toy_nonzero}
use ligis.Zk.Fixture.Published.{
  checksum, recover_signer, granted, events, registration, credential, leaves, tree, registry_root,
  root_built, inputs, proof_exists, witness_found, committed,
}
use ligis.Zk.Fixture.Presented.{zk, intent, deps, raw_proof, presented, proof_parsed, run}

abbrev toy_tree : CredentialTree ℕ
toy_tree = record {
  depth = 2;
  levels = build_levels (hash_pair toy) 2 0 ((0, 5) ∷ (1, 6) ∷ (2, 7) ∷ []);
}

toy_built : build (hash_pair toy) 0 (5 ∷ 6 ∷ 7 ∷ []) 2 ≡ some toy_tree
unfolding build
toy_built = refl

root-build_example : root 0 toy_tree ≡ full_node (hash_pair toy) (leaf_or 0 (5 ∷ 6 ∷ 7 ∷ [])) 2 0
root-build_example = root-build (hash_pair toy) 0 (5 ∷ 6 ∷ 7 ∷ []) 2 toy_tree toy_built

path-merkle_root_example :
    (p : List ℕ) × (path toy_tree 2 ≡ some p)
    × (length p ≡ 2)
    × (merkle_root (hash_pair toy) 7 2 p ≡ root 0 toy_tree)
path-merkle_root_example =
    path-merkle_root (hash_pair toy) 0 (5 ∷ 6 ∷ 7 ∷ []) 2 toy_tree 2 toy_built (omega arith)

build_registry_root-main_example : IsHolder toy checksum recover_signer events 100 inputs
build_registry_root-main_example =
    build_registry_root-main toy checksum recover_signer events (registration ∷ []) 100 1
      registry_root inputs toy_injective toy_nonzero root_built refl refl proof_exists

witness_from_leaves-main_example :
    (i : CircuitInputs) × (build_inputs toy tree 0 5 credential 77 900 ≡ some i)
    × (build (hash_pair toy) 0 leaves 1 ≡ some tree)
    × (i.registry_root ≡ root 0 tree)
    × (main toy 1 i ≡ objection 5 credential 900)
witness_from_leaves-main_example =
    witness_from_leaves-main toy leaves 1 credential tree 0 5 77 900 witness_found committed

credential_root :
    build (hash_pair toy) 0 (map (credential_leaf toy) (credential ∷ [])) 1 ≡ some tree
unfolding build
credential_root = refl

main_sound_example :
    (c : CredentialLeafInput) × (nth (credential ∷ []) 0 ≡ some c)
    × (c.commitment ≡ toy (5 ∷ []))
    × (c.payee_hash ≡ inputs.payee_hash)
    × (c.capability_hash ≡ inputs.capability_hash)
    × (200 < c.expires_at)
    × (inputs.nullifier ≡ toy (5 ∷ c.capability_hash ∷ 77 ∷ []))
main_sound_example =
    main_sound toy toy_injective toy_nonzero (credential ∷ []) 1 tree inputs credential_root refl
      refl proof_exists

memory_nullifier_store-distinct_example : is_go (run.0.phases 1) ≡ false
memory_nullifier_store-distinct_example =
    memory_nullifier_store-distinct checksum presented [] run.0 run.1 0 1 (omega arith) refl refl
      run.2

evaluate_zk_credential-go_iff_example :
    (is_go ((evaluate_zk_credential checksum memory_nullifier_store zk intent (some deps) []).0)
      ≡ true)
    ↔ ((d : ZkDeps) × (some deps ≡ some d)
        × Admitted checksum memory_nullifier_store zk intent d [])
evaluate_zk_credential-go_iff_example =
    evaluate_zk_credential-go_iff checksum memory_nullifier_store zk intent (some deps) []

parse_zk_proof-evaluate_zk_credential_example :
    InField zk.public_inputs
    × ((is_failing zk (some deps) ≡ true)
        ⊎ ((r : ZkCredentialResult) × ((evaluate_zk_credential checksum memory_nullifier_store zk
                intent
                (some deps)
                []).0
              ≡ Phase.answered r)))
parse_zk_proof-evaluate_zk_credential_example =
    parse_zk_proof-evaluate_zk_credential raw_proof zk checksum memory_nullifier_store intent
      (some deps) [] proof_parsed

parse_field-field_hex_example :
    (parse_field (Value.str (field_hex 4242)) ≡ some (to_field 4242))
    × (to_field 4242 < field_modulus)
parse_field-field_hex_example = parse_field-field_hex 4242

parsed_number : parse_field (Value.str (codes "0x1F")) ≡ some 31
unfolding parse_field is_hex
parsed_number = refl

field_hex-parse_field_example :
    (31 < field_modulus) × (parse_field (Value.str (field_hex 31)) ≡ some 31)
field_hex-parse_field_example = field_hex-parse_field (Value.str (codes "0x1F")) 31 parsed_number

-- A payee that is a decentralised identifier holds colons, so that its label does not parse.
abbrev agent_label : Text
agent_label = context_prefix ++ codes ":did:ligis:abc:pay:order-7"

agent_labelled :
    gate_context_label (codes " DID:ligis:ABC") (codes "pay") (codes "order-7") ≡ some agent_label
unfolding gate_context_label to_lower trim
agent_labelled = refl

parse_gate_context_label-gate_context_label_example : parse_gate_context_label agent_label ≡ none
unfolding to_lower trim
parse_gate_context_label-gate_context_label_example =
    parse_gate_context_label-gate_context_label (codes " DID:ligis:ABC") (codes "pay")
      (codes "order-7") agent_label agent_labelled

abbrev plain_label : Text
plain_label = context_prefix ++ codes ":zs1payee:pay:order-7"

abbrev plain_context : GateContext
plain_context = record {
  payee = codes "zs1payee";
  capability = codes "pay";
  nonce = codes "order-7";
}

plain_parsed : parse_gate_context_label plain_label ≡ some plain_context
unfolding parse_gate_context_label
plain_parsed = refl

plain_canonical : canonical plain_context.payee ≡ plain_context.payee
unfolding to_lower trim
plain_canonical = refl

gate_context_label-parse_gate_context_label_example :
    gate_context_label plain_context.payee plain_context.capability plain_context.nonce
    ≡ some plain_label
gate_context_label-parse_gate_context_label_example =
    gate_context_label-parse_gate_context_label plain_label plain_context plain_parsed refl
      plain_canonical

lookup-replay_example :
    lookup (issued_key (granted 1)) (replay [] events)
    ≡ history (issued_key (granted 1)) none events
lookup-replay_example = lookup-replay (issued_key (granted 1)) [] events

-- ===== src/Zk/Credential/Parsed.antt =====
-- What holds of a presentation that parses.
use ligis.Prelude.{
  ◌⊎◌, inl, inr, not, Bool-cases, ℕ, ◌<◌, ◌≡◌, refl, Bool, true, false, Option, none, some, arith,
  subst,
}
use ligis.Wallet.Chars.{Text, codes}
use ligis.Wallet.Types.{Value, Fields, get_field, ok}
use ligis.Wallet.Operation.Steps.{bind-ok, require-ok, ok-injective}
use ligis.Zk.Field.Defs.{field_modulus}
use ligis.Zk.Field.RoundTrip.{parse_field_lt}
use ligis.Zk.Label.Defs.{parse_gate_context_label}
use ligis.Zk.Credential.Defs.{
  MembershipPublicInputs, ZkProofInput, Intent, NullifierStore, ZkDeps, ZkCredentialResult,
  RootSource, Phase,
}
use ligis.Zk.Credential.Evaluate.{
  Checked, fresh, settled, check_binding, check_root, evaluate_zk_credential,
}
use ligis.Zk.Credential.Parse.{
  not_an_object, bad_proof, bad_context_label, no_public_inputs, fields_or, text_or, is_some,
  is_proof, parse_public_inputs, public_input, parse_zk_proof,
}

-- Every public input is a field element.
pub InField : MembershipPublicInputs → Type 0
InField p =
    (p.registry_root < field_modulus)
    × (p.payee_hash < field_modulus)
    × (p.capability_hash < field_modulus)
    × (p.context < field_modulus)
    × (p.current_time < field_modulus)
    × (p.nullifier < field_modulus)

public_input_lt :
    (fs : Fields) (key : Text) (n : ℕ) → public_input fs key ≡ ok n → n < field_modulus
public_input_lt fs key n h = ground (arith, h, parse_field_lt (get_field key fs) n)

parse_public_inputs-InField :
    (fs : Fields) (p : MembershipPublicInputs) → parse_public_inputs fs ≡ ok p → InField p
unfolding parse_public_inputs InField
parse_public_inputs-InField fs p h =
    let a = bind-ok (public_input fs (codes "registry_root")) _ p h in
    let b = bind-ok (public_input fs (codes "payee_hash")) _ p a.2 in
    let c = bind-ok (public_input fs (codes "capability_hash")) _ p b.2 in
    let d = bind-ok (public_input fs (codes "context")) _ p c.2 in
    let e = bind-ok (public_input fs (codes "current_time")) _ p d.2 in
    let f = bind-ok (public_input fs (codes "nullifier")) _ p e.2 in
    subst InField (ok-injective f.2) (
      public_input_lt fs (codes "registry_root") a.0 a.1,
      public_input_lt fs (codes "payee_hash") b.0 b.1,
      public_input_lt fs (codes "capability_hash") c.0 c.1,
      public_input_lt fs (codes "context") d.0 d.1,
      public_input_lt fs (codes "current_time") e.0 e.1,
      public_input_lt fs (codes "nullifier") f.0 f.1,
    )

parse_zk_proof-label :
    (raw : Value) (zk : ZkProofInput)
    → parse_zk_proof raw ≡ ok zk
    → InField zk.public_inputs × (is_some (parse_gate_context_label zk.context_label) ≡ true)
unfolding parse_zk_proof
parse_zk_proof-label raw zk h =
    let a = bind-ok (fields_or not_an_object raw) _ zk h in
    let b = bind-ok (text_or bad_proof (get_field (codes "proof") a.0)) _ zk a.2 in
    let c = require-ok (is_proof b.0) bad_proof _ zk b.2 in
    let d = bind-ok (text_or bad_context_label (get_field (codes "contextLabel") a.0)) _ zk c.1 in
    let e = require-ok (is_some (parse_gate_context_label d.0)) bad_context_label _ zk d.2 in
    let f = bind-ok (fields_or no_public_inputs (get_field (codes "publicInputs") a.0)) _ zk e.1 in
    let g = bind-ok (parse_public_inputs f.0) _ zk f.2 in
    let z = ok-injective g.2 in
    (
      subst (λ y. InField y.public_inputs) z (parse_public_inputs-InField f.0 g.0 g.1),
      subst (λ y. is_some (parse_gate_context_label y.context_label) ≡ true) z e.0,
    )

-- The verifier throws.
abbrev pub is_failing : ZkProofInput → Option ZkDeps → Bool
is_failing zk none = false
is_failing zk (some deps) = not (is_some (deps.verify zk.proof zk.public_inputs))

abbrev is_answered : Phase → Bool
is_answered (Phase.answered r) = true
is_answered _ = false

-- Checked with an answer, if settled.
abbrev has_answer : Checked → Bool
has_answer (fresh source) = true
has_answer (settled phase) = is_answered phase

module _ (keccak : Text → ℕ) (zk : ZkProofInput) (intent : Intent)
    (h : is_some (parse_gate_context_label zk.context_label) ≡ true) where
  binding-answer :
      (deps : ZkDeps) (now_s : ℕ) (source : RootSource) (c : Text)
      → has_answer (check_binding keccak zk intent deps now_s source c) ≡ true
  binding-answer deps now_s source c = ground (arith, h)

  root-answer : (deps : ZkDeps) → has_answer (check_root keccak zk intent deps) ≡ true
  root-answer deps = grind (arith, binding-answer)

  evaluate-answer :
      {S : Type 0} (nullifiers : NullifierStore S) (deps : Option ZkDeps) (s : S)
      → is_failing zk deps ≡ false
      → is_answered ((evaluate_zk_credential keccak nullifiers zk intent deps s).0) ≡ true
  unfolding evaluate_zk_credential
  evaluate-answer nullifiers none s v = refl
  evaluate-answer nullifiers (some deps) s v = ground (arith, v, root-answer deps)

answered-phase :
    (p : Phase) → is_answered p ≡ true → (r : ZkCredentialResult) × (p ≡ Phase.answered r)
answered-phase (Phase.answered r) h = (r, refl)
answered-phase _ h = ground (arith, h)

-- A request field that parses has field elements for its public inputs; and whatever the intent, the
-- configuration and the store, its evaluation comes to an answer, unless the verifier throws on it.
pub parse_zk_proof-evaluate_zk_credential :
    {S : Type 0} (raw : Value) (zk : ZkProofInput) (keccak : Text → ℕ)
    (nullifiers : NullifierStore S) (intent : Intent) (deps : Option ZkDeps) (s : S)
    → parse_zk_proof raw ≡ ok zk
    → InField zk.public_inputs
      × ((is_failing zk deps ≡ true)
          ⊎ ((r : ZkCredentialResult) × ((evaluate_zk_credential keccak nullifiers zk intent deps
                  s).0
                ≡ Phase.answered r)))
parse_zk_proof-evaluate_zk_credential raw zk keccak nullifiers intent deps s h =
    let p = parse_zk_proof-label raw zk h in
    (
      p.0,
      elim (Bool-cases (is_failing zk deps)) [
        | inl e ↦ inl e
        | inr e ↦ inr (answered-phase _ (evaluate-answer keccak zk intent p.1 nullifiers deps s e))
      ],
    )

-- ===== src/Zk/Credential/Evaluate.antt =====
-- The evaluation, step by step, and `MemoryNullifierStore`.
use ligis.Prelude.{
  ℕ, ◌+◌, ◌/◌, Bool, true, false, not, ◌&&◌, ◌||◌, Option, none, some, List, ◌∷◌, ◌++◌, ltb, ◌==◌,
  if◌then◌else◌, any,
}
use ligis.Wallet.Chars.{Text, text_eq}
use ligis.Wallet.Types.{go}
use ligis.Zk.Field.Defs.{field_hex}
use ligis.Zk.Label.Defs.{canonical, parse_gate_context_label}
use ligis.Zk.Credential.Defs.{
  ZkProofInput, Intent, VerifyOutcome, NullifierClaim, NullifierStore, ZkDeps, Reason, Verification,
  RootSource, Phase, result, stopped, unsure, Trust, trust, capability_field, payee_field,
  context_field, has_published, no_roots, is_empty, default_age,
}

-- `ctxKey` and the nullifier as text.
abbrev pub context_key : ZkProofInput → Text
context_key zk = field_hex zk.public_inputs.context

abbrev pub nullifier_key : ZkProofInput → Text
nullifier_key zk = field_hex zk.public_inputs.nullifier

-- What is learned before the first await.
pub data Checked : Type 0 where
  fresh : RootSource → Checked
  settled : Phase → Checked

module _ (keccak : Text → ℕ) (zk : ZkProofInput) (intent : Intent) where
  abbrev pub check_freshness : ZkDeps → ℕ → RootSource → Checked
  check_freshness deps now_s source =
      if ltb (now_s + 60) zk.public_inputs.current_time
      then settled (stopped zk Reason.from_future (some source))
      else if ltb (zk.public_inputs.current_time + default_age 600 deps.max_proof_age) now_s
      then settled (stopped zk Reason.too_old (some source))
      else fresh source

  abbrev pub check_binding : ZkDeps → ℕ → RootSource → Text → Checked
  check_binding deps now_s source capability =
      if not (zk.public_inputs.capability_hash == capability_field keccak capability)
      then settled (stopped zk Reason.wrong_capability (some source))
      else if not (zk.public_inputs.payee_hash == payee_field keccak intent.payee)
      then settled (stopped zk Reason.wrong_payee (some source))
      else elim (parse_gate_context_label zk.context_label) [
        | none ↦ settled Phase.thrown
        | some label ↦
            if not (text_eq label.payee (canonical intent.payee))
              || (not
                    (capability_field keccak label.capability == capability_field keccak capability)
                  || not (context_field keccak zk.context_label == zk.public_inputs.context))
            then settled (stopped zk Reason.unbound_context (some source))
            else check_freshness deps now_s source
      ]

  -- An empty text is no capability.
  abbrev pub check_capability : ZkDeps → ℕ → RootSource → Checked
  check_capability deps now_s source = elim intent.capability [
    | none ↦ settled (unsure zk Reason.no_capability (some source))
    | some capability ↦
        if is_empty capability
        then settled (unsure zk Reason.no_capability (some source))
        else check_binding deps now_s source capability
  ]

  abbrev pub check_root : ZkDeps → Checked
  check_root deps =
      if is_empty deps.trusted_roots && not (has_published deps.root_manifest)
      then settled (unsure zk (no_roots deps.root_manifest) none)
      else elim (trust deps (deps.now / 1000) zk.public_inputs.registry_root) [
        | Trust.trusted source ↦ check_capability deps (deps.now / 1000) source
        | Trust.stale ↦ settled (unsure zk Reason.stale_root none)
        | Trust.untrusted ↦ settled (stopped zk Reason.untrusted_root none)
      ]

  -- The checks, and what `seen` says.
  unfoldable pub begin : {S : Type 0} → NullifierStore S → ZkDeps → S → Phase
  unfolding capability_field payee_field context_field trust
  begin nullifiers deps s = elim (check_root deps) [
    | settled phase ↦ phase
    | fresh source ↦ elim (nullifiers.seen s (context_key zk) (nullifier_key zk)) [
      | none ↦ unsure zk Reason.store_unavailable (some source)
      | some true ↦ stopped zk Reason.replay (some source)
      | some false ↦ Phase.unseen source
    ]
  ]

-- What the verifier says, or throws.
unfoldable pub check_proof : ZkProofInput → ZkDeps → RootSource → Phase
check_proof zk deps source = elim (deps.verify zk.proof zk.public_inputs) [
  | none ↦ Phase.thrown
  | some VerifyOutcome.unavailable ↦ unsure zk Reason.not_verified (some source)
  | some VerifyOutcome.invalid ↦ stopped zk Reason.invalid_proof (some source)
  | some VerifyOutcome.verified ↦ Phase.proved source
]

abbrev pub answer_claim : ZkProofInput → RootSource → NullifierClaim → Phase
answer_claim zk source NullifierClaim.replayed = stopped zk Reason.replay (some source)
answer_claim zk source NullifierClaim.unavailable = unsure zk Reason.not_recorded (some source)
answer_claim zk source NullifierClaim.claimed =
    Phase.answered (result zk go Verification.verified Reason.proven (some source))

-- The claim, with the store afterwards.
unfoldable pub record_nullifier :
    {S : Type 0} → NullifierStore S → ZkProofInput → RootSource → S → Phase × S
record_nullifier nullifiers zk source s =
    let c = nullifiers.claim s (context_key zk) (nullifier_key zk) in
    (answer_claim zk source c.0, c.1)

abbrev after_proof : {S : Type 0} → NullifierStore S → ZkProofInput → S → Phase → Phase × S
after_proof nullifiers zk s (Phase.proved source) = record_nullifier nullifiers zk source s
after_proof nullifiers zk s phase = (phase, s)

abbrev after_begin : {S : Type 0} → NullifierStore S → ZkProofInput → ZkDeps → S → Phase → Phase × S
after_begin nullifiers zk deps s (Phase.unseen source) =
    after_proof nullifiers zk s (check_proof zk deps source)
after_begin nullifiers zk deps s phase = (phase, s)

-- The whole evaluation, where nothing else touches the store meanwhile.
unfoldable pub evaluate_zk_credential :
    {S : Type 0}
    → (Text → ℕ)
    → NullifierStore S
    → ZkProofInput
    → Intent
    → Option ZkDeps
    → S
    → Phase × S
unfolding begin check_proof record_nullifier
evaluate_zk_credential keccak nullifiers zk intent none s =
    (unsure zk Reason.not_configured none, s)
evaluate_zk_credential keccak nullifiers zk intent (some deps) s =
    after_begin nullifiers zk deps s (begin keccak zk intent nullifiers deps s)

-- `MemoryNullifierStore`: the keys in use.
abbrev pub store_key : Text → Text → Text
store_key context nullifier = context ++ (b':' ∷ nullifier)

abbrev pub has : List Text → Text → Bool
has used key = any (λ k. text_eq k key) used

unfoldable pub memory_nullifier_store : NullifierStore (List Text)
memory_nullifier_store = record {
  seen = λ used context nullifier. some (has used (store_key context nullifier));
  claim = λ used context nullifier.
      if has used (store_key context nullifier)
      then (NullifierClaim.replayed, used)
      else (NullifierClaim.claimed, store_key context nullifier ∷ used);
}

-- ===== src/Zk/Credential/Admitted.antt =====
-- Which presentations are accepted.
use ligis.Prelude.{
  ℕ, ◌≡◌, ◌↔◌, inl, inr, refl, sym, true, false, Option, none, some, subst, some-injective, arith,
}
use ligis.Wallet.Chars.{Text}
use ligis.Zk.Credential.Defs.{
  ZkProofInput, Intent, VerifyOutcome, NullifierClaim, NullifierStore, ZkDeps, RootSource,
}
use ligis.Zk.Credential.Evaluate.{context_key, nullifier_key, check_root, evaluate_zk_credential}
use ligis.Zk.Credential.Bound.{is_go, Bound, Checked-cases, root-settled, root-fresh, Bound-fresh}

-- What holds of a presentation that is accepted.
pub Admitted :
    {S : Type 0} → (Text → ℕ) → NullifierStore S → ZkProofInput → Intent → ZkDeps → S → Type 0
Admitted keccak nullifiers zk intent deps s =
    (source : RootSource) × Bound keccak zk intent deps source
    × (nullifiers.seen s (context_key zk) (nullifier_key zk) ≡ some false)
    × (deps.verify zk.proof zk.public_inputs ≡ some VerifyOutcome.verified)
    × ((nullifiers.claim s (context_key zk) (nullifier_key zk)).0 ≡ NullifierClaim.claimed)

module _ {S : Type 0} (keccak : Text → ℕ) (nullifiers : NullifierStore S) (zk : ZkProofInput)
    (intent : Intent) where
  accepted-Admitted :
      (deps : ZkDeps) (s : S)
      → is_go ((evaluate_zk_credential keccak nullifiers zk intent (some deps) s).0) ≡ true
      → Admitted keccak nullifiers zk intent deps s
  unfolding evaluate_zk_credential Admitted
  accepted-Admitted deps s h = elim (Checked-cases (check_root keccak zk intent deps)) [
    | inl (source, e) ↦ (
      source,
      root-fresh keccak zk intent deps source e,
      ground (arith, h, e),
      ground (arith, h, e),
      ground (arith, h, e),
    )
    | inr (phase, e) ↦ ground (arith, h, e, root-settled keccak zk intent deps)
  ]

  Admitted-accepted :
      (deps : ZkDeps) (s : S)
      → Admitted keccak nullifiers zk intent deps s
      → is_go ((evaluate_zk_credential keccak nullifiers zk intent (some deps) s).0) ≡ true
  unfolding evaluate_zk_credential Admitted
  Admitted-accepted deps s (source, b, seen, proof, claim) =
      ground (arith, Bound-fresh keccak zk intent deps source b, seen, proof, claim)

  -- The answer is GO exactly where the gate is configured, the root is trusted, by pin or by a fresh
  -- manifest, the proof's capability and payee are the intent's, the label parses and names them,
  -- the label is the proof's context, the proof's time is not more than a minute ahead nor older
  -- than the maximal age, the nullifier is not seen, the verifier accepts and the claim succeeds.
  pub evaluate_zk_credential-go_iff :
      (deps : Option ZkDeps) (s : S)
      → (is_go ((evaluate_zk_credential keccak nullifiers zk intent deps s).0) ≡ true)
        ↔ ((d : ZkDeps) × (deps ≡ some d) × Admitted keccak nullifiers zk intent d s)
  unfolding evaluate_zk_credential
  evaluate_zk_credential-go_iff none s = ((λ h. ground (arith, h)), (λ x. ground (arith, x.1)))
  evaluate_zk_credential-go_iff (some d) s = (
    (λ h. (d, refl, accepted-Admitted d s h)),
    (λ x. Admitted-accepted d s (
        subst (λ y. Admitted keccak nullifiers zk intent y s) (sym (some-injective d x.0 x.1))
          x.2)),
  )

-- ===== src/Zk/Credential/Bound.antt =====
-- Which presentations pass the checks before the first await.
use ligis.Prelude.{
  ℕ, ◌+◌, ◌/◌, ◌≤◌, ◌≡◌, ◌⊎◌, inl, inr, refl, ap, ◌∙◌, Bool, true, false, not, ◌&&◌, some, arith,
  Option-cases, Bool-cases, any, ◌==◌,
}
use ligis.Wallet.Chars.{Text, text_eq}
use ligis.Wallet.Types.{go}
use ligis.Zk.Label.Defs.{canonical, GateContext, parse_gate_context_label}
use ligis.Zk.Credential.Defs.{
  ZkProofInput, Intent, ZkDeps, RootManifest, absent, unusable, published, RootSource, pinned,
  manifest, Phase, Trust, trust, capability_field, payee_field, context_field, default_age,
  is_empty, has_published,
}
use ligis.Zk.Credential.Evaluate.{
  Checked, fresh, settled, check_freshness, check_binding, check_capability, check_root,
}

abbrev pub is_go : Phase → Bool
is_go (Phase.answered r) = elim r.status [ go ↦ true | _ ↦ false ]
is_go _ = false

-- The root is one of the configured ones; or it is none of them but the published one, in a manifest
-- that is not older than the maximal age.
pub IsTrustedRoot : ZkDeps → ℕ → ℕ → RootSource → Type 0
IsTrustedRoot deps now_s root source =
    ((source ≡ pinned) × (any (λ r. r == root) deps.trusted_roots ≡ true))
    ⊎ ((source ≡ manifest)
        × (any (λ r. r == root) deps.trusted_roots ≡ false)
        × ((as_of : ℕ) × (leaf_count : ℕ) × (deps.root_manifest ≡ published root as_of leaf_count)
            × (now_s ≤ as_of + default_age 86400 deps.max_root_age)))

RootManifest-cases :
    (m : RootManifest)
    → ((m ≡ absent) ⊎ (m ≡ unusable))
      ⊎ ((r : ℕ) × (as_of : ℕ) × (leaf_count : ℕ) × (m ≡ published r as_of leaf_count))
RootManifest-cases absent = inl (inl refl)
RootManifest-cases unusable = inl (inr refl)
RootManifest-cases (published r as_of leaf_count) = inr (r, as_of, leaf_count, refl)

trust-IsTrustedRoot :
    (deps : ZkDeps) (now_s root : ℕ) (source : RootSource)
    → trust deps now_s root ≡ Trust.trusted source
    → IsTrustedRoot deps now_s root source
unfolding trust IsTrustedRoot
trust-IsTrustedRoot deps now_s root source h =
    elim (Bool-cases (any (λ r. r == root) deps.trusted_roots)) [
      | inl e ↦ inl (ground (arith, h, e), e)
      | inr e ↦ elim (RootManifest-cases deps.root_manifest) [
        | inl m ↦ ground (arith, h, e, m)
        | inr (r, as_of, leaf_count, m) ↦ inr (
          ground (arith, h, e, m),
          e,
          (as_of, leaf_count, ground (arith, h, e, m), ground (arith, h, e, m)),
        )
      ]
    ]

IsTrustedRoot-trust :
    (deps : ZkDeps) (now_s root : ℕ) (source : RootSource)
    → IsTrustedRoot deps now_s root source
    → trust deps now_s root ≡ Trust.trusted source
unfolding trust IsTrustedRoot
IsTrustedRoot-trust deps now_s root source (inl (s, e)) = ground (arith, s, e)
IsTrustedRoot-trust deps now_s root source (inr (s, e, (as_of, leaf_count, m, late))) =
    ground (arith, s, e, m, late)

-- What holds of a presentation before the store and the verifier are asked.
pub Bound : (Text → ℕ) → ZkProofInput → Intent → ZkDeps → RootSource → Type 0
Bound keccak zk intent deps source =
    (capability : Text) × (label : GateContext) × IsTrustedRoot deps (deps.now / 1000)
      zk.public_inputs.registry_root source
    × (intent.capability ≡ some capability)
    × (is_empty capability ≡ false)
    × (zk.public_inputs.capability_hash ≡ capability_field keccak capability)
    × (zk.public_inputs.payee_hash ≡ payee_field keccak intent.payee)
    × (parse_gate_context_label zk.context_label ≡ some label)
    × (text_eq label.payee (canonical intent.payee) ≡ true)
    × (capability_field keccak label.capability ≡ capability_field keccak capability)
    × (context_field keccak zk.context_label ≡ zk.public_inputs.context)
    × (zk.public_inputs.current_time ≤ deps.now / 1000 + 60)
    × (deps.now / 1000 ≤ zk.public_inputs.current_time + default_age 600 deps.max_proof_age)

abbrev phase_of : Checked → Phase
phase_of (fresh source) = Phase.waiting
phase_of (settled phase) = phase

trust-has_roots :
    (deps : ZkDeps) (now_s root : ℕ) (source : RootSource)
    → trust deps now_s root ≡ Trust.trusted source
    → is_empty deps.trusted_roots && not (has_published deps.root_manifest) ≡ false
unfolding trust
trust-has_roots deps now_s root source h = ground arith

Trust-cases :
    (t : Trust)
    → ((source : RootSource) × (t ≡ Trust.trusted source))
      ⊎ ((t ≡ Trust.stale) ⊎ (t ≡ Trust.untrusted))
Trust-cases (Trust.trusted source) = inl (source, refl)
Trust-cases Trust.stale = inr (inl refl)
Trust-cases Trust.untrusted = inr (inr refl)

pub Checked-cases :
    (c : Checked)
    → ((source : RootSource) × (c ≡ fresh source)) ⊎ ((phase : Phase) × (c ≡ settled phase))
Checked-cases (fresh source) = inl (source, refl)
Checked-cases (settled phase) = inr (phase, refl)

module _ (keccak : Text → ℕ) (zk : ZkProofInput) (intent : Intent) (deps : ZkDeps) where
  freshness-settled :
      (now_s : ℕ) (source : RootSource)
      → is_go (phase_of (check_freshness keccak zk intent deps now_s source)) ≡ false
  freshness-settled now_s source = ground arith

  binding-settled :
      (now_s : ℕ) (source : RootSource) (c : Text)
      → is_go (phase_of (check_binding keccak zk intent deps now_s source c)) ≡ false
  binding-settled now_s source c = ground (arith, freshness-settled now_s source)

  capability-settled :
      (now_s : ℕ) (source : RootSource)
      → is_go (phase_of (check_capability keccak zk intent deps now_s source)) ≡ false
  capability-settled now_s source = ground (arith, binding-settled now_s source)

  pub root-settled : is_go (phase_of (check_root keccak zk intent deps)) ≡ false
  root-settled = grind (arith, capability-settled)

  freshness-fresh :
      (now_s : ℕ) (source source' : RootSource)
      → check_freshness keccak zk intent deps now_s source ≡ fresh source'
      → (source ≡ source')
        × (zk.public_inputs.current_time ≤ now_s + 60)
        × (now_s ≤ zk.public_inputs.current_time + default_age 600 deps.max_proof_age)
  freshness-fresh now_s source source' h = ground arith

  binding-fresh :
      (now_s : ℕ) (source source' : RootSource) (c : Text) (label : GateContext)
      → parse_gate_context_label zk.context_label ≡ some label
      → check_binding keccak zk intent deps now_s source c ≡ fresh source'
      → (zk.public_inputs.capability_hash ≡ capability_field keccak c)
        × (zk.public_inputs.payee_hash ≡ payee_field keccak intent.payee)
        × (text_eq label.payee (canonical intent.payee) ≡ true)
        × (capability_field keccak label.capability ≡ capability_field keccak c)
        × (context_field keccak zk.context_label ≡ zk.public_inputs.context)
        × (check_freshness keccak zk intent deps now_s source ≡ fresh source')
  binding-fresh now_s source source' c label e h = ground arith

  binding-label :
      (now_s : ℕ) (source source' : RootSource) (c : Text)
      → check_binding keccak zk intent deps now_s source c ≡ fresh source'
      → (label : GateContext) × (parse_gate_context_label zk.context_label ≡ some label)
  binding-label now_s source source' c h =
      elim (Option-cases (parse_gate_context_label zk.context_label)) [
        | inl e ↦ ground (arith, h, e)
        | inr l ↦ l
      ]

  root-binding :
      (source : RootSource)
      → check_root keccak zk intent deps ≡ fresh source
      → (capability : Text) × (source' : RootSource) × (trust deps
            (deps.now / 1000)
            zk.public_inputs.registry_root
          ≡ Trust.trusted source')
        × (intent.capability ≡ some capability)
        × (is_empty capability ≡ false)
        × (check_binding keccak zk intent deps (deps.now / 1000) source' capability ≡ fresh source)
  root-binding source h =
      elim (Trust-cases (trust deps (deps.now / 1000) zk.public_inputs.registry_root)) [
        | inl (source', t) ↦ elim (Option-cases intent.capability) [
          | inl e ↦ ground (arith, h, t, e)
          | inr (capability, e) ↦
              (capability, source', t, e, ground (arith, h, t, e), ground (arith, h, t, e))
        ]
        | inr f ↦ ground (arith, h, f)
      ]

  pub root-fresh :
      (source : RootSource)
      → check_root keccak zk intent deps ≡ fresh source
      → Bound keccak zk intent deps source
  unfolding Bound
  root-fresh source h =
      let r = root-binding source h in
      let l = binding-label (deps.now / 1000) r.1 source r.0 r.5 in
      let b = binding-fresh (deps.now / 1000) r.1 source r.0 l.0 l.1 r.5 in
      let f = freshness-fresh (deps.now / 1000) r.1 source b.5 in
      (
        r.0,
        l.0,
        trust-IsTrustedRoot deps (deps.now / 1000) zk.public_inputs.registry_root source
            (r.2 ∙ ap Trust.trusted f.0),
        r.3,
        r.4,
        b.0,
        b.1,
        l.1,
        b.2,
        b.3,
        b.4,
        f.1,
        f.2,
      )

  pub Bound-fresh :
      (source : RootSource)
      → Bound keccak zk intent deps source
      → check_root keccak zk intent deps ≡ fresh source
  unfolding Bound
  Bound-fresh source (c, label, trusted, h1, h2, h3, h4, h5, h6, h7, h8, h9, h10) =
      let t =
        IsTrustedRoot-trust deps (deps.now / 1000) zk.public_inputs.registry_root source trusted in
      ground (arith, trust-has_roots deps (deps.now / 1000) zk.public_inputs.registry_root source t)

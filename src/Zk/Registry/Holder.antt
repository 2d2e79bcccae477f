-- ===== src/Zk/Registry/Holder.antt =====
-- From the events and registrations to what a proof against the published root says.
use ligis.Prelude.{
  ℕ, ◌<◌, ◌≡◌, ◌≢◌, inl, inr, sym, ap, subst, ◌∙◌, true, false, Option, none, some, List, [], ◌∷◌,
  map, length, arith, Option-cases,
}
use ligis.Wallet.Chars.{Text, to_lower}
use ligis.Zk.Tree.Defs.{build, root}
use ligis.Zk.Circuit.Defs.{CircuitInputs, hash_pair, credential_leaf, main}
use ligis.Zk.Circuit.Sound.{nth, main_sound}
use ligis.Zk.Credential.Defs.{capability_field, payee_field}
use ligis.Zk.Registry.Keys.{Key, entries, nth_entry}
use ligis.Zk.Registry.Defs.{
  Issued, RegistryEvent, SubjectRegistration, Credential, sort_events, replay, is_registered,
  verify_registrations, commitment_field, Collected,
}
use ligis.Zk.Registry.Build.{
  leaf_input, collect, RegistryRoot, nothing_collected, build_registry_root,
}
use ligis.Zk.Registry.Replay.{IsLive, history-unrevoked, lookup-replay, replay-Distinct}
use ligis.Zk.Registry.Admission.{collect-leaf, registration-valid}

live :
    (es : List RegistryEvent) (j : ℕ) (c : Credential)
    → nth (entries (replay [] es)) j ≡ some c
    → c.is_revoked ≡ false
    → (k : Key) × IsLive es k c.event
live es j c h u =
    let d = nth_entry (replay [] es) j c (replay-Distinct [] es tt) h in
    elim (history-unrevoked d.0 none es c (sym (lookup-replay d.0 [] es) ∙ d.1) u) [
      | inl n ↦ ground (arith, n.0)
      | inr l ↦ (d.0, l)
    ]

published :
    (poseidon : List ℕ → ℕ) (keccak : Text → ℕ) (recover : Text → Text → Option Text)
    (events : List RegistryEvent) (registrations : List SubjectRegistration) (as_of depth : ℕ)
    (r : RegistryRoot)
    → build_registry_root poseidon keccak recover events registrations as_of depth ≡ some r
    → (st : Collected) × (collect keccak
          ((verify_registrations recover registrations [] 0).0)
          as_of
          (entries (replay [] (sort_events events)))
          (nothing_collected ((verify_registrations recover registrations [] 0).1))
        ≡ some st)
      × (build (hash_pair poseidon) 0 (map (credential_leaf poseidon) st.leaves) depth
          ≡ some r.tree)
      × (r.root ≡ root 0 r.tree)
unfolding build_registry_root
published poseidon keccak recover events registrations as_of depth r h =
    elim (Option-cases (
      collect keccak ((verify_registrations recover registrations [] 0).0) as_of
        (entries (replay [] (sort_events events)))
        (nothing_collected ((verify_registrations recover registrations [] 0).1)))) [
          | inl e ↦ ground (arith, h, e)
          | inr (st, e) ↦
              elim (Option-cases
                (build (hash_pair poseidon) 0 (map (credential_leaf poseidon) st.leaves) depth)) [
                  | inl f ↦ ground (arith, h, e, f)
                  | inr (t, f) ↦ (st, e, ground (arith, h, e, f), ground (arith, h, e, f))
                ]
        ]

-- What a proof says of the one who made it: there is an event that issued the credential.
pub record IsHolder (poseidon : List ℕ → ℕ) (keccak : Text → ℕ)
    (recover : Text → Text → Option Text) (events : List RegistryEvent) (as_of : ℕ)
    (i : CircuitInputs) : Type 0 where
  pub event : Issued
  pub registration : SubjectRegistration
  pub key : Key
  pub live : IsLive (sort_events events) key event
  pub unexpired : as_of < event.expires_at
  pub current : i.current_time < event.expires_at
  pub signed : is_registered recover registration ≡ true
  pub subject : to_lower registration.subject ≡ to_lower event.subject
  pub committed : commitment_field registration.commitment ≡ poseidon (i.identity_secret ∷ [])
  pub payee : i.payee_hash ≡ payee_field keccak registration.zcash_address
  pub capability : i.capability_hash ≡ capability_field keccak event.capability_hash

-- Where Poseidon has no collisions and is never zero: a proof against a published root exists only
-- for the secret that a registration commits to, signed by a subject and naming the proof's payee,
-- where an event issued that subject a credential for the proof's capability, no later event issued
-- it again or revoked it in the issuer's name, and it expires after both the root's time and the
-- proof's.
pub build_registry_root-main :
    (poseidon : List ℕ → ℕ) (keccak : Text → ℕ) (recover : Text → Text → Option Text)
    (events : List RegistryEvent) (registrations : List SubjectRegistration) (as_of depth : ℕ)
    (r : RegistryRoot) (i : CircuitInputs)
    → ((xs ys : List ℕ) → poseidon xs ≡ poseidon ys → xs ≡ ys)
    → ((xs : List ℕ) → poseidon xs ≢ 0)
    → build_registry_root poseidon keccak recover events registrations as_of depth ≡ some r
    → i.registry_root ≡ r.root
    → length i.merkle_path ≡ depth
    → main poseidon depth i ≡ none
    → IsHolder poseidon keccak recover events as_of i
unfolding leaf_input
build_registry_root-main poseidon keccak recover events registrations as_of depth r i inj pos h e
      len m =
    let p = published poseidon keccak recover events registrations as_of depth r h in
    let s = main_sound poseidon inj pos (p.0).leaves depth r.tree i p.2 (e ∙ p.3) len m in
    elim (collect-leaf keccak _ as_of _ _ p.0 i.leaf_index s.0 p.1 s.1) [
      | inl none_yet ↦ ground (arith, none_yet)
      | inr (j, c, g, a) ↦
          let l = live (sort_events events) j c g a.unrevoked in
          let v =
            registration-valid recover registrations (to_lower c.event.subject) a.reg
              a.registered in
          record {
            event = c.event;
            registration = a.reg;
            key = l.0;
            live = l.1;
            unexpired = a.unexpired;
            current = subst (λ x. i.current_time < x.expires_at) a.leaf s.5;
            signed = v.0;
            subject = v.1;
            committed = ap (λ x. x.commitment) (sym a.leaf) ∙ s.2;
            payee = sym s.3 ∙ ap (λ x. x.payee_hash) a.leaf;
            capability = sym s.4 ∙ ap (λ x. x.capability_hash) a.leaf;
          }
    ]

-- ===== src/Zk/Registry/Admission.antt =====
-- Which credentials become leaves, and which registrations count.
use ligis.Prelude.{
  ℕ, zero, suc, ◌<◌, ◌≡◌, ◌⊎◌, inl, inr, refl, subst, true, false, ◌||◌, Option, some, List, [],
  ◌∷◌, ◌++◌, leb, arith, Bool-cases, Option-cases,
}
use ligis.Wallet.Chars.{Text, text_eq, to_lower, text_eq_sound}
use ligis.Zk.Circuit.Defs.{CredentialLeafInput}
use ligis.Zk.Circuit.Sound.{nth}
use ligis.Zk.Registry.Defs.{
  SubjectRegistration, Credential, registration_of, set_registration, is_registered,
  verify_registrations, issuer_field, Collected,
}
use ligis.Zk.Registry.Build.{leaf_input, admit, collect}

-- Every registration kept is valid and under its subject.
module _ (recover : Text → Text → Option Text) where
  abbrev AllValid : List (Text × SubjectRegistration) → Type 0
  AllValid [] = Unit
  AllValid ((s, r) ∷ t) = ((is_registered recover r ≡ true) × (s ≡ to_lower r.subject)) × AllValid t

  set_registration-AllValid :
      (s : Text) (r : SubjectRegistration) (t : List (Text × SubjectRegistration))
      → is_registered recover r ≡ true
      → s ≡ to_lower r.subject
      → AllValid t
      → AllValid (set_registration s r t)
  set_registration-AllValid s r [] h k a = ((h, k), tt)
  set_registration-AllValid s r ((j, q) ∷ t) h k a = elim (Bool-cases (text_eq s j)) [
    | inl e ↦ ground (arith, e, h, k, a, text_eq_sound s j e)
    | inr e ↦ ground (arith, e, a, set_registration-AllValid s r t h k (a.1))
  ]

  verify_registrations-AllValid :
      (rs : List SubjectRegistration) (t : List (Text × SubjectRegistration)) (bad : ℕ)
      → AllValid t
      → AllValid ((verify_registrations recover rs t bad).0)
  unfolding verify_registrations
  verify_registrations-AllValid [] t bad a = a
  verify_registrations-AllValid (r ∷ rs) t bad a =
      verify_registrations-AllValid rs _ _ (elim (Bool-cases (is_registered recover r)) [
        | inl h ↦ ground (arith, h, a, set_registration-AllValid (to_lower r.subject) r t h refl a)
        | inr h ↦ ground (arith, h, a)
      ])

  AllValid-registration_of :
      (s : Text) (t : List (Text × SubjectRegistration)) (r : SubjectRegistration)
      → AllValid t
      → registration_of s t ≡ some r
      → (is_registered recover r ≡ true) × (to_lower r.subject ≡ s)
  AllValid-registration_of s [] r a h = ground (arith, h)
  AllValid-registration_of s ((k, q) ∷ t) r a h = elim (Bool-cases (text_eq s k)) [
    | inl e ↦ ground (arith, e, a, h, text_eq_sound s k e)
    | inr e ↦ AllValid-registration_of s t r (a.1) (ground (arith, e, h))
  ]

  pub registration-valid :
      (rs : List SubjectRegistration) (s : Text) (r : SubjectRegistration)
      → registration_of s ((verify_registrations recover rs [] 0).0) ≡ some r
      → (is_registered recover r ≡ true) × (to_lower r.subject ≡ s)
  registration-valid rs s r h =
      AllValid-registration_of s _ r (verify_registrations-AllValid rs [] 0 tt) h

module _ (keccak : Text → ℕ) (by_subject : List (Text × SubjectRegistration)) (as_of : ℕ) where
  -- The leaf is of this credential, which may be admitted.
  pub record IsAdmitted (c : Credential) (l : CredentialLeafInput) : Type 0 where
    pub reg : SubjectRegistration
    pub issuer : ℕ
    pub unrevoked : c.is_revoked ≡ false
    pub unexpired : as_of < c.event.expires_at
    pub registered : registration_of (to_lower c.event.subject) by_subject ≡ some reg
    pub issued : issuer_field c.event.issuer ≡ some issuer
    pub leaf : l ≡ leaf_input keccak c reg issuer

  nth-snoc :
      {A : Type 0} (xs : List A) (x : A) (i : ℕ) (y : A)
      → nth (xs ++ (x ∷ [])) i ≡ some y
      → (nth xs i ≡ some y) ⊎ (y ≡ x)
  nth-snoc [] x zero y h = inr (ground (arith, h))
  nth-snoc [] x (suc i) y h = ground (arith, h)
  nth-snoc (z ∷ xs) x zero y h = inl h
  nth-snoc (z ∷ xs) x (suc i) y h = nth-snoc xs x i y h

  admit-cases :
      (c : Credential) (st st' : Collected)
      → admit keccak by_subject as_of c st ≡ some st'
      → (st'.leaves ≡ st.leaves)
        ⊎ ((reg : SubjectRegistration) × (issuer : ℕ) × (c.is_revoked ≡ false)
            × (as_of < c.event.expires_at)
            × (registration_of (to_lower c.event.subject) by_subject ≡ some reg)
            × (issuer_field c.event.issuer ≡ some issuer)
            × (st'.leaves ≡ st.leaves ++ (leaf_input keccak c reg issuer ∷ [])))
  unfolding admit
  admit-cases c st st' h = elim (Bool-cases (c.is_revoked || leb c.event.expires_at as_of)) [
    | inl out ↦ inl (ground (arith, h, out))
    | inr in_time ↦ elim (Option-cases (registration_of (to_lower c.event.subject) by_subject)) [
      | inl e ↦ inl (ground (arith, h, in_time, e))
      | inr (reg, r) ↦ elim (Option-cases (issuer_field c.event.issuer)) [
        | inl f ↦ inl (ground (arith, h, in_time, r, f))
        | inr (issuer, f) ↦ inr (
          reg,
          issuer,
          ground (arith, in_time),
          ground (arith, in_time),
          r,
          f,
          ground (arith, h, in_time, r, f),
        )
      ]
    ]
  ]

  admit-leaf :
      (c : Credential) (st st' : Collected) (i : ℕ) (l : CredentialLeafInput)
      → admit keccak by_subject as_of c st ≡ some st'
      → nth st'.leaves i ≡ some l
      → (nth st.leaves i ≡ some l) ⊎ IsAdmitted c l
  unfolding admit
  admit-leaf c st st' i l h n = elim (admit-cases c st st' h) [
    | inl e ↦ inl (ground (arith, n, e))
    | inr (reg, issuer, u, x, r, f, e) ↦
        elim (nth-snoc st.leaves (leaf_input keccak c reg issuer) i l
          (subst (λ ls. nth ls i ≡ some l) e n)) [
            | inl old ↦ inl old
            | inr new ↦ inr (record {
              reg = reg;
              issuer = issuer;
              unrevoked = u;
              unexpired = x;
              registered = r;
              issued = f;
              leaf = new;
            })
          ]
  ]

  pub collect-leaf :
      (cs : List Credential) (st st' : Collected) (i : ℕ) (l : CredentialLeafInput)
      → collect keccak by_subject as_of cs st ≡ some st'
      → nth st'.leaves i ≡ some l
      → (nth st.leaves i ≡ some l)
        ⊎ ((j : ℕ) × (c : Credential) × (nth cs j ≡ some c) × IsAdmitted c l)
  unfolding collect
  collect-leaf [] st st' i l h n = inl (ground (arith, h, n))
  collect-leaf (c ∷ cs) st st' i l h n = elim (Option-cases (admit keccak by_subject as_of c st)) [
    | inl e ↦ ground (arith, h, e)
    | inr (st1, e) ↦ elim (collect-leaf cs st1 st' i l (ground (arith, h, e)) n) [
      | inl old ↦ elim (admit-leaf c st st1 i l e old) [
        | inl first ↦ inl first
        | inr now ↦ inr (0, c, refl, now)
      ]
      | inr (j, d, g, a) ↦ inr (suc j, d, g, a)
    ]
  ]

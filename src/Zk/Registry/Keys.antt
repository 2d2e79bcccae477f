-- ===== src/Zk/Registry/Keys.antt =====
-- The `Map` of credentials by subject, capability and nonce, in the order of first assignment.
use ligis.Prelude.{
  ℕ, zero, suc, ◌≡◌, refl, sym, ap, subst, ◌∙◌, inl, inr, Bool-cases, Bool, true, ◌&&◌, Option,
  none, some, List, [], ◌∷◌, ◌==◌, if◌then◌else◌, arith,
}
use ligis.Wallet.Chars.{Text, text_eq, text_eq_refl, text_eq_sound}
use ligis.Zk.Circuit.Sound.{nth}

-- The parts that the source joins by colons: two hexadecimal texts in lower case, and a number.
pub record Key : Type 0 where
  pub subject : Text
  pub capability_hash : Text
  pub nonce : ℕ

abbrev pub key_eq : Key → Key → Bool
key_eq a b =
    text_eq a.subject b.subject
    && (text_eq a.capability_hash b.capability_hash && a.nonce == b.nonce)

abbrev pub Keyed : Type 0 → Type 0
Keyed V = List (Key × V)

pub key_eq_sound : (a b : Key) → key_eq a b ≡ true → a ≡ b
key_eq_sound a b h =
    ground
      (arith, text_eq_sound a.subject b.subject, text_eq_sound a.capability_hash b.capability_hash)

pub key_eq_refl : (a : Key) → key_eq a a ≡ true
key_eq_refl a = ground (arith, text_eq_refl a.subject, text_eq_refl a.capability_hash)

key_eq_join : (j k i : Key) → key_eq j k ≡ true → key_eq j i ≡ true → key_eq k i ≡ true
key_eq_join j k i h h' =
    subst (λ x. key_eq k x ≡ true) (sym (key_eq_sound j k h) ∙ key_eq_sound j i h') (key_eq_refl k)

key_eq_sym : (j k : Key) → key_eq j k ≡ true → key_eq k j ≡ true
key_eq_sym j k h = subst (λ x. key_eq k x ≡ true) (sym (key_eq_sound j k h)) (key_eq_refl k)

module _ {V : Type 0} where
  abbrev pub lookup : Key → Keyed V → Option V
  lookup k [] = none
  lookup k ((j, v) ∷ t) = let rest = lookup k t in if key_eq k j then some v else rest

  abbrev pub assign : Key → V → Keyed V → Keyed V
  assign k v [] = (k, v) ∷ []
  assign k v ((j, w) ∷ t) =
      let rest = assign k v t in if key_eq k j then (j, v) ∷ t else (j, w) ∷ rest

  abbrev pub entries : Keyed V → List V
  entries [] = []
  entries ((k, v) ∷ t) = v ∷ entries t

  pub lookup-assign :
      (j k : Key) (v : V) (t : Keyed V)
      → lookup j (assign k v t) ≡ (if key_eq j k then some v else lookup j t)
  lookup-assign j k v [] = refl
  lookup-assign j k v ((i, w) ∷ t) = elim (Bool-cases (key_eq k i)) [
    | inl e ↦ ground (arith, e, ap (key_eq j) (key_eq_sound k i e))
    | inr e ↦ ground (arith, e, key_eq_join j k i, lookup-assign j k v t)
  ]

  -- No key twice.
  abbrev pub Distinct : Keyed V → Type 0
  Distinct [] = Unit
  Distinct ((k, v) ∷ t) = (lookup k t ≡ none) × Distinct t

  pub assign-Distinct : (k : Key) (v : V) (t : Keyed V) → Distinct t → Distinct (assign k v t)
  assign-Distinct k v [] h = (refl, tt)
  assign-Distinct k v ((j, w) ∷ t) h = elim (Bool-cases (key_eq k j)) [
    | inl e ↦ ground (arith, e, h)
    | inr e ↦ ground (arith, e, h, key_eq_sym j k, lookup-assign j k v t, assign-Distinct k v t)
  ]

  found_behind :
      (k : Key) (w : V) (t : Keyed V) (j : Key) (v : V)
      → lookup k t ≡ none
      → lookup j t ≡ some v
      → lookup j ((k, w) ∷ t) ≡ some v
  found_behind k w t j v d h = elim (Bool-cases (key_eq j k)) [
    | inl e ↦ ground (arith, e, d, h, ap (λ x. lookup x t) (key_eq_sound j k e))
    | inr e ↦ ground (arith, e, h)
  ]

  -- A value of a table without repetition is found under its key.
  pub nth_entry :
      (t : Keyed V) (i : ℕ) (v : V)
      → Distinct t
      → nth (entries t) i ≡ some v
      → (k : Key) × (lookup k t ≡ some v)
  nth_entry [] i v d h = ground (arith, h)
  nth_entry ((k, w) ∷ t) zero v d h = (k, ground (arith, h, key_eq_refl k))
  nth_entry ((k, w) ∷ t) (suc i) v d h =
      let r = nth_entry t i v (d.1) h in (r.0, found_behind k w t r.0 v (d.0) r.1)

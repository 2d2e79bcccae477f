-- ===== src/Zk/Registry/Replay.antt =====
-- What the replay leaves of the events.
use ligis.Prelude.{
  ℕ, ◌≡◌, ◌⊎◌, inl, inr, refl, ap, ◌∙◌, Bool, true, false, ◌&&◌, Option, none, some, List, [], ◌∷◌,
  ◌++◌, if◌then◌else◌, arith, any, Bool-cases, Option-cases,
}
use ligis.Wallet.Chars.{Text, text_eq, to_lower}
use ligis.Zk.Registry.Keys.{
  Key, Keyed, key_eq, key_eq_sound, lookup, assign, lookup-assign, Distinct, assign-Distinct,
}
use ligis.Zk.Registry.Defs.{
  Issued, Revoked, RegistryEvent, issued, revoked, Credential, issued_key, revoked_key, apply_event,
  replay,
}

-- The credential under one key after one event.
abbrev pub event_at : Key → RegistryEvent → Option Credential → Option Credential
event_at k (issued block log e) c =
    if key_eq k (issued_key e) then some (record { event = e; is_revoked = false }) else c
event_at k (revoked block log e) none = none
event_at k (revoked block log e) (some c) =
    if key_eq k (revoked_key e) && text_eq (to_lower c.event.issuer) (to_lower e.issuer)
    then some (record { event = c.event; is_revoked = true })
    else some c

abbrev pub history : Key → Option Credential → List RegistryEvent → Option Credential
history k c [] = c
history k c (e ∷ es) = history k (event_at k e c) es

revoke_entry : Revoked → Credential → Keyed Credential → Keyed Credential
revoke_entry e c creds =
    if text_eq (to_lower c.event.issuer) (to_lower e.issuer)
    then assign (revoked_key e) (record { event = c.event; is_revoked = true }) creds
    else creds

lookup-revoke_entry :
    (k : Key) (block log : ℕ) (e : Revoked) (c : Credential) (creds : Keyed Credential)
    → lookup (revoked_key e) creds ≡ some c
    → lookup k (revoke_entry e c creds) ≡ event_at k (revoked block log e) (lookup k creds)
unfolding revoke_entry
lookup-revoke_entry k block log e c creds f =
    let a = lookup-assign k (revoked_key e) (record { event = c.event; is_revoked = true }) creds in
    elim (Bool-cases (key_eq k (revoked_key e))) [
      | inl h ↦ ground (arith, h, f, a, ap (λ x. lookup x creds) (key_eq_sound k (revoked_key e) h))
      | inr h ↦ elim (Option-cases (lookup k creds)) [
        | inl g ↦ ground (arith, h, g, a)
        | inr (d, g) ↦ ground (arith, h, g, a)
      ]
    ]

event_at-none :
    (k : Key) (block log : ℕ) (e : Revoked) (creds : Keyed Credential)
    → lookup (revoked_key e) creds ≡ none
    → lookup k creds ≡ event_at k (revoked block log e) (lookup k creds)
event_at-none k block log e creds f = elim (Option-cases (lookup k creds)) [
  | inl g ↦ ground (arith, g)
  | inr (d, g) ↦ elim (Bool-cases (key_eq k (revoked_key e))) [
    | inl h ↦ ground (arith, f, g, ap (λ x. lookup x creds) (key_eq_sound k (revoked_key e) h))
    | inr h ↦ ground (arith, g, h)
  ]
]

lookup-apply_event :
    (k : Key) (e : RegistryEvent) (creds : Keyed Credential)
    → lookup k (apply_event e creds) ≡ event_at k e (lookup k creds)
unfolding revoke_entry
lookup-apply_event k (issued block log e) creds =
    lookup-assign k (issued_key e) (record { event = e; is_revoked = false }) creds
lookup-apply_event k (revoked block log e) creds =
    elim (Option-cases (lookup (revoked_key e) creds)) [
      | inl f ↦ ground (arith, f, event_at-none k block log e creds f)
      | inr (c, f) ↦ ground (arith, f, lookup-revoke_entry k block log e c creds f)
    ]

apply_event-Distinct :
    (e : RegistryEvent) (creds : Keyed Credential) → Distinct creds → Distinct (apply_event e creds)
apply_event-Distinct (issued block log e) creds h = assign-Distinct (issued_key e) _ creds h
apply_event-Distinct (revoked block log e) creds h =
    elim (Option-cases (lookup (revoked_key e) creds)) [
      | inl f ↦ ground (arith, f, h)
      | inr (c, f) ↦ ground (
        arith,
        f,
        h,
        assign-Distinct (revoked_key e) (record { event = c.event; is_revoked = true }) creds h,
      )
    ]

-- The table after the replay has, under each key, what the events of that key make of it.
pub lookup-replay :
    (k : Key) (creds : Keyed Credential) (es : List RegistryEvent)
    → lookup k (replay creds es) ≡ history k (lookup k creds) es
unfolding replay
lookup-replay k creds [] = refl
lookup-replay k creds (e ∷ es) =
    lookup-replay k (apply_event e creds) es
    ∙ ap (λ c. history k c es) (lookup-apply_event k e creds)

pub replay-Distinct :
    (creds : Keyed Credential) (es : List RegistryEvent)
    → Distinct creds
    → Distinct (replay creds es)
unfolding replay
replay-Distinct creds [] h = h
replay-Distinct creds (e ∷ es) h =
    replay-Distinct (apply_event e creds) es (apply_event-Distinct e creds h)

-- Whether an event issues the key again, or revokes it in the name of the issuer.
abbrev pub touches : Key → Text → RegistryEvent → Bool
touches k issuer (issued block log e) = key_eq k (issued_key e)
touches k issuer (revoked block log e) =
    key_eq k (revoked_key e) && text_eq (to_lower issuer) (to_lower e.issuer)

-- The credential was issued by an event, and no later one touches it.
pub IsLive : List RegistryEvent → Key → Issued → Type 0
IsLive es k e =
    (before : List RegistryEvent) × (after : List RegistryEvent) × (block : ℕ) × (log : ℕ) × (es
      ≡ before ++ (issued block log e ∷ after))
    × (k ≡ issued_key e)
    × (any (touches k e.issuer) after ≡ false)

event_at-unrevoked :
    (k : Key) (e : RegistryEvent) (o : Option Credential) (c : Credential)
    → event_at k e o ≡ some c
    → c.is_revoked ≡ false
    → ((o ≡ some c) × (touches k c.event.issuer e ≡ false))
      ⊎ ((block : ℕ) × (log : ℕ) × (e ≡ issued block log c.event) × (k ≡ issued_key c.event))
event_at-unrevoked k (issued block log e) o c h u = elim (Bool-cases (key_eq k (issued_key e))) [
  | inl q ↦
      inr (block, log, ground (arith, h, q), ground (arith, h, key_eq_sound k (issued_key e) q))
  | inr q ↦ inl (ground (arith, h, q), q)
]
event_at-unrevoked k (revoked block log e) none c h u = ground (arith, h)
event_at-unrevoked k (revoked block log e) (some d) c h u =
    inl (ground (arith, h, u), ground (arith, h, u))

pub history-unrevoked :
    (k : Key) (o : Option Credential) (es : List RegistryEvent) (c : Credential)
    → history k o es ≡ some c
    → c.is_revoked ≡ false
    → ((o ≡ some c) × (any (touches k c.event.issuer) es ≡ false)) ⊎ IsLive es k c.event
unfolding IsLive
history-unrevoked k o [] c h u = inl (h, refl)
history-unrevoked k o (e ∷ es) c h u = elim (history-unrevoked k (event_at k e o) es c h u) [
  | inl (now, quiet) ↦ elim (event_at-unrevoked k e o c now u) [
    | inl (before, t) ↦ inl (before, ground (arith, quiet, t))
    | inr (block, log, i, q) ↦ inr ([], es, block, log, ap (λ x. x ∷ es) i, q, quiet)
  ]
  | inr (before, after, block, log, split, q, quiet) ↦
      inr (e ∷ before, after, block, log, ap (λ x. e ∷ x) split, q, quiet)
]

-- ===== src/Zk/Registry/Defs.antt =====
-- `buildRegistryRoot`, `verifyRegistrations` and `witnessFromManifest`. The recovery of the signer of
-- a message is the argument `recover`, `none` where it throws; the numbers of an event, which the
-- source keeps as decimal text, are numbers.
use ligis.Prelude.{
  ℕ, ◌+◌, Bool, true, false, ◌&&◌, ◌||◌, Option, none, some, List, [], ◌∷◌, ◌++◌, ltb, ◌==◌,
  if◌then◌else◌,
}
use ligis.Wallet.Chars.{Text, codes, to_lower, text_eq, is_address}
use ligis.Wallet.Types.{Value}
use ligis.Zk.Field.Defs.{of_hex, parse_field}
use ligis.Zk.Label.Defs.{canonical}
use ligis.Zk.Circuit.Defs.{CredentialLeafInput}
use ligis.Zk.Credential.Defs.{digits}
use ligis.Zk.Registry.Keys.{Key, Keyed, lookup, assign}

pub record Issued : Type 0 where
  pub issuer : Text
  pub subject : Text
  pub capability_hash : Text
  pub nonce : ℕ
  pub expires_at : ℕ

pub record Revoked : Type 0 where
  pub issuer : Text
  pub subject : Text
  pub capability_hash : Text
  pub nonce : ℕ

pub data RegistryEvent : Type 0 where
  issued : (block_number log_index : ℕ) → Issued → RegistryEvent
  revoked : (block_number log_index : ℕ) → Revoked → RegistryEvent

pub record SubjectRegistration : Type 0 where
  pub subject : Text
  pub zcash_address : Text
  pub commitment : Text
  pub signature : Text

pub record Credential : Type 0 where
  pub event : Issued
  pub is_revoked : Bool

abbrev pub block_of : RegistryEvent → ℕ
block_of (issued block log e) = block
block_of (revoked block log e) = block

abbrev pub log_of : RegistryEvent → ℕ
log_of (issued block log e) = log
log_of (revoked block log e) = log

-- The comparison of the source's `sort`.
abbrev pub is_before : RegistryEvent → RegistryEvent → Bool
is_before a b =
    ltb (block_of a) (block_of b) || (block_of a == block_of b && ltb (log_of a) (log_of b))

abbrev pub insert_event : RegistryEvent → List RegistryEvent → List RegistryEvent
insert_event e [] = e ∷ []
insert_event e (x ∷ xs) =
    let rest = insert_event e xs in if is_before x e then x ∷ rest else e ∷ x ∷ xs

-- `sort`, which is stable.
unfoldable pub sort_events : List RegistryEvent → List RegistryEvent
sort_events [] = []
sort_events (e ∷ es) = insert_event e (sort_events es)

-- `key`
abbrev pub issued_key : Issued → Key
issued_key e = record {
  subject = to_lower e.subject;
  capability_hash = to_lower e.capability_hash;
  nonce = e.nonce;
}

abbrev pub revoked_key : Revoked → Key
revoked_key e = record {
  subject = to_lower e.subject;
  capability_hash = to_lower e.capability_hash;
  nonce = e.nonce;
}

abbrev pub apply_event : RegistryEvent → Keyed Credential → Keyed Credential
apply_event (issued block log e) creds =
    assign (issued_key e) (record { event = e; is_revoked = false }) creds
apply_event (revoked block log e) creds = elim (lookup (revoked_key e) creds) [
  | none ↦ creds
  | some c ↦
      if text_eq (to_lower c.event.issuer) (to_lower e.issuer)
      then assign (revoked_key e) (record { event = c.event; is_revoked = true }) creds
      else creds
]

unfoldable pub replay : Keyed Credential → List RegistryEvent → Keyed Credential
replay creds [] = creds
replay creds (e ∷ es) = replay (apply_event e creds) es

-- The lines joined.
abbrev pub registration_message : SubjectRegistration → Text
registration_message r =
    codes "ligis-zk-commitment:v1\nsubject:"
    ++ (to_lower r.subject
        ++ (codes "\nzcash:"
            ++ (canonical r.zcash_address ++ (codes "\ncommitment:" ++ to_lower r.commitment))))

-- A `Map` by text.
abbrev pub registration_of : Text → List (Text × SubjectRegistration) → Option SubjectRegistration
registration_of s [] = none
registration_of s ((k, r) ∷ t) =
    let rest = registration_of s t in if text_eq s k then some r else rest

abbrev pub set_registration :
    Text
    → SubjectRegistration
    → List (Text × SubjectRegistration)
    → List (Text × SubjectRegistration)
set_registration s r [] = (s, r) ∷ []
set_registration s r ((k, q) ∷ t) =
    let rest = set_registration s r t in if text_eq s k then (k, r) ∷ t else (k, q) ∷ rest

module _ (recover : Text → Text → Option Text) where
  -- Whether the body of the loop does not throw.
  unfoldable pub is_registered : SubjectRegistration → Bool
  unfolding parse_field
  is_registered r = elim (parse_field (Value.str r.commitment)) [
    | none ↦ false
    | some c ↦ elim (recover (registration_message r) r.signature) [
      | none ↦ false
      | some signer ↦ text_eq (to_lower signer) (to_lower r.subject)
    ]
  ]

  -- The registrations by subject, the last that is valid of each, and the number of bad ones.
  unfoldable pub verify_registrations :
      List SubjectRegistration
      → List (Text × SubjectRegistration)
      → ℕ
      → List (Text × SubjectRegistration) × ℕ
  unfolding is_registered
  verify_registrations [] by_subject bad = (by_subject, bad)
  verify_registrations (r ∷ rs) by_subject bad =
      verify_registrations rs
        (if is_registered r then set_registration (to_lower r.subject) r by_subject else by_subject)
        (if is_registered r then bad else bad + 1)

pub record Skipped : Type 0 where
  pub revoked : ℕ
  pub expired : ℕ
  pub unregistered : ℕ
  pub bad_registration : ℕ

-- `issuerField`, `none` where it throws.
abbrev pub issuer_field : Text → Option ℕ
issuer_field address = if is_address address then some (of_hex 0 (digits address)) else none

-- `BigInt` of a commitment that has been checked to parse.
abbrev pub commitment_field : Text → ℕ
commitment_field s = elim (parse_field (Value.str s)) [ none ↦ 0 | some n ↦ n ]

pub record Collected : Type 0 where
  pub leaves : List CredentialLeafInput
  pub skipped : Skipped

-- ===== src/Zk/Label/Defs.antt =====
-- `gateContextLabel` and `parseGateContextLabel`.
use ligis.Prelude.{
  ℕ, ◌+◌, Bool, not, ◌&&◌, ◌||◌, Option, none, some, List, [], ◌∷◌, ◌++◌, leb, ltb, ◌==◌,
  if◌then◌else◌, length,
}
use ligis.Wallet.Chars.{Text, codes, to_lower, trim, is_digit, is_upper, is_lower, all_chars}

-- NONCE_RE: /^[A-Za-z0-9_-]{1,64}$/
abbrev pub is_nonce_char : ℕ → Bool
is_nonce_char c = is_upper c || (is_lower c || (is_digit c || (c == b'_' || c == b'-')))

abbrev pub is_nonce : Text → Bool
is_nonce s = leb 1 (length s) && (leb (length s) 64 && all_chars is_nonce_char s)

abbrev pub context_prefix : Text
context_prefix = codes "ligis-gate:v1"

-- `address.trim().toLowerCase()`, of ASCII letters.
abbrev pub canonical : Text → Text
canonical address = to_lower (trim address)

-- `none` where the source throws.
unfoldable pub gate_context_label : Text → Text → Text → Option Text
gate_context_label payee capability nonce =
    if not (is_nonce nonce)
    then none
    else some
        (context_prefix ++ (b':' ∷ (canonical payee ++ (b':' ∷ (capability ++ (b':' ∷ nonce))))))

abbrev pub cons_first : ℕ → List Text → List Text
cons_first c [] = (c ∷ []) ∷ []
cons_first c (part ∷ parts) = (c ∷ part) ∷ parts

-- `split`, by one character.
abbrev pub split : ℕ → Text → List Text
split d [] = [] ∷ []
split d (c ∷ s) = let rest = split d s in if c == d then [] ∷ rest else cons_first c rest

-- The text behind the prefix, `none` where it does not start with it.
abbrev pub strip_prefix : Text → Text → Option Text
strip_prefix [] s = some s
strip_prefix (p ∷ ps) [] = none
strip_prefix (p ∷ ps) (c ∷ s) = let rest = strip_prefix ps s in if p == c then rest else none

pub record GateContext : Type 0 where
  pub payee : Text
  pub capability : Text
  pub nonce : Text

abbrev pub is_empty : Text → Bool
is_empty s = length s == 0

abbrev pub of_parts : List Text → Option GateContext
of_parts (payee ∷ capability ∷ nonce ∷ []) =
    if is_empty payee || (is_empty capability || not (is_nonce nonce))
    then none
    else some (record { payee = payee; capability = capability; nonce = nonce })
of_parts _ = none

-- `length` of a text in UTF-16 units.
abbrev pub utf16_length : Text → ℕ
utf16_length [] = 0
utf16_length (c ∷ s) = (if ltb c 65536 then 1 else 2) + utf16_length s

unfoldable pub parse_gate_context_label : Text → Option GateContext
parse_gate_context_label label = elim (strip_prefix (context_prefix ++ (b':' ∷ [])) label) [
  | none ↦ none
  | some rest ↦ if ltb 512 (utf16_length label) then none else of_parts (split b':' rest)
]

-- ===== src/Zk/Label/RoundTrip.antt =====
-- Printing a label and parsing it.
use ligis.Prelude.{
  ℕ, ltb, ◌≡◌, ◌≢◌, inl, inr, refl, sym, ap, ◌∙◌, Bool, true, false, not, ◌&&◌, ◌||◌, none, some,
  List, [], ◌∷◌, ◌++◌, leb, if◌then◌else◌, length, arith, Bool-cases, Option-cases,
}
use ligis.Wallet.Chars.{Text, all_chars}
use ligis.Zk.Label.Defs.{
  is_nonce, context_prefix, canonical, gate_context_label, split, strip_prefix, GateContext,
  is_empty, of_parts, utf16_length, parse_gate_context_label,
}
use ligis.Zk.Label.Split.{
  has_char, split-single, split-join, length-split, count-++, has_char-count, all_chars-has_char,
  join, join-split,
}

-- Which labels can be read back.
abbrev pub is_readable : Text → Text → Text → Bool
is_readable payee capability label =
    not (has_char b':' payee)
    && (not (has_char b':' capability)
        && (not (is_empty payee) && (not (is_empty capability) && leb (utf16_length label) 512)))

strip_prefix-++ : (p s : Text) → strip_prefix p (p ++ s) ≡ some s
strip_prefix-++ [] s = refl
strip_prefix-++ (c ∷ p) s = ground (arith, strip_prefix-++ p s)

strip_prefix-some : (p l s : Text) → strip_prefix p l ≡ some s → l ≡ p ++ s
strip_prefix-some [] l s h = ground arith
strip_prefix-some (c ∷ p) [] s h = ground arith
strip_prefix-some (c ∷ p) (d ∷ l) s h = ground (arith, strip_prefix-some p l s)

of_parts-length : (ps : List Text) → length ps ≢ 3 → of_parts ps ≡ none
of_parts-length [] h = refl
of_parts-length (a ∷ []) h = refl
of_parts-length (a ∷ b ∷ []) h = refl
of_parts-length (a ∷ b ∷ c ∷ []) h = ground arith
of_parts-length (a ∷ b ∷ c ∷ d ∷ ps) h = refl

of_parts-some :
    (ps : List Text) (g : GateContext)
    → of_parts ps ≡ some g
    → (is_nonce g.nonce ≡ true)
      × (join b':' ps ≡ g.payee ++ (b':' ∷ (g.capability ++ (b':' ∷ g.nonce))))
of_parts-some [] g h = ground arith
of_parts-some (a ∷ []) g h = ground arith
of_parts-some (a ∷ b ∷ []) g h = ground arith
of_parts-some (a ∷ b ∷ c ∷ []) g h = ground arith
of_parts-some (a ∷ b ∷ c ∷ d ∷ ps) g h = ground arith

is_nonce-colon : (n : Text) → is_nonce n ≡ true → has_char b':' n ≡ false
is_nonce-colon n h = ground (arith, all_chars-has_char n)

many_parts :
    (payee capability nonce : Text)
    → has_char b':' payee || has_char b':' capability ≡ true
    → length (split b':' (payee ++ (b':' ∷ (capability ++ (b':' ∷ nonce))))) ≢ 3
many_parts payee capability nonce h = ground (
  arith,
  length-split b':' (payee ++ (b':' ∷ (capability ++ (b':' ∷ nonce)))),
  count-++ b':' payee (b':' ∷ (capability ++ (b':' ∷ nonce))),
  count-++ b':' capability (b':' ∷ nonce),
  has_char-count b':' payee,
  has_char-count b':' capability,
)

-- The parts of a label behind its prefix.
of_parts-split :
    (payee capability nonce : Text)
    → is_nonce nonce ≡ true
    → of_parts (split b':' (payee ++ (b':' ∷ (capability ++ (b':' ∷ nonce))))) ≡ (
        if not (has_char b':' payee)
          && (not (has_char b':' capability) && (not (is_empty payee) && not (is_empty capability)))
        then some (record { payee = payee; capability = capability; nonce = nonce })
        else none)
of_parts-split payee capability nonce h =
    elim (Bool-cases (has_char b':' payee || has_char b':' capability)) [
      | inl colon ↦ ground (
        arith,
        of_parts-length (split b':' (payee ++ (b':' ∷ (capability ++ (b':' ∷ nonce))))),
        many_parts payee capability nonce colon,
      )
      | inr plain ↦ ground (
        arith,
        h,
        plain,
        is_nonce-colon nonce h,
        split-join b':' payee (capability ++ (b':' ∷ nonce)),
        split-join b':' capability nonce,
        split-single b':' nonce,
      )
    ]

-- A printed label parses to its payee, trimmed and in lower case, its capability and its nonce where
-- neither the payee nor the capability holds a colon or is empty and the label has at most 512
-- UTF-16 units; otherwise it does not parse.
pub parse_gate_context_label-gate_context_label :
    (payee capability nonce label : Text)
    → gate_context_label payee capability nonce ≡ some label
    → parse_gate_context_label label ≡ (
        if is_readable (canonical payee) capability label
        then some (record { payee = canonical payee; capability = capability; nonce = nonce })
        else none)
unfolding gate_context_label parse_gate_context_label
parse_gate_context_label-gate_context_label payee capability nonce label h =
    ground (arith, h, of_parts-split (canonical payee) capability nonce)

abbrev pub is_ascii : ℕ → Bool
is_ascii c = ltb c 128

label_parts :
    (label : Text) (g : GateContext)
    → parse_gate_context_label label ≡ some g
    → (rest : Text) × (strip_prefix (context_prefix ++ (b':' ∷ [])) label ≡ some rest)
      × (of_parts (split b':' rest) ≡ some g)
unfolding parse_gate_context_label
label_parts label g h = elim (Option-cases (strip_prefix (context_prefix ++ (b':' ∷ [])) label)) [
  | inl e ↦ ground (arith, h, e)
  | inr (rest, e) ↦ (rest, e, ground (arith, h, e))
]

-- A label that parses is the one printed from its parts, where the payee in it is ASCII text that is
-- trimmed and in lower case.
pub gate_context_label-parse_gate_context_label :
    (label : Text) (g : GateContext)
    → parse_gate_context_label label ≡ some g
    → all_chars is_ascii g.payee ≡ true
    → canonical g.payee ≡ g.payee
    → gate_context_label g.payee g.capability g.nonce ≡ some label
unfolding gate_context_label parse_gate_context_label
gate_context_label-parse_gate_context_label label g h _ c =
    let p = label_parts label g h in
    let parts = of_parts-some (split b':' p.0) g p.2 in
    ground (
      arith,
      c,
      parts.0,
      strip_prefix-some (context_prefix ++ (b':' ∷ [])) label p.0 p.1
          ∙ ap (λ s. context_prefix ++ (b':' ∷ s)) (sym (join-split b':' p.0) ∙ parts.1),
    )

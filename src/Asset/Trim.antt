-- ===== src/Asset/Trim.antt =====
-- A text without white space is trimmed.
use ligis.Prelude.{ℕ, ◌≡◌, refl, ap, ◌∙◌, Bool, true, not, [], ◌∷◌, ◌++◌, arith}
use mathlib.Core.List.{reverse, reverse-cons, reverse-reverse}
use ligis.Wallet.Chars.{Text, trim, drop_spaces, is_space, all_chars}

abbrev pub is_dark : ℕ → Bool
is_dark c = not (is_space c)

pub all_chars-++ :
    (p : ℕ → Bool) (s t : Text)
    → all_chars p s ≡ true
    → all_chars p t ≡ true
    → all_chars p (s ++ t) ≡ true
all_chars-++ p [] t h k = k
all_chars-++ p (c ∷ s) t h k = ground (arith, h, all_chars-++ p s t)

all_chars-reverse :
    (p : ℕ → Bool) (s : Text) → all_chars p s ≡ true → all_chars p (reverse s) ≡ true
all_chars-reverse p [] h = refl
all_chars-reverse p (c ∷ s) h =
    ap (all_chars p) (reverse-cons c s)
    ∙ all_chars-++ p (reverse s) (c ∷ []) (all_chars-reverse p s (ground (arith, h)))
        (ground (arith, h))

drop_spaces_dark : (s : Text) → all_chars is_dark s ≡ true → drop_spaces s ≡ s
unfolding drop_spaces
drop_spaces_dark [] h = refl
drop_spaces_dark (c ∷ s) h = ground (arith, h)

pub trim_dark : (s : Text) → all_chars is_dark s ≡ true → trim s ≡ s
unfolding trim
trim_dark s h =
    ap (λ t. reverse (drop_spaces (reverse t))) (drop_spaces_dark s h)
    ∙ ap reverse (drop_spaces_dark (reverse s) (all_chars-reverse is_dark s h))
    ∙ reverse-reverse s

-- ===== src/Zk/Label/Split.antt =====
-- Splitting a text whose parts are joined by a character.
use ligis.Prelude.{
  ℕ, ◌+◌, ◌≤◌, ◌≡◌, ◌≢◌, refl, Bool, true, false, ◌||◌, List, [], ◌∷◌, ◌++◌, ◌==◌, if◌then◌else◌,
  length, arith,
}
use ligis.Wallet.Chars.{Text, all_chars}
use ligis.Zk.Label.Defs.{cons_first, split, is_nonce_char}

abbrev pub has_char : ℕ → Text → Bool
has_char d [] = false
has_char d (c ∷ s) = c == d || has_char d s

pub split-single : (d : ℕ) (s : Text) → has_char d s ≡ false → split d s ≡ s ∷ []
split-single d [] h = refl
split-single d (c ∷ s) h = ground (arith, split-single d s)

pub split-join :
    (d : ℕ) (s t : Text) → has_char d s ≡ false → split d (s ++ (d ∷ t)) ≡ s ∷ split d t
split-join d [] t h = ground arith
split-join d (c ∷ s) t h = ground (arith, split-join d s t)

length-cons_first :
    (c : ℕ) (ps : List Text) → length (cons_first c ps) ≡ (if length ps == 0 then 1 else length ps)
length-cons_first c [] = refl
length-cons_first c (p ∷ ps) = ground arith

-- How many parts there are.
abbrev pub count : ℕ → Text → ℕ
count d [] = 0
count d (c ∷ s) = (if c == d then 1 else 0) + count d s

pub length-split : (d : ℕ) (s : Text) → length (split d s) ≡ 1 + count d s
length-split d [] = refl
length-split d (c ∷ s) = ground (arith, length-split d s, length-cons_first c (split d s))

pub count-++ : (d : ℕ) (s t : Text) → count d (s ++ t) ≡ count d s + count d t
count-++ d [] t = omega arith
count-++ d (c ∷ s) t = ground (arith, count-++ d s t)

pub has_char-count : (d : ℕ) (s : Text) → has_char d s ≡ true → count d s ≢ 0
has_char-count d [] h = ground arith
has_char-count d (c ∷ s) h = ground (arith, has_char-count d s)

pub count-none : (d : ℕ) (s : Text) → has_char d s ≡ false → count d s ≡ 0
count-none d [] h = refl
count-none d (c ∷ s) h = ground (arith, count-none d s)

-- No character of a nonce is a colon.
pub all_chars-has_char : (s : Text) → all_chars is_nonce_char s ≡ true → has_char b':' s ≡ false
all_chars-has_char [] h = refl
all_chars-has_char (c ∷ s) h = ground (arith, all_chars-has_char s)

abbrev pub join : ℕ → List Text → Text
join d [] = []
join d (p ∷ []) = p
join d (p ∷ q ∷ ps) = p ++ (d ∷ join d (q ∷ ps))

join-cons_first :
    (d c : ℕ) (p : Text) (ps : List Text) → join d (cons_first c (p ∷ ps)) ≡ c ∷ join d (p ∷ ps)
join-cons_first d c p [] = refl
join-cons_first d c p (q ∷ ps) = refl

join-step :
    (d c : ℕ) (s : Text) (ps : List Text)
    → 1 ≤ length ps
    → join d ps ≡ s
    → join d (if c == d then [] ∷ ps else cons_first c ps) ≡ c ∷ s
join-step d c s [] h e = ground arith
join-step d c s (p ∷ ps) h e = ground (arith, join-cons_first d c p ps, e)

pub join-split : (d : ℕ) (s : Text) → join d (split d s) ≡ s
join-split d [] = refl
join-split d (c ∷ s) =
    join-step d c s (split d s) (ground (arith, length-split d s)) (join-split d s)

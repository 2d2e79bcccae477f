-- ===== src/Asset/Decimal.antt =====
-- Reading digits back.
use ligis.Prelude.{
  ℕ, zero, suc, ◌+◌, ◌-◌, ◌*◌, ◌/◌, ◌%◌, ◌^◌, ◌≤◌, ◌<◌, ◌≡◌, inl, inr, refl, ap, ◌∙◌, true, false,
  ◌&&◌, [], ◌∷◌, ◌++◌, ltb, ◌==◌, if◌then◌else◌, length, arith, Bool-cases,
}
use ligis.Wallet.Chars.{Text, is_numeric, to_ℕ_from, is_digit, all_chars}
use ligis.Zk.Label.Split.{has_char}
use ligis.Asset.Defs.{pad_end, print_digits, dec_pad, strip_zeros}

value_snoc : (s : Text) (n c : ℕ) → to_ℕ_from n (s ++ (c ∷ [])) ≡ to_ℕ_from n s * 10 + (c - b'0')
unfolding to_ℕ_from
value_snoc [] n c = refl
value_snoc (d ∷ s) n c = value_snoc s (n * 10 + (d - b'0')) c

pub value-print_digits : (f n : ℕ) → n < 10 ^ f → to_ℕ_from 0 (print_digits f n) ≡ n
unfolding print_digits to_ℕ_from
value-print_digits zero n h = ground arith
value-print_digits (suc f) n h = elim (Bool-cases (ltb n 10)) [
  | inl e ↦ ground (arith, e)
  | inr e ↦ ground (
    arith,
    e,
    value_snoc (print_digits f (n / 10)) 0 (b'0' + n % 10),
    value-print_digits f (n / 10),
  )
]

pub value-dec_pad : (w n : ℕ) → n < 10 ^ w → to_ℕ_from 0 (dec_pad w n) ≡ n
unfolding dec_pad to_ℕ_from
value-dec_pad zero n h = ground arith
value-dec_pad (suc w) n h =
    ground (arith, value_snoc (dec_pad w (n / 10)) 0 (b'0' + n % 10), value-dec_pad w (n / 10))

digits_snoc :
    (s : Text) (c : ℕ)
    → all_chars is_digit s ≡ true
    → is_digit c ≡ true
    → all_chars is_digit (s ++ (c ∷ [])) ≡ true
digits_snoc [] c h k = ground (arith, k)
digits_snoc (d ∷ s) c h k = ground (arith, h, digits_snoc s c)

digit_char : (n : ℕ) → is_digit (b'0' + n % 10) ≡ true
digit_char n = ground arith

pub digits-print_digits : (f n : ℕ) → all_chars is_digit (print_digits f n) ≡ true
unfolding print_digits
digits-print_digits zero n = refl
digits-print_digits (suc f) n = elim (Bool-cases (ltb n 10)) [
  | inl e ↦ ground (arith, e, digit_char n)
  | inr e ↦ ground (
    arith,
    e,
    digits_snoc (print_digits f (n / 10)) (b'0' + n % 10) (digits-print_digits f (n / 10))
        (digit_char n),
  )
]

pub digits-dec_pad : (w n : ℕ) → all_chars is_digit (dec_pad w n) ≡ true
unfolding dec_pad
digits-dec_pad zero n = refl
digits-dec_pad (suc w) n =
    digits_snoc (dec_pad w (n / 10)) (b'0' + n % 10) (digits-dec_pad w (n / 10)) (digit_char n)

length_snoc : (s : Text) (c : ℕ) → length (s ++ (c ∷ [])) ≡ suc (length s)
length_snoc [] c = refl
length_snoc (d ∷ s) c = ap suc (length_snoc s c)

pub length-dec_pad : (w n : ℕ) → length (dec_pad w n) ≡ w
unfolding dec_pad
length-dec_pad zero n = refl
length-dec_pad (suc w) n =
    length_snoc (dec_pad w (n / 10)) (b'0' + n % 10) ∙ ap suc (length-dec_pad w (n / 10))

pub length-strip_zeros : (s : Text) → length (strip_zeros s) ≤ length s
length-strip_zeros [] = omega arith
length-strip_zeros (c ∷ s) = ground (arith, length-strip_zeros s)

pub digits-strip_zeros :
    (s : Text) → all_chars is_digit s ≡ true → all_chars is_digit (strip_zeros s) ≡ true
digits-strip_zeros [] h = refl
digits-strip_zeros (c ∷ s) h = ground (arith, h, digits-strip_zeros s)

is_empty-length : (s : Text) → length s ≡ 0 → s ≡ []
is_empty-length [] h = refl
is_empty-length (c ∷ s) h = ground arith

-- What is stripped is padded back.
pub pad_end-strip_zeros : (s : Text) → pad_end (length s) (strip_zeros s) ≡ s
pad_end-strip_zeros [] = refl
pad_end-strip_zeros (c ∷ s) = elim (Bool-cases (length (strip_zeros s) == 0 && c == b'0')) [
  | inl e ↦ ground (arith, e, pad_end-strip_zeros s, is_empty-length (strip_zeros s))
  | inr e ↦ ground (arith, e, pad_end-strip_zeros s, length-strip_zeros s)
]

-- Digits are neither points nor white space.
pub digits-has_char : (s : Text) → all_chars is_digit s ≡ true → has_char b'.' s ≡ false
digits-has_char [] h = refl
digits-has_char (c ∷ s) h = ground (arith, h, digits-has_char s)

pub digits-is_numeric :
    (s : Text) → 1 ≤ length s → all_chars is_digit s ≡ true → is_numeric s ≡ true
unfolding is_numeric
digits-is_numeric [] h k = ground (arith, h)
digits-is_numeric (c ∷ s) h k = k

pub length-print_digits : (f n : ℕ) → 1 ≤ length (print_digits (suc f) n)
unfolding print_digits
length-print_digits f n =
    ground (arith, length_snoc (if ltb n 10 then [] else print_digits f (n / 10)) (b'0' + n % 10))

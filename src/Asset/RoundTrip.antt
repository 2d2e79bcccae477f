-- ===== src/Asset/RoundTrip.antt =====
-- Formatting base units and reading them back.
use ligis.Prelude.{
  ℕ, zero, suc, ◌+◌, ◌-◌, ◌*◌, ◌/◌, ◌%◌, ◌^◌, ◌≤◌, ◌<◌, ◌≡◌, refl, sym, ap, ◌∙◌, inl, inr, true,
  some, [], ◌∷◌, ◌++◌, ◌==◌, if◌then◌else◌, length, arith, Bool-cases,
}
use mathlib.Core.Path.{ap₂}
use ligis.Wallet.Chars.{Text, is_numeric, to_ℕ, to_ℕ_from, is_space, is_digit, all_chars}
use ligis.Zk.Label.Defs.{split}
use ligis.Zk.Label.Split.{split-single, split-join}
use ligis.Asset.Defs.{
  TokenSymbol, token_decimals, take, zeros, pad_end, fraction_units, units_of, to_base_units, print,
  dec_pad, strip_zeros, format_amount,
}
use ligis.Asset.Decimal.{
  value-print_digits, value-dec_pad, digits-print_digits, digits-dec_pad, length-dec_pad,
  length-strip_zeros, digits-strip_zeros, pad_end-strip_zeros, digits-has_char, digits-is_numeric,
  length-print_digits,
}
use ligis.Asset.Trim.{is_dark, all_chars-++, trim_dark}

dark_digits : (s : Text) → all_chars is_digit s ≡ true → all_chars is_dark s ≡ true
unfolding is_space
dark_digits [] h = refl
dark_digits (c ∷ s) h = ground (arith, h, dark_digits s)

take_all : (n : ℕ) (s : Text) → length s ≤ n → take n s ≡ s
take_all zero [] h = refl
take_all zero (c ∷ s) h = ground arith
take_all (suc n) [] h = refl
take_all (suc n) (c ∷ s) h = ground (arith, take_all n s)

value_zeros : (n : ℕ) → to_ℕ_from 0 (zeros n) ≡ 0
unfolding to_ℕ_from
value_zeros zero = refl
value_zeros (suc n) = value_zeros n

-- The fraction's digits, without zeros at the end.
fraction : ℕ → ℕ → Text
fraction d m = strip_zeros (dec_pad d m)

padded : (d m : ℕ) → m < 10 ^ d → to_ℕ_from 0 (pad_end d (fraction d m)) ≡ m
unfolding fraction
padded d m h =
    ap (λ n. to_ℕ_from 0 (pad_end n (strip_zeros (dec_pad d m)))) (sym (length-dec_pad d m))
    ∙ ap (to_ℕ_from 0) (pad_end-strip_zeros (dec_pad d m))
    ∙ value-dec_pad d m h

short : (d m : ℕ) → length (fraction d m) ≤ d
unfolding fraction
short d m = ground (arith, length-strip_zeros (dec_pad d m), length-dec_pad d m)

minus_zero : (d : ℕ) → d - 0 ≡ d
minus_zero d = omega arith

no_fraction : (d m : ℕ) → m < 10 ^ d → fraction d m ≡ [] → m ≡ 0
no_fraction d m h e =
    sym (padded d m h)
    ∙ ap (λ s. to_ℕ_from 0 (pad_end d s)) e
    ∙ ap (λ n. to_ℕ_from 0 (zeros n)) (minus_zero d)
    ∙ value_zeros d

units_filled :
    (d : ℕ) (f : Text)
    → length f ≤ d
    → 1 ≤ length f
    → fraction_units d f ≡ to_ℕ_from 0 (pad_end d f)
unfolding to_ℕ
units_filled d [] h k = ground (arith, k)
units_filled d (c ∷ s) h k = ground (arith, take_all d (c ∷ s) h)

numeric_print : (q : ℕ) → is_numeric (print q) ≡ true
numeric_print q = digits-is_numeric (print q) (length-print_digits 38 q) (digits-print_digits 39 q)

append_nil : (s : Text) → s ++ [] ≡ s
append_nil [] = refl
append_nil (c ∷ s) = ap (λ t. c ∷ t) (append_nil s)

amount_text : Text → Text → Text
amount_text whole frac = whole ++ (if length frac == 0 then [] else b'.' ∷ frac)

-- The units of the two parts of an amount.
units_of_whole :
    (d : ℕ) (w : Text)
    → is_numeric w ≡ true
    → units_of d (w ∷ []) ≡ some (to_ℕ_from 0 w * 10 ^ d + 0)
unfolding to_ℕ
units_of_whole d w h = ground (arith, h)

units_of_parts :
    (d : ℕ) (w f : Text)
    → is_numeric w ≡ true
    → all_chars is_digit f ≡ true
    → length f ≤ d
    → 1 ≤ length f
    → units_of d (w ∷ f ∷ []) ≡ some (to_ℕ_from 0 w * 10 ^ d + to_ℕ_from 0 (pad_end d f))
unfolding to_ℕ
units_of_parts d w f h k l m = ground (arith, h, digits-is_numeric f m k, l, units_filled d f l m)

units_of-amount_text :
    (d : ℕ) (w f : Text)
    → is_numeric w ≡ true
    → all_chars is_digit w ≡ true
    → all_chars is_digit f ≡ true
    → length f ≤ d
    → units_of d (split b'.' (amount_text w f))
      ≡ some (to_ℕ_from 0 w * 10 ^ d + (if length f == 0 then 0 else to_ℕ_from 0 (pad_end d f)))
unfolding amount_text
units_of-amount_text d w f h g k l = elim (Bool-cases (length f == 0)) [
  | inl e ↦
      ground
        (arith, e, append_nil w, split-single b'.' w (digits-has_char w g), units_of_whole d w h)
  | inr e ↦ ground (
    arith,
    e,
    split-join b'.' w f (digits-has_char w g),
    split-single b'.' f (digits-has_char f k),
    units_of_parts d w f h k l (ground (arith, e)),
  )
]

amount_text_dark :
    (w f : Text)
    → all_chars is_digit w ≡ true
    → all_chars is_digit f ≡ true
    → all_chars is_dark (amount_text w f) ≡ true
unfolding amount_text is_space
amount_text_dark w f h k =
    all_chars-++ is_dark w (if length f == 0 then [] else b'.' ∷ f) (dark_digits w h)
      (ground (arith, dark_digits f k))

no_length : (s : Text) → length s ≡ 0 → s ≡ []
no_length [] h = refl
no_length (c ∷ s) h = ground arith

whole_and_fraction : (x y q m : ℕ) → x ≡ q → y ≡ m → (z : ℕ) → x * z + y ≡ q * z + m
whole_and_fraction x y q m h k z = ap₂ (λ a b. a * z + b) h k

fraction_value :
    (d m : ℕ)
    → m < 10 ^ d
    → (if length (fraction d m) == 0 then 0 else to_ℕ_from 0 (pad_end d (fraction d m))) ≡ m
fraction_value d m h = elim (Bool-cases (length (fraction d m) == 0)) [
  | inl e ↦ ground (arith, e, no_fraction d m h (no_length (fraction d m) (ground (arith, e))))
  | inr e ↦ ground (arith, e, padded d m h)
]

digits_fraction : (d m : ℕ) → all_chars is_digit (fraction d m) ≡ true
unfolding fraction
digits_fraction d m = digits-strip_zeros (dec_pad d m) (digits-dec_pad d m)

read_back :
    (symbol : TokenSymbol) (d q m : ℕ)
    → token_decimals symbol ≡ d
    → q < 10 ^ 39
    → m < 10 ^ d
    → to_base_units symbol (amount_text (print q) (fraction d m)) ≡ some (q * 10 ^ d + m)
unfolding to_base_units
read_back symbol d q m hd hq hm =
    ap₂ (λ n s. units_of n (split b'.' s)) hd
      (trim_dark (amount_text (print q) (fraction d m)) (
        amount_text_dark (print q) (fraction d m) (digits-print_digits 39 q) (digits_fraction d m)))
    ∙ units_of-amount_text d (print q) (fraction d m) (numeric_print q) (digits-print_digits 39 q)
        (digits_fraction d m) (short d m)
    ∙ ap some
        (whole_and_fraction _ _ q m (value-print_digits 39 q hq) (fraction_value d m hm) (10 ^ d))

format_amount_parts :
    (symbol : TokenSymbol) (v : ℕ)
    → format_amount symbol v
      ≡ amount_text
          (print (v / 10 ^ token_decimals symbol))
          (fraction (token_decimals symbol) (v % 10 ^ token_decimals symbol))
unfolding format_amount amount_text fraction
format_amount_parts symbol v = refl

-- Formatting base units that have at most 39 digits and reading the amount back gives them again, in
-- either token.
pub to_base_units-format_amount :
    (symbol : TokenSymbol) (v : ℕ)
    → v < 10 ^ 39
    → to_base_units symbol (format_amount symbol v) ≡ some v
to_base_units-format_amount TokenSymbol.zec v h =
    ap (to_base_units TokenSymbol.zec) (format_amount_parts TokenSymbol.zec v)
    ∙ read_back TokenSymbol.zec 8 (v / 10 ^ 8) (v % 10 ^ 8) refl (omega arith) (omega arith)
    ∙ ap some (omega arith)
to_base_units-format_amount TokenSymbol.usdc v h =
    ap (to_base_units TokenSymbol.usdc) (format_amount_parts TokenSymbol.usdc v)
    ∙ read_back TokenSymbol.usdc 6 (v / 10 ^ 6) (v % 10 ^ 6) refl (omega arith) (omega arith)
    ∙ ap some (omega arith)

-- ===== src/Zk/Field/RoundTrip.antt =====
-- Printing and parsing field elements.
use ligis.Prelude.{
  ℕ, zero, suc, ◌+◌, ◌*◌, ◌/◌, ◌%◌, ◌^◌, ◌<◌, ◌≡◌, refl, ap, ◌∙◌, Bool, true, some, [], ◌∷◌, ◌++◌,
  length, arith,
}
use ligis.Prelude.Int.{pos}
use ligis.Wallet.Chars.{Text, all_chars, is_hex}
use ligis.Wallet.Number.{micro}
use ligis.Wallet.Types.{Value}
use ligis.Zk.Field.Defs.{
  field_modulus, to_field, hex_digit, hex_pad, field_hex, hex_value, of_hex, parse_field,
}

pub to_field_lt : (n : ℕ) → to_field n < field_modulus
unfolding to_field
to_field_lt n = omega arith

of_hex-snoc : (s : Text) (n c : ℕ) → of_hex n (s ++ (c ∷ [])) ≡ of_hex n s * 16 + hex_value c
of_hex-snoc [] n c = refl
of_hex-snoc (d ∷ s) n c = of_hex-snoc s (n * 16 + hex_value d) c

hex_value-hex_digit : (d : ℕ) → d < 16 → hex_value (hex_digit d) ≡ d
hex_value-hex_digit d h = ground arith

of_hex-hex_pad : (w n : ℕ) → n < 16 ^ w → of_hex 0 (hex_pad w n) ≡ n
unfolding hex_pad
of_hex-hex_pad zero n h = ground arith
of_hex-hex_pad (suc w) n h = ground (
  arith,
  of_hex-snoc (hex_pad w (n / 16)) 0 (hex_digit (n % 16)),
  hex_value-hex_digit (n % 16),
  of_hex-hex_pad w (n / 16),
)

length-snoc : (s : Text) (c : ℕ) → length (s ++ (c ∷ [])) ≡ suc (length s)
length-snoc [] c = refl
length-snoc (d ∷ s) c = ap suc (length-snoc s c)

length-hex_pad : (w n : ℕ) → length (hex_pad w n) ≡ w
unfolding hex_pad
length-hex_pad zero n = refl
length-hex_pad (suc w) n =
    length-snoc (hex_pad w (n / 16)) (hex_digit (n % 16)) ∙ ap suc (length-hex_pad w (n / 16))

all_chars-snoc :
    (p : ℕ → Bool) (s : Text) (c : ℕ)
    → all_chars p s ≡ true
    → p c ≡ true
    → all_chars p (s ++ (c ∷ [])) ≡ true
all_chars-snoc p [] c h k = ground arith
all_chars-snoc p (d ∷ s) c h k = ground (arith, all_chars-snoc p s c)

is_hex-hex_digit : (d : ℕ) → d < 16 → is_hex (hex_digit d) ≡ true
unfolding is_hex
is_hex-hex_digit d h = ground arith

all_chars-hex_pad : (w n : ℕ) → all_chars is_hex (hex_pad w n) ≡ true
unfolding hex_pad
all_chars-hex_pad zero n = refl
all_chars-hex_pad (suc w) n =
    all_chars-snoc is_hex (hex_pad w (n / 16)) (hex_digit (n % 16)) (all_chars-hex_pad w (n / 16))
      (is_hex-hex_digit (n % 16) (omega arith))

lt_width : (n : ℕ) → n < field_modulus → n < 16 ^ 64
lt_width n h = omega arith

parse_hex :
    (s : Text) (v : ℕ)
    → length s ≡ 64
    → all_chars is_hex s ≡ true
    → of_hex 0 s ≡ v
    → v < field_modulus
    → parse_field (Value.str (b'0' ∷ b'x' ∷ s)) ≡ some v
unfolding parse_field
parse_hex s v len hex val lt = ground (arith, len, hex, val)

-- Printing any number and parsing the text gives the number reduced into the field, which is below
-- the modulus; and whatever value parses to a number, the number is below the modulus, so that
-- printing and parsing it gives it again.
pub parse_field-field_hex :
    (n : ℕ)
    → (parse_field (Value.str (field_hex n)) ≡ some (to_field n)) × (to_field n < field_modulus)
unfolding field_hex
parse_field-field_hex n = (
  parse_hex (hex_pad 64 (to_field n)) (to_field n) (length-hex_pad 64 (to_field n))
      (all_chars-hex_pad 64 (to_field n))
      (of_hex-hex_pad 64 (to_field n) (lt_width (to_field n) (to_field_lt n))) (to_field_lt n),
  to_field_lt n,
)

pub parse_field_lt : (v : Value) (n : ℕ) → parse_field v ≡ some n → n < field_modulus
unfolding parse_field
parse_field_lt (Value.num (micro (pos m))) n h = ground arith
parse_field_lt (Value.str []) n h = ground arith
parse_field_lt (Value.str (a ∷ [])) n h = ground arith
parse_field_lt (Value.str (a ∷ b ∷ s)) n h = ground arith
parse_field_lt _ n h = ground arith

pub field_hex-parse_field :
    (v : Value) (n : ℕ)
    → parse_field v ≡ some n
    → (n < field_modulus) × (parse_field (Value.str (field_hex n)) ≡ some n)
unfolding to_field
field_hex-parse_field v n h =
    (parse_field_lt v n h, ground (arith, parse_field-field_hex n, parse_field_lt v n h))

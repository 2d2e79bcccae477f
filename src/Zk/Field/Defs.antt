-- ===== src/Zk/Field/Defs.antt =====
-- `toField`, `fieldHex` and `parseField` on numbers that are not negative.
use ligis.Prelude.{
  ℕ, zero, suc, ◌+◌, ◌-◌, ◌*◌, ◌/◌, ◌%◌, ◌^◌, Bool, ◌&&◌, Option, none, some, [], ◌∷◌, ◌++◌, leb,
  ltb, ◌==◌, if◌then◌else◌, length,
}
use ligis.Prelude.Int.{pos}
use ligis.Wallet.Chars.{Text, all_chars, is_digit, is_hex, to_ℕ}
use ligis.Wallet.Number.{micro}
use ligis.Wallet.Types.{Value}

abbrev pub field_modulus : ℕ
field_modulus = 21888242871839275222246405745257275088548364400416034343698204186575808495617

unfoldable pub to_field : ℕ → ℕ
to_field n = (n % field_modulus + field_modulus) % field_modulus

abbrev pub hex_digit : ℕ → ℕ
hex_digit n = if ltb n 10 then b'0' + n else b'a' + (n - 10)

-- `toString(16).padStart(width, "0")` of a number below `16 ^ width`.
unfoldable pub hex_pad : ℕ → ℕ → Text
hex_pad zero n = []
hex_pad (suc width) n = hex_pad width (n / 16) ++ (hex_digit (n % 16) ∷ [])

unfoldable pub field_hex : ℕ → Text
unfolding to_field
field_hex v = b'0' ∷ b'x' ∷ hex_pad 64 (to_field v)

abbrev pub hex_value : ℕ → ℕ
hex_value c = if leb c b'9' then c - b'0' else if leb c b'F' then c - b'A' + 10 else c - b'a' + 10

abbrev pub of_hex : ℕ → Text → ℕ
of_hex n [] = n
of_hex n (c ∷ s) = of_hex (n * 16 + hex_value c) s

abbrev pub below_modulus : ℕ → Option ℕ
below_modulus n = if ltb n field_modulus then some n else none

abbrev pub is_decimal : Text → Bool
is_decimal s = leb 1 (length s) && (leb (length s) 78 && all_chars is_digit s)

abbrev pub parse_decimal : Text → Option ℕ
parse_decimal s = if is_decimal s then below_modulus (to_ℕ s) else none

-- The texts of /^(0x[0-9a-fA-F]{1,64}|[0-9]{1,78})$/.
abbrev pub parse_text : Text → Option ℕ
parse_text (z ∷ x ∷ s) =
    if z == b'0' && x == b'x'
    then if leb 1 (length s) && (leb (length s) 64 && all_chars is_hex s)
      then below_modulus (of_hex 0 s)
      else none
    else parse_decimal (z ∷ x ∷ s)
parse_text s = parse_decimal s

unfoldable pub parse_field : Value → Option ℕ
parse_field (Value.num (micro (pos n))) =
    if n % 1000000 == 0 && leb n ((2 ^ 53 - 1) * 1000000) then some (n / 1000000) else none
parse_field (Value.str s) = parse_text s
parse_field _ = none

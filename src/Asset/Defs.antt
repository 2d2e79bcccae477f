-- ===== src/Asset/Defs.antt =====
-- Amounts of payment tokens: decimal text and base units. Base units, which the source keeps as
-- decimal text, are numbers.
use ligis.Prelude.{
  ℕ, zero, suc, ◌+◌, ◌-◌, ◌*◌, ◌/◌, ◌%◌, ◌^◌, Bool, not, ◌&&◌, Option, none, some, List, [], ◌∷◌,
  ◌++◌, ltb, ◌==◌, if◌then◌else◌, length,
}
use ligis.Wallet.Chars.{Text, codes, is_numeric, to_ℕ, trim, all_chars}
use ligis.Zk.Label.Defs.{split}

pub data TokenSymbol : Type 0 where
  zec usdc : TokenSymbol

abbrev pub token_decimals : TokenSymbol → ℕ
token_decimals TokenSymbol.zec = 8
token_decimals TokenSymbol.usdc = 6

abbrev pub symbol_text : TokenSymbol → Text
symbol_text TokenSymbol.zec = codes "ZEC"
symbol_text TokenSymbol.usdc = codes "USDC"

abbrev pub take : ℕ → Text → Text
take zero s = []
take (suc n) [] = []
take (suc n) (c ∷ s) = c ∷ take n s

abbrev pub drop : ℕ → Text → Text
drop zero s = s
drop (suc n) [] = []
drop (suc n) (c ∷ s) = drop n s

abbrev pub zeros : ℕ → Text
zeros zero = []
zeros (suc n) = b'0' ∷ zeros n

-- `padEnd(width, "0")`
abbrev pub pad_end : ℕ → Text → Text
pad_end width s = s ++ zeros (width - length s)

abbrev pub has_nonzero : Text → Bool
has_nonzero s = not (all_chars (λ c. c == b'0') s)

-- `(frac.slice(0, decimals) || "0").padEnd(decimals, "0")`, as a number.
abbrev pub fraction_units : ℕ → Text → ℕ
fraction_units decimals frac = elim (take decimals frac) [
  | [] ↦ 0
  | c ∷ s ↦ to_ℕ (pad_end decimals (take decimals frac))
]

-- The match of /^([0-9]+)(?:\.([0-9]+))?$/, and the units; `none` where the source throws.
abbrev pub units_of : ℕ → List Text → Option ℕ
units_of decimals (whole ∷ []) =
    if is_numeric whole then some (to_ℕ whole * 10 ^ decimals + 0) else none
units_of decimals (whole ∷ frac ∷ []) =
    if not (is_numeric whole && is_numeric frac)
    then none
    else if ltb decimals (length frac) && has_nonzero (drop decimals frac)
    then none
    else some (to_ℕ whole * 10 ^ decimals + fraction_units decimals frac)
units_of decimals _ = none

-- `toBaseUnits` of a text.
unfoldable pub to_base_units : TokenSymbol → Text → Option ℕ
unfolding is_numeric to_ℕ trim
to_base_units symbol amount = units_of (token_decimals symbol) (split b'.' (trim amount))

-- `toString` of a number below `10 ^ fuel`.
unfoldable pub print_digits : ℕ → ℕ → Text
print_digits zero n = []
print_digits (suc fuel) n =
    let rest = print_digits fuel (n / 10) in
    (if ltb n 10 then [] else rest) ++ ((b'0' + n % 10) ∷ [])

-- Base units have at most MAX_BASE_UNIT_DIGITS digits.
abbrev pub print : ℕ → Text
print n = print_digits 39 n

-- `toString().padStart(width, "0")` of a number below `10 ^ width`.
unfoldable pub dec_pad : ℕ → ℕ → Text
dec_pad zero n = []
dec_pad (suc width) n = dec_pad width (n / 10) ++ ((b'0' + n % 10) ∷ [])

-- `replace(/0+$/, "")`
abbrev pub strip_zeros : Text → Text
strip_zeros [] = []
strip_zeros (c ∷ s) =
    let rest = strip_zeros s in if length rest == 0 && c == b'0' then [] else c ∷ rest

-- `formatBaseUnits` up to the symbol.
unfoldable pub format_amount : TokenSymbol → ℕ → Text
unfolding dec_pad print_digits
format_amount symbol v =
    let scale = 10 ^ token_decimals symbol in
    let frac = strip_zeros (dec_pad (token_decimals symbol) (v % scale)) in
    print (v / scale) ++ (if length frac == 0 then [] else b'.' ∷ frac)

unfoldable pub format_base_units : TokenSymbol → ℕ → Text
unfolding format_amount
format_base_units symbol v = format_amount symbol v ++ (b' ' ∷ symbol_text symbol)

-- `scaleBaseUnitsByUsd` of dollar amounts that are numbers, not negative, and rounded to millionths.
unfoldable pub scale_base_units : ℕ → ℕ → ℕ → ℕ
scale_base_units amount num den = if den == 0 then amount else (amount * num + den / 2) / den

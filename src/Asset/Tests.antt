-- ===== src/Asset/Tests.antt =====
-- Runs, and the theorems at concrete inputs.
use ligis.Prelude.{◌+◌, ◌*◌, ◌/◌, ◌≤◌, ◌<◌, ◌≡◌, ◌⊎◌, refl, some, none, arith}
use ligis.Wallet.Chars.{codes}
use ligis.Asset.Defs.{
  TokenSymbol, to_base_units, format_amount, format_base_units, scale_base_units,
}
use ligis.Asset.RoundTrip.{to_base_units-format_amount}
use ligis.Asset.Scale.{scale_base_units-nearest}

quarter : format_base_units TokenSymbol.zec 25000000 ≡ codes "0.25 ZEC"
unfolding format_base_units
quarter = refl

parsed : to_base_units TokenSymbol.usdc (codes " 12.5 ") ≡ some 12500000
unfolding to_base_units
parsed = refl

too_fine : to_base_units TokenSymbol.usdc (codes "0.0000001") ≡ none
unfolding to_base_units
too_fine = refl

to_base_units-format_amount_example :
    to_base_units TokenSymbol.zec (format_amount TokenSymbol.zec 25000000) ≡ some 25000000
to_base_units-format_amount_example =
    to_base_units-format_amount TokenSymbol.zec 25000000 (omega arith)

-- A contracted price of 10 dollars for a quote of 15, of 100 units.
scale_base_units-nearest_example :
    (scale_base_units 100 10 15 * 15 ≤ 100 * 10 + 15 / 2)
    × (100 * 10 ≤ scale_base_units 100 10 15 * 15 + 15 / 2)
    × ((scale_base_units 100 10 15 ≤ 100) ⊎ (15 < 10))
scale_base_units-nearest_example = scale_base_units-nearest 100 10 15 (omega arith)

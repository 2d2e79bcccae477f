-- ===== src/Prelude/Double.antt =====
-- Floating-point numbers of the language: doubles that are not negative, not below 2 ^ -27 unless
-- zero, and finite, as multiples of 2 ^ -80. A result is rounded to 53 significant bits, to the
-- nearest, and to the even one of two that are as near.
use ligis.Prelude.{ℕ, zero, suc, ◌+◌, ◌*◌, ◌/◌, ◌%◌, ◌^◌, true, false, ltb, if◌then◌else◌}

-- The natural number nearest to `n / d`.
abbrev pub half_even : ℕ → ℕ → ℕ
half_even n d =
    let q = n / d in
    let r = n % d * 2 in if ltb r d then q else if ltb d r then q + 1 else q + q % 2

-- `n / d` rounded to a multiple of the first `ulp * 2 ^ k` that leaves at most 53 bits.
unfoldable pub round_from : ℕ → ℕ → ℕ → ℕ → ℕ
round_from zero ulp n d = half_even n (d * ulp) * ulp
round_from (suc fuel) ulp n d = elim (ltb n (2 ^ 53 * (d * ulp))) [
  | true ↦ half_even n (d * ulp) * ulp
  | false ↦ round_from fuel (ulp * 2) n d
]

-- A double is below 2 ^ 1024, which is below 2 ^ (53 + 1100) multiples.
unfoldable pub round : ℕ → ℕ → ℕ
unfolding round_from
round n d = round_from 1100 1 n d

-- The double of the fraction `n / d`, of an integer for `d` one.
abbrev pub of_ratio : ℕ → ℕ → ℕ
of_ratio n d = round (n * 2 ^ 80) d

abbrev pub add : ℕ → ℕ → ℕ
add x y = round (x + y) 1

abbrev pub multiply : ℕ → ℕ → ℕ
multiply x y = round (x * y) (2 ^ 80)

-- The greatest natural number that is not above a double.
abbrev pub floor : ℕ → ℕ
floor x = x / 2 ^ 80

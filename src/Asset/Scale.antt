-- ===== src/Asset/Scale.antt =====
-- The scaling of base units by a ratio of dollar amounts.
use ligis.Prelude.{
  ℕ, ◌+◌, ◌-◌, ◌*◌, ◌/◌, ◌≤◌, ◌<◌, ◌≡◌, ◌⊎◌, subst, inl, inr, arith, Bool-cases, true, ltb,
}
use ligis.Asset.Defs.{scale_base_units}

division : (x d : ℕ) → 0 < d → (x / d * d ≤ x) × (x < x / d * d + d)
division x d h = grind arith

not_above : (a n j k : ℕ) → 0 < n + j → (a + 1 + k) * (n + j) ≤ a * n + (n + j) / 2 → ⊥
not_above a n j k h l = omega arith

above : (a r : ℕ) → ltb a r ≡ true → r ≡ a + 1 + (r - a - 1)
above a r h = ground arith

filled : (n d : ℕ) → n ≤ d → d ≡ n + (d - n)
filled n d h = omega arith

scaled_le : (a n d r : ℕ) → 0 < d → n ≤ d → r * d ≤ a * n + d / 2 → r ≤ a
scaled_le a n d r h k l = elim (Bool-cases (ltb a r)) [
  | inl e ↦ absurd (
      not_above a n (d - n) (r - a - 1) (ground (arith, h, k)) (
        subst (λ x. x * (n + (d - n)) ≤ a * n + (n + (d - n)) / 2) (above a r e)
          (subst (λ x. r * x ≤ a * n + x / 2) (filled n d k) l)))
  | inr e ↦ ground (arith, e)
]

-- A scaled amount is the exact ratio rounded to the nearest unit, for a denominator that is not zero,
-- and it is not above the amount where the numerator is not above the denominator.
pub scale_base_units-nearest :
    (amount num den : ℕ)
    → 0 < den
    → (scale_base_units amount num den * den ≤ amount * num + den / 2)
      × (amount * num ≤ scale_base_units amount num den * den + den / 2)
      × ((scale_base_units amount num den ≤ amount) ⊎ (den < num))
unfolding scale_base_units
scale_base_units-nearest amount num den h =
    let d = division (amount * num + den / 2) den h in
    let low : scale_base_units amount num den * den ≤ amount * num + den / 2 =
      ground (arith, h, d.0) in
    (
      low,
      ground (arith, h, d.1),
      elim (Bool-cases (ltb den num)) [
        | inl e ↦ inr (ground (arith, e))
        | inr e ↦
            inl
              (scaled_le amount num den (scale_base_units amount num den) h (ground (arith, e)) low)
      ],
    )

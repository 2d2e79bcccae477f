-- ===== src/Wallet/Number.antt =====
-- JavaScript numbers: finite ones in millionths, the infinities, and `NaN`, with which no comparison
-- holds.
use ligis.Prelude.{
  ℕ, ◌+◌, ◌*◌, ◌/◌, ◌%◌, ◌^◌, ◌-◌, ◌≡◌, refl, Bool, true, false, ◌&&◌, arith, ltb, leb, ◌==◌,
}
use ligis.Prelude.Int.{ℤ, pos, pos_part, neg_part}

pub data Number : Type 0 where
  nan pos_inf neg_inf : Number
  micro : ℤ → Number

abbrev pub ltb_ℤ : ℤ → ℤ → Bool
ltb_ℤ a b = ltb (pos_part a + neg_part b) (pos_part b + neg_part a)

-- `a < b`
abbrev pub lt : Number → Number → Bool
lt (micro a) (micro b) = ltb_ℤ a b
lt (micro a) pos_inf = true
lt neg_inf (micro b) = true
lt neg_inf pos_inf = true
lt _ _ = false

abbrev pub is_nan : Number → Bool
is_nan nan = true
is_nan _ = false

abbrev pub is_finite : Number → Bool
is_finite (micro a) = true
is_finite _ = false

-- The number of a natural number.
abbrev pub of_ℕ : ℕ → Number
of_ℕ n = micro (pos (n * 1000000))

-- `Number.isSafeInteger`, for what is not negative, with the integer.
abbrev pub is_positive_int : Number → Bool
is_positive_int (micro (pos n)) = n % 1000000 == 0 && (ltb 0 n && leb n ((2 ^ 53 - 1) * 1000000))
is_positive_int _ = false

abbrev pub to_int : Number → ℕ
to_int (micro (pos n)) = n / 1000000
to_int _ = 0

-- What is not above a bound is not above what bounds that, unless it is `NaN` in the middle.
pub lt-false_trans :
    (a b c : Number) → is_nan b ≡ false → lt b a ≡ false → lt c b ≡ false → lt c a ≡ false
lt-false_trans (micro a) (micro b) (micro c) n h k = ground arith
lt-false_trans nan (micro b) (micro c) n h k = refl
lt-false_trans _ _ _ n h k = ground arith

pub lt-asym : (a b : Number) → lt a b ≡ true → lt b a ≡ false
lt-asym (micro a) (micro b) h = ground arith
lt-asym _ _ h = ground arith

pub finite-not_nan : (n : Number) → is_finite n ≡ true → is_nan n ≡ false
finite-not_nan n h = ground arith

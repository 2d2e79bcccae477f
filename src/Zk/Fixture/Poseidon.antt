-- ===== src/Zk/Fixture/Poseidon.antt =====
-- A function on lists without collisions, in the place of Poseidon.
use ligis.Prelude.{ℕ, suc, ◌+◌, ◌-◌, ◌*◌, ◌≤◌, ◌≡◌, ◌≢◌, refl, ap, List, [], ◌∷◌, arith}
use mathlib.Core.Path.{ap₂}

abbrev pub pair : ℕ → ℕ → ℕ
pair a b = (a + b) * (a + b) + a

square_lt : (n k : ℕ) → n * n + 2 * n + 1 ≤ (n + suc k) * (n + suc k)
square_lt n k = omega arith

pair_sum : (a b c d : ℕ) → pair a b ≡ pair c d → a + b ≡ c + d
pair_sum a b c d h =
    grind (arith, square_lt (a + b) (c + d - (a + b) - 1), square_lt (c + d) (a + b - (c + d) - 1))

pub pair_injective : (a b c d : ℕ) → pair a b ≡ pair c d → (a ≡ c) × (b ≡ d)
pair_injective a b c d h =
    let e = pair_sum a b c d h in let f = ap (λ s. s * s) e in (omega arith, omega arith)

abbrev pub toy : List ℕ → ℕ
toy [] = 1
toy (x ∷ xs) = pair x (toy xs) + 2

pub toy_injective : (xs ys : List ℕ) → toy xs ≡ toy ys → xs ≡ ys
toy_injective [] [] h = refl
toy_injective [] (y ∷ ys) h = ground arith
toy_injective (x ∷ xs) [] h = ground arith
toy_injective (x ∷ xs) (y ∷ ys) h =
    let e = pair_injective x (toy xs) y (toy ys) (omega arith) in
    ap₂ (λ a l. a ∷ l) e.0 (toy_injective xs ys e.1)

pub toy_nonzero : (xs : List ℕ) → toy xs ≢ 0
toy_nonzero [] h = omega arith
toy_nonzero (x ∷ xs) h = omega arith

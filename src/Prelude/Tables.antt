-- ===== src/Prelude/Tables.antt =====
-- A JavaScript object or `Map` used as a table: keys in the order of their first assignment.
use Prim.Native.Nat.{ℕ, ◌+◌}
use mathlib.Core.Path.{◌≡◌, refl}
use mathlib.Core.Option.{Option, none, some}
use mathlib.Core.List.{List, [], ◌∷◌}
use native.Mathlib.Omega.{arith}
use ligis.Prelude.Tests.{◌==◌, if◌then◌else◌}

abbrev pub Table {ℓ} : Type ℓ → Type ℓ
Table V = List (ℕ × V)

module _ {ℓ} {V : Type ℓ} where
  -- `t[k]`, `t.get(k)`
  abbrev pub get : ℕ → Table V → Option V
  get k [] = none
  get k ((j, v) ∷ t) = if k == j then some v else get k t

  -- `t[k] = v`, `t.set(k, v)`
  abbrev pub put : ℕ → V → Table V → Table V
  put k v [] = (k, v) ∷ []
  put k v ((j, w) ∷ t) = if k == j then (k, v) ∷ t else (j, w) ∷ put k v t

  -- `Object.values(t)`
  abbrev pub values : Table V → List V
  values [] = []
  values ((k, v) ∷ t) = v ∷ values t

  pub get-put :
      (j k : ℕ) (v : V) (t : Table V) → get j (put k v t) ≡ (if j == k then some v else get j t)
  get-put j k v [] = refl
  get-put j k v ((i, w) ∷ t) = ground (arith, get-put j k v t)

  -- The weight of all entries, key and value.
  abbrev pub weight : (ℕ → V → ℕ) → Table V → ℕ
  weight w [] = 0
  weight w ((k, v) ∷ t) = w k v + weight w t

  pub weight-put_new :
      (w : ℕ → V → ℕ) (k : ℕ) (v : V) (t : Table V)
      → get k t ≡ none
      → weight w (put k v t) ≡ weight w t + w k v
  weight-put_new w k v [] h = omega arith
  weight-put_new w k v ((j, u) ∷ t) h = ground (arith, weight-put_new w k v t)

  pub weight-put_old :
      (w : ℕ → V → ℕ) (k : ℕ) (v old : V) (t : Table V)
      → get k t ≡ some old
      → weight w (put k v t) + w k old ≡ weight w t + w k v
  weight-put_old w k v old [] h = cc
  weight-put_old w k v old ((j, u) ∷ t) h = ground (arith, weight-put_old w k v old t)

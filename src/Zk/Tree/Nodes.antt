-- ===== src/Zk/Tree/Nodes.antt =====
-- The sparse levels hold the nodes of the full tree.
use ligis.Prelude.{
  ℕ, zero, suc, ◌+◌, ◌*◌, ◌/◌, ◌≡◌, refl, Bool, false, ◌||◌, none, some, List, [], ◌∷◌, arith, ◌==◌,
  if◌then◌else◌, Table, get, get-put,
}
use ligis.Zk.Tree.Defs.{node_at, add_parent, add_parents, next_level}

-- The full binary tree over the leaves of a function, level by level.
abbrev pub full_node : {F : Type 0} → (F → F → F) → (ℕ → F) → ℕ → ℕ → F
full_node hash leaf zero i = leaf i
full_node hash leaf (suc l) i =
    hash (full_node hash leaf l (i * 2)) (full_node hash leaf l (i * 2 + 1))

abbrev is_below : {F : Type 0} → ℕ → List (ℕ × F) → Bool
is_below j [] = false
is_below j ((i, v) ∷ es) = (i / 2 == j) || is_below j es

module _ {F : Type 0} (hash : F → F → F) (z : F) (cur : Table F) where
  parent : ℕ → F
  parent j = hash (node_at hash z cur (j * 2)) (node_at hash z cur (j * 2 + 1))

  get-add_parents :
      (es : List (ℕ × F)) (next : Table F) (j : ℕ)
      → get j (add_parents hash z cur es next) ≡ (elim (get j next) [
        | some v ↦ some v
        | none ↦ if is_below j es then some (parent j) else none
      ])
  unfolding add_parents parent
  get-add_parents [] next j = ground arith
  get-add_parents ((i, v) ∷ es) next j = ground (
    arith,
    get-add_parents es (add_parent hash z cur i next) j,
    get-put j (i / 2) (parent (i / 2)) next,
  )

  get-next_level :
      (j : ℕ) → get j (next_level hash z cur) ≡ (if is_below j cur then some (parent j) else none)
  unfolding next_level
  get-next_level j = get-add_parents cur [] j

absent_below :
    {F : Type 0} (es : Table F) (j : ℕ)
    → is_below j es ≡ false
    → (get (j * 2) es ≡ none) × (get (j * 2 + 1) es ≡ none)
absent_below [] j h = (refl, refl)
absent_below ((i, v) ∷ es) j h = ground (arith, absent_below es j)

-- The level reads as `f`, an absent node as the empty node.
abbrev pub Reads : {F : Type 0} → (F → F → F) → F → Table F → (ℕ → F) → Type 0
Reads hash z cur f = (i : ℕ) → node_at hash z cur i ≡ f i

pub next_level-Reads :
    {F : Type 0} (hash : F → F → F) (z : F) (cur : Table F) (f : ℕ → F)
    → Reads hash z cur f
    → Reads hash (hash z z) (next_level hash z cur) (λ j. hash (f (j * 2)) (f (j * 2 + 1)))
unfolding parent
next_level-Reads hash z cur f h j =
    ground (arith, get-next_level hash z cur j, absent_below cur j, h (j * 2), h (j * 2 + 1))

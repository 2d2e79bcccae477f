-- ===== src/Zk/Tree/Defs.antt =====
-- The sparse Merkle tree. Poseidon of two nodes is the argument `hash`, the empty leaf `zero_leaf`;
-- `levels` and `zeros` of the source are one list here, each level with its empty node.
use ligis.Prelude.{
  ℕ, zero, suc, ◌+◌, ◌-◌, ◌*◌, ◌/◌, ◌%◌, ◌^◌, Bool, true, false, Option, none, some, List, [], ◌∷◌,
  ltb, ◌==◌, if◌then◌else◌, length, Table, get, put,
}

module _ {F : Type 0} (hash : F → F → F) where
  -- `map.get(i) ?? zero`
  abbrev pub node_at : F → Table F → ℕ → F
  node_at z level i = elim (get i level) [ none ↦ z | some v ↦ v ]

  -- The body of the inner loop, for the key `idx` of the level `cur`.
  abbrev pub add_parent : F → Table F → ℕ → Table F → Table F
  add_parent z cur idx next = elim (get (idx / 2) next) [
    | some _ ↦ next
    | none ↦
        put (idx / 2) (hash (node_at z cur (idx / 2 * 2)) (node_at z cur (idx / 2 * 2 + 1))) next
  ]

  unfoldable pub add_parents : F → Table F → List (ℕ × F) → Table F → Table F
  add_parents z cur [] next = next
  add_parents z cur ((idx, v) ∷ rest) next = add_parents z cur rest (add_parent z cur idx next)

  unfoldable pub next_level : F → Table F → Table F
  unfolding add_parents
  next_level z cur = add_parents z cur cur []

  unfoldable pub build_levels : ℕ → F → Table F → List (F × Table F)
  build_levels zero z cur = (z, cur) ∷ []
  build_levels (suc depth) z cur = (z, cur) ∷ build_levels depth (hash z z) (next_level z cur)

-- `leaves.map((l, i) => [i, l])`
abbrev pub indexed : {F : Type 0} → ℕ → List F → Table F
indexed i [] = []
indexed i (l ∷ ls) = (i, l) ∷ indexed (i + 1) ls

pub record CredentialTree (F : Type 0) : Type 0 where
  pub depth : ℕ
  pub levels : List (F × Table F)

-- `none` where the tree is full.
unfoldable pub build : {F : Type 0} → (F → F → F) → F → List F → ℕ → Option (CredentialTree F)
build hash zero_leaf leaves depth =
    if ltb (2 ^ depth) (length leaves)
    then none
    else some
        (record { depth = depth; levels = build_levels hash depth zero_leaf (indexed 0 leaves) })

-- `idx ^ 1`
abbrev pub sibling : ℕ → ℕ
sibling idx = if idx % 2 == 0 then idx + 1 else idx - 1

module _ {F : Type 0} where
  -- The node 0 of the last level.
  unfoldable pub last_node : F → List (F × Table F) → F
  last_node d [] = d
  last_node d ((z, level) ∷ []) = elim (get 0 level) [ none ↦ z | some v ↦ v ]
  last_node d (l ∷ m ∷ rest) = last_node d (m ∷ rest)

  unfoldable pub root : F → CredentialTree F → F
  unfolding last_node
  root zero_leaf tree = last_node zero_leaf tree.levels

  unfoldable pub siblings : ℕ → List (F × Table F) → ℕ → List F
  siblings zero levels idx = []
  siblings (suc depth) [] idx = []
  siblings (suc depth) ((z, level) ∷ levels) idx =
      (elim (get (sibling idx) level) [ none ↦ z | some v ↦ v ]) ∷ siblings depth levels (idx / 2)

  abbrev pub has_leaf : List (F × Table F) → ℕ → Bool
  has_leaf [] idx = false
  has_leaf ((z, level) ∷ levels) idx = elim (get idx level) [ none ↦ false | some v ↦ true ]

  -- `none` where there is no leaf at the index.
  unfoldable pub path : CredentialTree F → ℕ → Option (List F)
  unfolding siblings
  path tree idx =
      if has_leaf tree.levels idx then some (siblings tree.depth tree.levels idx) else none

-- `merkle_root` of circuit/src/main.nr: the bits of the index from the lowest.
unfoldable pub merkle_root : {F : Type 0} → (F → F → F) → F → ℕ → List F → F
merkle_root hash node idx [] = node
merkle_root hash node idx (p ∷ ps) =
    merkle_root hash (if idx % 2 == 1 then hash p node else hash node p) (idx / 2) ps

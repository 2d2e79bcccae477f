-- ===== src/Zk/Tree/Path.antt =====
-- The path of a leaf leads to the root, and only the tree's leaves have such a path.
use ligis.Prelude.{
  ℕ, zero, suc, ◌+◌, ◌*◌, ◌/◌, ◌%◌, ◌^◌, ◌≤◌, ◌<◌, ◌≡◌, ◌⊎◌, inl, inr, refl, sym, ap, ◌∙◌, subst,
  some, List, [], ◌∷◌, arith, ◌==◌, if◌then◌else◌, length, Table, ltb,
}
use ligis.Zk.Tree.Defs.{
  node_at, next_level, build_levels, indexed, CredentialTree, build, root, sibling, siblings,
  has_leaf, path, merkle_root,
}
use ligis.Zk.Tree.Nodes.{full_node, Reads, next_level-Reads}
use ligis.Zk.Tree.Root.{leaf_or, full_node-next, indexed-Reads, root-build}

pub lt_capacity : {a b c : ℕ} → b ≤ c → a < b → a < c
lt_capacity h k = omega arith

half_lt : (d i : ℕ) → i < 2 ^ suc d → i / 2 < 2 ^ d
half_lt d i h = ground arith

lt_one : (i : ℕ) → i < 2 ^ 0 → i ≡ 0
lt_one i h = ground arith

-- One level: the node and its sibling, in the order of the index's lowest bit.
level_step :
    {F : Type 0} (hash : F → F → F) (z : F) (cur : Table F) (f : ℕ → F) (idx : ℕ)
    → Reads hash z cur f
    → (if idx % 2 == 1
        then hash (node_at hash z cur (sibling idx)) (f idx)
        else hash (f idx) (node_at hash z cur (sibling idx)))
      ≡ hash (f (idx / 2 * 2)) (f (idx / 2 * 2 + 1))
level_step hash z cur f idx h = ground (arith, h (sibling idx))

merkle_root-siblings :
    {F : Type 0} (hash : F → F → F) (d : ℕ) (z : F) (cur : Table F) (f : ℕ → F) (idx : ℕ)
    → Reads hash z cur f
    → idx < 2 ^ d
    → merkle_root hash (f idx) idx (siblings d (build_levels hash d z cur) idx)
      ≡ full_node hash f d 0
unfolding merkle_root siblings build_levels
merkle_root-siblings hash zero z cur f idx h lt = ap f (lt_one idx lt)
merkle_root-siblings hash (suc d) z cur f idx h lt =
    ap
      (λ n.
        merkle_root hash n (idx / 2)
          (siblings d (build_levels hash d (hash z z) (next_level hash z cur)) (idx / 2)))
      (level_step hash z cur f idx h)
    ∙ merkle_root-siblings hash d (hash z z) (next_level hash z cur)
        (λ j. hash (f (j * 2)) (f (j * 2 + 1))) (idx / 2) (next_level-Reads hash z cur f h)
        (half_lt d idx lt)
    ∙ full_node-next hash f d 0

has_leaf-indexed :
    {F : Type 0} (z : F) (levels : List (F × Table F)) (leaves : List F) (k i j : ℕ)
    → j ≡ k + i
    → has_leaf ((z, indexed k leaves) ∷ levels) j ≡ ltb i (length leaves)
has_leaf-indexed z levels [] k i j e = ground arith
has_leaf-indexed z levels (l ∷ ls) k zero j e = ground arith
has_leaf-indexed z levels (l ∷ ls) k (suc i) j e =
    ground (arith, has_leaf-indexed z levels ls (k + 1) i j (omega arith))

eq_cases : (idx : ℕ) → (idx % 2 ≡ 1) ⊎ (idx % 2 ≡ 0)
eq_cases idx = ground arith

level_injective :
    {F : Type 0} (hash : F → F → F)
    → ((a b c d : F) → hash a b ≡ hash c d → (a ≡ c) × (b ≡ d))
    → (f : ℕ → F) (idx : ℕ) (node p : F)
    → (if idx % 2 == 1 then hash p node else hash node p)
      ≡ hash (f (idx / 2 * 2)) (f (idx / 2 * 2 + 1))
    → node ≡ f idx
level_injective hash inj f idx node p h = elim (eq_cases idx) [
  | inl odd ↦ ground (arith, inj p node (f (idx / 2 * 2)) (f (idx / 2 * 2 + 1)))
  | inr even ↦ ground (arith, inj node p (f (idx / 2 * 2)) (f (idx / 2 * 2 + 1)))
]

merkle_root-injective :
    {F : Type 0} (hash : F → F → F)
    → ((a b c d : F) → hash a b ≡ hash c d → (a ≡ c) × (b ≡ d))
    → (ps : List F) (f : ℕ → F) (idx : ℕ) (node : F) → idx < 2 ^ length ps
    → merkle_root hash node idx ps ≡ full_node hash f (length ps) 0
    → node ≡ f idx
unfolding merkle_root
merkle_root-injective hash inj [] f idx node lt h = h ∙ ap f (sym (lt_one idx lt))
merkle_root-injective hash inj (p ∷ ps) f idx node lt h = level_injective hash inj f idx node p (
    merkle_root-injective hash inj ps (λ j. hash (f (j * 2)) (f (j * 2 + 1))) (idx / 2)
      (if idx % 2 == 1 then hash p node else hash node p) (half_lt (length ps) idx lt)
      (h ∙ sym (full_node-next hash f (length ps) 0)))

build-cases :
    {F : Type 0} (hash : F → F → F) (z : F) (leaves : List F) (depth : ℕ) (t : CredentialTree F)
    → build hash z leaves depth ≡ some t
    → (length leaves ≤ 2 ^ depth)
      × (t ≡ record { depth = depth; levels = build_levels hash depth z (indexed 0 leaves) })
unfolding build
build-cases hash z leaves depth t h = ground arith

has_leaf-build :
    {F : Type 0} (hash : F → F → F) (z : F) (leaves : List F) (depth idx : ℕ)
    → has_leaf (build_levels hash depth z (indexed 0 leaves)) idx ≡ ltb idx (length leaves)
unfolding build_levels
has_leaf-build hash z leaves zero idx = has_leaf-indexed z [] leaves 0 idx idx (omega arith)
has_leaf-build hash z leaves (suc depth) idx =
    has_leaf-indexed z (build_levels hash depth (hash z z) (next_level hash z (indexed 0 leaves)))
      leaves 0 idx idx (omega arith)

path-build :
    {F : Type 0} (hash : F → F → F) (z : F) (leaves : List F) (depth : ℕ) (t : CredentialTree F)
    (idx : ℕ)
    → build hash z leaves depth ≡ some t
    → idx < length leaves
    → path t idx ≡ some (siblings depth (build_levels hash depth z (indexed 0 leaves)) idx)
unfolding path
path-build hash z leaves depth t idx h lt =
    ground (arith, build-cases hash z leaves depth t h, has_leaf-build hash z leaves depth idx)

length-siblings :
    {F : Type 0} (hash : F → F → F) (d : ℕ) (z : F) (cur : Table F) (idx : ℕ)
    → length (siblings d (build_levels hash d z cur) idx) ≡ d
unfolding siblings build_levels
length-siblings hash zero z cur idx = refl
length-siblings hash (suc d) z cur idx =
    ap suc (length-siblings hash d (hash z z) (next_level hash z cur) (idx / 2))

-- Every leaf of a built tree has a path, as long as the tree is deep, along which the circuit folds
-- the leaf to the tree's root.
pub path-merkle_root :
    {F : Type 0} (hash : F → F → F) (z : F) (leaves : List F) (depth : ℕ) (t : CredentialTree F)
    (idx : ℕ)
    → build hash z leaves depth ≡ some t
    → idx < length leaves
    → (p : List F) × (path t idx ≡ some p)
      × (length p ≡ depth)
      × (merkle_root hash (leaf_or z leaves idx) idx p ≡ root z t)
path-merkle_root hash z leaves depth t idx h lt = ground (
  arith,
  path-build hash z leaves depth t idx h lt,
  length-siblings hash depth z (indexed 0 leaves) idx,
  merkle_root-siblings hash depth z (indexed 0 leaves) (leaf_or z leaves) idx
      (indexed-Reads hash z leaves) (lt_capacity ((build-cases hash z leaves depth t h).0) lt),
  root-build hash z leaves depth t h,
)

-- Where the hash of two nodes determines them, a path as long as the tree is deep folds to the
-- tree's root only from the leaf that the tree has at that index, the empty leaf behind the last.
pub merkle_root_sound :
    {F : Type 0} (hash : F → F → F)
    → ((a b c d : F) → hash a b ≡ hash c d → (a ≡ c) × (b ≡ d))
    → (z : F) (leaves : List F) (depth : ℕ) (t : CredentialTree F) (leaf : F) (idx : ℕ) (p : List F)
    → build hash z leaves depth ≡ some t
    → length p ≡ depth
    → idx < 2 ^ depth
    → merkle_root hash leaf idx p ≡ root z t
    → leaf ≡ leaf_or z leaves idx
merkle_root_sound hash inj z leaves depth t leaf idx p built len lt h =
    merkle_root-injective hash inj p (leaf_or z leaves) idx leaf
      (subst (λ n. idx < 2 ^ n) (sym len) lt)
      (h
        ∙ root-build hash z leaves depth t built
        ∙ ap (λ n. full_node hash (leaf_or z leaves) n 0) (sym len))

pub fits :
    {F : Type 0} (hash : F → F → F) (z : F) (leaves : List F) (depth : ℕ) (t : CredentialTree F)
    → build hash z leaves depth ≡ some t
    → length leaves ≤ 2 ^ depth
fits hash z leaves depth t h = (build-cases hash z leaves depth t h).0

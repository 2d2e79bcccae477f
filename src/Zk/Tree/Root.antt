-- ===== src/Zk/Tree/Root.antt =====
-- The root of the sparse tree.
use ligis.Prelude.{ℕ, zero, suc, ◌+◌, ◌*◌, ◌≡◌, refl, ◌∙◌, some, List, [], ◌∷◌, arith, Table}
use mathlib.Core.Path.{ap₂}
use ligis.Zk.Tree.Defs.{
  node_at, next_level, build_levels, indexed, CredentialTree, build, last_node, root,
}
use ligis.Zk.Tree.Nodes.{full_node, Reads, next_level-Reads}

-- The leaf at an index, the empty leaf behind the last.
abbrev pub leaf_or : {F : Type 0} → F → List F → ℕ → F
leaf_or z [] i = z
leaf_or z (l ∷ ls) zero = l
leaf_or z (l ∷ ls) (suc i) = leaf_or z ls i

node_at-indexed :
    {F : Type 0} (hash : F → F → F) (z : F) (ls : List F) (k i m : ℕ)
    → m ≡ k + i
    → node_at hash z (indexed k ls) m ≡ leaf_or z ls i
node_at-indexed hash z [] k i m h = refl
node_at-indexed hash z (l ∷ ls) k zero m h = ground arith
node_at-indexed hash z (l ∷ ls) k (suc i) m h =
    ground (arith, node_at-indexed hash z ls (k + 1) i m (omega arith))

pub indexed-Reads :
    {F : Type 0} (hash : F → F → F) (z : F) (ls : List F)
    → Reads hash z (indexed 0 ls) (leaf_or z ls)
indexed-Reads hash z ls i = node_at-indexed hash z ls 0 i i (omega arith)

pub full_node-next :
    {F : Type 0} (hash : F → F → F) (f : ℕ → F) (d i : ℕ)
    → full_node hash (λ j. hash (f (j * 2)) (f (j * 2 + 1))) d i ≡ full_node hash f (suc d) i
full_node-next hash f zero i = refl
full_node-next hash f (suc d) i =
    ap₂ hash (full_node-next hash f d (i * 2)) (full_node-next hash f d (i * 2 + 1))

last_node-build_levels :
    {F : Type 0} (hash : F → F → F) (d : ℕ) (z : F) (cur : Table F) (f : ℕ → F) (default : F)
    → Reads hash z cur f
    → last_node default (build_levels hash d z cur) ≡ full_node hash f d 0
unfolding last_node build_levels
last_node-build_levels hash zero z cur f default h = h 0
last_node-build_levels hash (suc zero) z cur f default h =
    last_node-build_levels hash zero (hash z z) (next_level hash z cur) _ default
      (next_level-Reads hash z cur f h)
last_node-build_levels hash (suc (suc d)) z cur f default h =
    last_node-build_levels hash (suc d) (hash z z) (next_level hash z cur)
      (λ j. hash (f (j * 2)) (f (j * 2 + 1))) default (next_level-Reads hash z cur f h)
    ∙ full_node-next hash f (suc d) 0

-- The root of the sparse tree is the root of the full binary tree over the leaves, with the empty
-- leaf behind the last.
pub root-build :
    {F : Type 0} (hash : F → F → F) (z : F) (leaves : List F) (depth : ℕ) (t : CredentialTree F)
    → build hash z leaves depth ≡ some t
    → root z t ≡ full_node hash (leaf_or z leaves) depth 0
unfolding build root
root-build hash z leaves depth t h = ground (
  arith,
  h,
  last_node-build_levels hash depth z (indexed 0 leaves) (leaf_or z leaves) z
      (indexed-Reads hash z leaves),
)

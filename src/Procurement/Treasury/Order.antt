-- ===== src/Procurement/Treasury/Order.antt =====
-- The order in which obligations are considered: every one of them, none before one that outranks it.
use ligis.Prelude.{◌≡◌, true, false, List, [], ◌∷◌, arith, All, Bool-cases, inl, inr}
use mathlib.Core.List.{Perm}
use mathlib.Core.List.Perm
use ligis.Procurement.Treasury.{Obligation, comes_first, insert_sorted, sort}

abbrev pub IsSorted : List Obligation → Type 0
IsSorted [] = Unit
IsSorted (a ∷ rest) = All (λ b. comes_first a b ≡ true) rest × IsSorted rest

comes_first_total : (a b : Obligation) → comes_first a b ≡ false → comes_first b a ≡ true
comes_first_total a b h = ground arith

comes_first_trans :
    (a b c : Obligation) → comes_first a b ≡ true → comes_first b c ≡ true → comes_first a c ≡ true
comes_first_trans a b c h k = ground arith

All-comes_first :
    (a b : Obligation) (cs : List Obligation)
    → comes_first a b ≡ true
    → All (λ c. comes_first b c ≡ true) cs
    → All (λ c. comes_first a c ≡ true) cs
All-comes_first a b [] h k = tt
All-comes_first a b (c ∷ cs) h k = (comes_first_trans a b c h k.0, All-comes_first a b cs h k.1)

All-insert_sorted :
    (P : Obligation → Type 0) (a : Obligation) (bs : List Obligation)
    → P a
    → All P bs
    → All P (insert_sorted a bs)
unfolding insert_sorted
All-insert_sorted P a [] p h = (p, tt)
All-insert_sorted P a (b ∷ bs) p h = elim (Bool-cases (comes_first a b)) [
  | inl first ↦ rw (first, insert_sorted) (p, h)
  | inr later ↦ rw (later, insert_sorted) (h.0, All-insert_sorted P a bs p h.1)
]

insert_sorted-IsSorted :
    (a : Obligation) (bs : List Obligation) → IsSorted bs → IsSorted (insert_sorted a bs)
unfolding insert_sorted
insert_sorted-IsSorted a [] s = (tt, tt)
insert_sorted-IsSorted a (b ∷ bs) s = elim (Bool-cases (comes_first a b)) [
  | inl first ↦ rw (first, insert_sorted) ((first, All-comes_first a b bs first s.0), s)
  | inr later ↦
      rw (later, insert_sorted)
        (
          All-insert_sorted (λ c. comes_first b c ≡ true) a bs (comes_first_total a b later) s.0,
          insert_sorted-IsSorted a bs s.1,
        )
]

insert_sorted-perm : (a : Obligation) (bs : List Obligation) → Perm (insert_sorted a bs) (a ∷ bs)
unfolding insert_sorted
insert_sorted-perm a [] = Perm.refl _
insert_sorted-perm a (b ∷ bs) = elim (Bool-cases (comes_first a b)) [
  | inl first ↦ rw (first, insert_sorted) (Perm.refl _)
  | inr later ↦
      rw (later, insert_sorted)
        (Perm.trans (Perm.cons b (insert_sorted-perm a bs)) (Perm.swap a b bs))
]

pub sort-perm : (xs : List Obligation) → Perm (sort xs) xs
unfolding sort
sort-perm [] = Perm.refl _
sort-perm (a ∷ rest) = Perm.trans (insert_sorted-perm a (sort rest)) (Perm.cons a (sort-perm rest))

pub sort-IsSorted : (xs : List Obligation) → IsSorted (sort xs)
unfolding sort
sort-IsSorted [] = tt
sort-IsSorted (a ∷ rest) = insert_sorted-IsSorted a (sort rest) (sort-IsSorted rest)

-- ===== src/Procurement/Treasury/Fit.antt =====
-- What an allocation promises.
use ligis.Prelude.{
  ℕ, ◌+◌, ◌≤◌, ◌≡◌, ◌⊎◌, refl, true, false, List, [], ◌∷◌, ◌++◌, arith, All, total, Bool-cases, inl,
  inr,
}
use mathlib.Core.List.{Perm, perm_middle}
use mathlib.Core.List.Perm
use ligis.Prelude.Int.{ℤ, pos, pos_part, neg_part, ◌-ℤ◌, leb_ℤ, -ℤ_parts}
use ligis.Procurement.Treasury.{
  Obligation, AllocateInput, Allocation, is_deferrable, sort, allocate_from, allocate,
}
use ligis.Procurement.Treasury.Order.{sort-perm}

abbrev pub funded : Allocation → ℕ
funded out = total (λ (ob : Obligation). ob.amount.amount) out.fund

-- Nothing is funded, or what is funded fits the cash.
abbrev IsCovered : ℤ → Allocation → Type 0
IsCovered available out = (out.fund ≡ []) ⊎ (funded out + neg_part available ≤ pos_part available)

cover_more :
    (available : ℤ) (ob : Obligation) (out : Allocation)
    → leb_ℤ (pos ob.amount.amount) available ≡ true
    → IsCovered (available -ℤ pos ob.amount.amount) out
    → IsCovered available (record out { fund = ob ∷ out.fund })
cover_more available ob out fits (inl e) = inr (rw e (ground arith))
cover_more available ob out fits (inr h) =
    inr (ground (arith, -ℤ_parts available (pos ob.amount.amount)))

allocate_from-IsCovered :
    (available : ℤ) (obs : List Obligation) → IsCovered available (allocate_from available obs)
unfolding allocate_from
allocate_from-IsCovered available [] = inl refl
allocate_from-IsCovered available (ob ∷ rest) =
    elim (Bool-cases (leb_ℤ (pos ob.amount.amount) available)) [
      | inl fits ↦
          let left = available -ℤ pos ob.amount.amount in
          rw (fits, allocate_from)
            (cover_more available ob (allocate_from left rest) fits
              (allocate_from-IsCovered left rest))
      | inr over ↦ elim (Bool-cases (is_deferrable ob.priority)) [
        | inl d ↦ rw (over, d, allocate_from) (allocate_from-IsCovered available rest)
        | inr r ↦ rw (over, r, allocate_from) (allocate_from-IsCovered available rest)
      ]
    ]

abbrev pub all_of : Allocation → List Obligation
all_of out = out.fund ++ (out.defer ++ out.review)

allocate_from-perm :
    (available : ℤ) (obs : List Obligation) → Perm (all_of (allocate_from available obs)) obs
unfolding allocate_from
allocate_from-perm available [] = Perm.refl _
allocate_from-perm available (ob ∷ rest) =
    elim (Bool-cases (leb_ℤ (pos ob.amount.amount) available)) [
      | inl fits ↦
          rw (fits, allocate_from)
            (Perm.cons ob (allocate_from-perm (available -ℤ pos ob.amount.amount) rest))
      | inr over ↦
          let out = allocate_from available rest in
          let ih = allocate_from-perm available rest in
          elim (Bool-cases (is_deferrable ob.priority)) [
            | inl d ↦
                rw (over, d, allocate_from)
                  (Perm.trans (perm_middle out.fund (out.defer ++ out.review)) (Perm.cons ob ih))
            | inr r ↦
                rw (over, r, allocate_from)
                  (Perm.trans (Perm.append_left out.fund (perm_middle out.defer out.review))
                    (Perm.trans (perm_middle out.fund (out.defer ++ out.review)) (Perm.cons ob ih)))
          ]
    ]

-- Only deferrable obligations are deferred, and no deferrable one is sent to review.
abbrev IsClassified : Allocation → Type 0
IsClassified out =
    All (λ (ob : Obligation). is_deferrable ob.priority ≡ true) out.defer
    × All (λ (ob : Obligation). is_deferrable ob.priority ≡ false) out.review

allocate_from-classes :
    (available : ℤ) (obs : List Obligation) → IsClassified (allocate_from available obs)
unfolding allocate_from
allocate_from-classes available [] = (tt, tt)
allocate_from-classes available (ob ∷ rest) =
    elim (Bool-cases (leb_ℤ (pos ob.amount.amount) available)) [
      | inl fits ↦
          rw (fits, allocate_from) (allocate_from-classes (available -ℤ pos ob.amount.amount) rest)
      | inr over ↦
          let (ds, rs) = allocate_from-classes available rest in
          elim (Bool-cases (is_deferrable ob.priority)) [
            | inl d ↦ rw (over, d, allocate_from) ((d, ds), rs)
            | inr r ↦ rw (over, r, allocate_from) (ds, (r, rs))
          ]
    ]

-- Every obligation is funded, deferred or sent to review, as often as it was given; only deferrable
-- ones are deferred and no deferrable one is sent to review; and what is funded, if anything is,
-- leaves the reserve in the balance.
pub allocate_lem :
    (input : AllocateInput)
    → let out = allocate input in
      Perm (out.fund ++ (out.defer ++ out.review)) input.obligations
      × All (λ (ob : Obligation). is_deferrable ob.priority ≡ true) out.defer
      × All (λ (ob : Obligation). is_deferrable ob.priority ≡ false) out.review
      × ((out.fund ≡ []) ⊎ (funded out + input.reserve_floor ≤ input.balance))
unfolding allocate
allocate_lem input =
    let available = pos input.balance -ℤ pos input.reserve_floor in
    let obs = sort input.obligations in
    let (ds, rs) = allocate_from-classes available obs in
    (
      Perm.trans (allocate_from-perm available obs) (sort-perm input.obligations),
      ds,
      rs,
      elim (allocate_from-IsCovered available obs) [
        | inl e ↦ inl e
        | inr h ↦ inr (ground (arith, -ℤ_parts (pos input.balance) (pos input.reserve_floor)))
      ],
    )

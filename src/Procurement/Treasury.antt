-- ===== src/Procurement/Treasury.antt =====
-- packages/procurement/src/treasury.ts: which obligations the available cash can fund. The texts
-- of the reasons are left out; a due date is a number that orders as its text does.
pub mod Order
pub mod Fit
use ligis.Prelude.{
  ℕ, ◌+◌, Bool, true, false, ◌||◌, ◌&&◌, List, [], ◌∷◌, ltb, leb, ◌==◌, if◌then◌else◌,
}
use ligis.Prelude.Int.{ℤ, pos, ◌-ℤ◌, leb_ℤ}
use ligis.Procurement.Types.{Text, Instant, Money}

pub data Priority : Type 0 where
  critical normal deferrable : Priority

pub record Obligation : Type 0 where
  pub obligation_id : Text
  pub order_id : Text
  pub amount : Money
  pub due_at : Instant
  pub priority : Priority

pub record AllocateInput : Type 0 where
  pub obligations : List Obligation
  pub balance : ℕ
  pub reserve_floor : ℕ

pub record Allocation : Type 0 where
  pub fund : List Obligation
  pub defer : List Obligation
  pub review : List Obligation

abbrev pub priority_rank : Priority → ℕ
priority_rank Priority.critical = 0
priority_rank Priority.normal = 1
priority_rank Priority.deferrable = 2

-- The comparison of `sort` is at most 0: `a` need not come after `b`.
abbrev pub comes_first : Obligation → Obligation → Bool
comes_first a b =
    if priority_rank a.priority == priority_rank b.priority
    then leb a.due_at b.due_at
    else ltb (priority_rank a.priority) (priority_rank b.priority)

-- `Array.prototype.sort`, which is stable.
unfoldable pub insert_sorted : Obligation → List Obligation → List Obligation
insert_sorted a [] = a ∷ []
insert_sorted a (b ∷ bs) = if comes_first a b then a ∷ b ∷ bs else b ∷ insert_sorted a bs

unfoldable pub sort : List Obligation → List Obligation
sort [] = []
sort (a ∷ rest) = insert_sorted a (sort rest)

abbrev pub is_deferrable : Priority → Bool
is_deferrable Priority.deferrable = true
is_deferrable _ = false

-- The loop, from the cash that is left.
unfoldable pub allocate_from : ℤ → List Obligation → Allocation
allocate_from available [] = record { fund = []; defer = []; review = [] }
allocate_from available (ob ∷ rest) =
    let fits = leb_ℤ (pos ob.amount.amount) available in
    let out = allocate_from (if fits then available -ℤ pos ob.amount.amount else available) rest in
    if fits
    then record out { fund = ob ∷ out.fund }
    else if is_deferrable ob.priority
    then record out { defer = ob ∷ out.defer }
    else record out { review = ob ∷ out.review }

unfoldable pub allocate : AllocateInput → Allocation
allocate input =
    allocate_from (pos input.balance -ℤ pos input.reserve_floor) (sort input.obligations)

-- ===== src/Gate/Terms.antt =====
-- What the terms of the operator's mandate and the caller's say of a payment.
use ligis.Prelude.{
  ap, ltb, ◌≡◌, ◌↔◌, ◌⊎◌, refl, inl, inr, Bool, true, false, not, ◌&&◌, ◌||◌, Option, none, some,
  List, [], ◌∷◌, arith, find, Option-cases,
}
use ligis.Prelude.Int.{pos, negsuc}
use ligis.Prelude.Double.{round, of_ratio, add, multiply}
use ligis.Wallet.Chars.{Text}
use ligis.Wallet.Number.{Number, lt, of_ℕ}
use ligis.Gate.Defs.{
  VerdictStatus, Signal, PaymentMandate, PaymentIntent, is_stop, is_some, is_same_payee, is_match,
  check_payee, check_max, is_over_price, check_expected, check_intent, combine_signals,
  amount_signal, MandateResult, merge_constraint,
}

-- The terms of a mandate, none where there is no mandate.
abbrev pub payees_of : Option PaymentMandate → Option (List Text)
payees_of none = none
payees_of (some m) = m.payees

abbrev pub max_of : Option PaymentMandate → Option Number
max_of none = none
max_of (some m) = m.max_usd

abbrev pub expected_of : Option PaymentMandate → Option Number
expected_of none = none
expected_of (some m) = m.expected_usd

-- The payee is on the list.
abbrev pub lists : Text → Option (List Text) → Bool
lists payee none = false
lists payee (some payees) = is_match (find (is_same_payee payee) payees)

-- A list of payees that is not empty and lacks the payee.
abbrev pub excludes : Text → Option (List Text) → Bool
excludes payee none = false
excludes payee (some []) = false
excludes payee (some (p ∷ ps)) = not (lists payee (some (p ∷ ps)))

abbrev pub is_positive : Option Number → Bool
is_positive none = false
is_positive (some n) = lt (of_ℕ 0) n

abbrev pub exceeds_cap : Number → Option Number → Bool
exceeds_cap amount none = false
exceeds_cap amount (some n) = lt n amount

-- The amount is above 1.1 times the price, as doubles give the product, for what is positive.
abbrev pub is_above_price : Number → Number → Bool
is_above_price (Number.micro (pos n)) (Number.micro (pos a)) =
    ltb (multiply (of_ratio n 1000000) (of_ratio 11 10)) (of_ratio a 1000000)
is_above_price (Number.micro n) Number.pos_inf = true
is_above_price _ _ = false

tenth_added : add (of_ratio 1 1) (of_ratio 1 10) ≡ of_ratio 11 10
unfolding round
tenth_added = refl

is_over_price_lem : (n amount : Number) → is_over_price n amount ≡ is_above_price n amount
is_over_price_lem (Number.micro (pos n)) (Number.micro (pos a)) =
    ap (λ x. ltb (multiply (of_ratio n 1000000) x) (of_ratio a 1000000)) tenth_added
is_over_price_lem (Number.micro (pos n)) (Number.micro (negsuc a)) = refl
is_over_price_lem (Number.micro (negsuc n)) (Number.micro (pos a)) = refl
is_over_price_lem (Number.micro (negsuc n)) (Number.micro (negsuc a)) = refl
is_over_price_lem (Number.micro (pos n)) Number.pos_inf = refl
is_over_price_lem (Number.micro (negsuc n)) Number.pos_inf = refl
is_over_price_lem (Number.micro (pos n)) Number.nan = refl
is_over_price_lem (Number.micro (negsuc n)) Number.nan = refl
is_over_price_lem (Number.micro (pos n)) Number.neg_inf = refl
is_over_price_lem (Number.micro (negsuc n)) Number.neg_inf = refl
is_over_price_lem Number.nan a = refl
is_over_price_lem Number.pos_inf a = refl
is_over_price_lem Number.neg_inf a = refl

-- Above a contracted price that is positive by more than a tenth.
abbrev pub exceeds_price : Number → Option Number → Bool
exceeds_price amount none = false
exceeds_price amount (some n) = lt (of_ℕ 0) n && (lt (of_ℕ 0) amount && is_above_price n amount)

abbrev pub has_cap : Option Number → Bool
has_cap none = false
has_cap (some n) = true

-- What a constraint says: whether it stops, and whether it is there at all.
abbrev pub stops : Option Signal → Bool
stops none = false
stops (some s) = is_stop s.status

-- A constraint is GO or STOP.
abbrev pub Decided : Option Signal → Type 0
Decided none = Unit
Decided (some s) = (s.status ≡ VerdictStatus.go) ⊎ (s.status ≡ VerdictStatus.stop)

pub merged :
    (a b : Option Signal)
    → Decided a
    → Decided b
    → Decided (merge_constraint a b)
      × (stops (merge_constraint a b) ≡ (stops a || stops b))
      × (is_some (merge_constraint a b) ≡ (is_some a || is_some b))
merged none none h k = ground arith
merged none (some b) h k = ground arith
merged (some a) none h k = ground arith
merged (some a) (some b) h k = ground arith

pub payee_view :
    (payee : Text) (ps : Option (List Text))
    → Decided (check_payee payee ps)
      × (stops (check_payee payee ps) ≡ excludes payee ps)
      × ((is_some (check_payee payee ps) && not (excludes payee ps)) ≡ lists payee ps)
unfolding check_payee
payee_view payee none = ground arith
payee_view payee (some []) = ground arith
payee_view payee (some (p ∷ ps)) = ground arith

pub cap_view :
    (amount : Number) (n : Option Number)
    → Decided (check_max amount n)
      × (stops (check_max amount n) ≡ exceeds_cap amount n)
      × ((is_some (check_max amount n) && not (exceeds_cap amount n))
          ≡ (has_cap n && (lt (of_ℕ 0) amount && not (exceeds_cap amount n))))
unfolding check_max
cap_view amount none = ground arith
cap_view amount (some n) = ground arith

pub price_view :
    (amount : Number) (n : Option Number)
    → Decided (check_expected amount n)
      × (stops (check_expected amount n) ≡ exceeds_price amount n)
      × (is_some (check_expected amount n) ≡ (is_positive n && lt (of_ℕ 0) amount))
unfolding check_expected
price_view amount none = ground arith
price_view amount (some n) = ground (arith, is_over_price_lem n amount)

pub combined :
    (o : Option Signal) (jev : Signal)
    → Decided o
    → ((combine_signals o jev).status ≡ VerdictStatus.go)
      ↔ ((stops o ≡ false) × (is_some o ≡ true) × (is_stop jev.status ≡ false))
unfolding combine_signals
combined none jev h = ground arith
combined (some s) jev h = ground arith

pub combined_amount :
    (m : MandateResult) (jev : Signal)
    → Decided m.amount_signal
    → Decided m.expected_usd_signal
    → ((amount_signal m jev).status ≡ VerdictStatus.go) ↔ (
        (stops m.amount_signal ≡ false)
        × (stops m.expected_usd_signal ≡ false)
        × ((is_some m.amount_signal || is_some m.expected_usd_signal) ≡ true)
        × (is_stop jev.status ≡ false))
unfolding amount_signal combine_signals
combined_amount m jev h k = elim (Option-cases m.amount_signal) [
  | inl e ↦ elim (Option-cases m.expected_usd_signal) [
    | inl f ↦ ground (arith, e, f)
    | inr (x, f) ↦ ground (arith, e, f, k)
  ]
  | inr (a, e) ↦ elim (Option-cases m.expected_usd_signal) [
    | inl f ↦ ground (arith, e, f, h)
    | inr (x, f) ↦ ground (arith, e, f, h, k)
  ]
]

-- The constraints of an optional mandate.
pub terms :
    (intent : PaymentIntent) (o : Option PaymentMandate)
    → ((check_intent (record intent { mandate = o })).payee_signal
        ≡ check_payee intent.payee (payees_of o))
      × ((check_intent (record intent { mandate = o })).amount_signal
          ≡ check_max intent.amount_usd (max_of o))
      × ((check_intent (record intent { mandate = o })).expected_usd_signal
          ≡ check_expected intent.amount_usd (expected_of o))
unfolding check_intent check_payee check_max check_expected
terms intent none = (refl, refl, refl)
terms intent (some m) = (refl, refl, refl)

-- Whether the payment breaks a term of a mandate: its list of payees, its cap, or its contracted price
-- with the tolerance of a tenth.
abbrev pub violates : PaymentIntent → Option PaymentMandate → Bool
violates intent o =
    excludes intent.payee (payees_of o)
    || (exceeds_cap intent.amount_usd (max_of o) || exceeds_price intent.amount_usd (expected_of o))

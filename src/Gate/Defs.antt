-- ===== src/Gate/Defs.antt =====
-- The mandate's checks and the composition of the signals in decide.ts. The signals of the other
-- layers are arguments.
use ligis.Prelude.{
  Bool, true, false, not, ◌&&◌, Option, none, some, List, [], ◌∷◌, ltb, if◌then◌else◌, find, any,
  filter,
}
use ligis.Prelude.Int.{pos}
use ligis.Prelude.Double.{of_ratio, add, multiply}
use ligis.Wallet.Chars.{Text, text_eq, to_lower}
use ligis.Wallet.Number.{Number, lt, of_ℕ}

pub data VerdictStatus : Type 0 where
  go stop skipped unknown : VerdictStatus

pub data SignalId : Type 0 where
  right_payee right_amount in_scope verified_payee : SignalId

-- The texts and the evidence that a signal shows are left out.
pub record Signal : Type 0 where
  pub id : SignalId
  pub status : VerdictStatus
  pub confidence : Number

-- `none` for what is undefined.
pub record PaymentMandate : Type 0 where
  pub payees : Option (List Text)
  pub max_usd : Option Number
  pub expected_usd : Option Number

pub record PaymentIntent : Type 0 where
  pub payee : Text
  pub amount_usd : Number
  pub mandate : Option PaymentMandate

abbrev pub base_signal : SignalId → VerdictStatus → Number → Signal
base_signal id status confidence = record { id = id; status = status; confidence = confidence }

abbrev pub is_stop : VerdictStatus → Bool
is_stop VerdictStatus.stop = true
is_stop _ = false

abbrev pub is_unknown : VerdictStatus → Bool
is_unknown VerdictStatus.unknown = true
is_unknown _ = false

abbrev pub has_gone : VerdictStatus → Bool
has_gone VerdictStatus.go = true
has_gone _ = false

abbrev pub is_skipped : VerdictStatus → Bool
is_skipped VerdictStatus.skipped = true
is_skipped _ = false

-- `mandate.payees && mandate.payees.length > 0`, then the search; an empty text that is found does not
-- count as a match.
abbrev pub is_same_payee : Text → Text → Bool
is_same_payee payee p = text_eq (to_lower p) (to_lower payee)

abbrev pub is_match : Option Text → Bool
is_match (some (c ∷ s)) = true
is_match _ = false

abbrev pub payee_status : Bool → VerdictStatus
payee_status true = VerdictStatus.go
payee_status false = VerdictStatus.stop

unfoldable pub check_payee : Text → Option (List Text) → Option Signal
check_payee payee none = none
check_payee payee (some []) = none
check_payee payee (some (p ∷ payees)) = some (
    base_signal SignalId.right_payee
      (payee_status (is_match (find (is_same_payee payee) (p ∷ payees)))) (of_ℕ 1))

unfoldable pub check_max : Number → Option Number → Option Signal
check_max amount none = none
check_max amount (some max) =
    if lt max amount
    then some (base_signal SignalId.right_amount VerdictStatus.stop (of_ℕ 1))
    else if lt (of_ℕ 0) amount
    then some (base_signal SignalId.right_amount VerdictStatus.go (of_ℕ 1))
    else none

-- `amount > expected * (1 + 0.1)`, computed with doubles, for what is positive.
abbrev pub is_over_price : Number → Number → Bool
is_over_price (Number.micro (pos e)) (Number.micro (pos a)) =
    ltb (multiply (of_ratio e 1000000) (add (of_ratio 1 1) (of_ratio 1 10))) (of_ratio a 1000000)
is_over_price (Number.micro e) Number.pos_inf = true
is_over_price _ _ = false

unfoldable pub check_expected : Number → Option Number → Option Signal
check_expected amount none = none
check_expected amount (some expected) =
    if lt (of_ℕ 0) expected && lt (of_ℕ 0) amount
    then (if is_over_price expected amount
        then some (base_signal SignalId.right_amount VerdictStatus.stop (of_ℕ 1))
        else some (base_signal SignalId.right_amount VerdictStatus.go (of_ℕ 1)))
    else none

-- `matchedPayee`, with which only Jev is asked, is left out.
pub record MandateResult : Type 0 where
  pub payee_signal : Option Signal
  pub amount_signal : Option Signal
  pub expected_usd_signal : Option Signal

abbrev pub check_intent_of : PaymentIntent → Option PaymentMandate → MandateResult
check_intent_of intent none = record {
  payee_signal = none;
  amount_signal = none;
  expected_usd_signal = none;
}
check_intent_of intent (some m) = record {
  payee_signal = check_payee intent.payee m.payees;
  amount_signal = check_max intent.amount_usd m.max_usd;
  expected_usd_signal = check_expected intent.amount_usd m.expected_usd;
}

-- `checkMandate`
unfoldable pub check_intent : PaymentIntent → MandateResult
check_intent intent = check_intent_of intent intent.mandate

unfoldable pub combine_signals : Option Signal → Signal → Signal
combine_signals none jev =
    if is_stop jev.status then jev else base_signal jev.id VerdictStatus.skipped (of_ℕ 0)
combine_signals (some mandate) jev =
    if is_stop mandate.status then mandate else if is_stop jev.status then jev else mandate

abbrev pub is_some : Option Signal → Bool
is_some none = false
is_some (some s) = true

-- The signal for `right-amount`.
unfoldable pub amount_signal : MandateResult → Signal → Signal
amount_signal m jev =
    let by_mandate = combine_signals m.amount_signal jev in
    let by_price = combine_signals m.expected_usd_signal jev in
    if is_stop by_mandate.status
    then by_mandate
    else if is_stop by_price.status
    then by_price
    else if is_some m.amount_signal
    then by_mandate
    else if is_some m.expected_usd_signal
    then by_price
    else combine_signals none jev

pub data GateVerdict : Type 0 where
  go stop unknown : GateVerdict

-- The four signals in their order.
pub record Signals : Type 0 where
  pub payee : Signal
  pub amount : Signal
  pub scope : Signal
  pub verified : Signal

abbrev pub signal_list : Signals → List Signal
signal_list s = s.payee ∷ s.amount ∷ s.scope ∷ s.verified ∷ []

unfoldable pub compose_verdict : Signals → Bool → GateVerdict
compose_verdict s evidence_enabled =
    if any (λ x. is_stop x.status) (signal_list s)
    then GateVerdict.stop
    else if any (λ x. is_unknown x.status) (signal_list s)
    then GateVerdict.unknown
    else if evidence_enabled && any (λ x. not (has_gone x.status)) (signal_list s)
    then GateVerdict.unknown
    else if not (has_gone s.payee.status && has_gone s.amount.status)
    then GateVerdict.unknown
    else if any (λ x. not (has_gone x.status))
        (filter (λ x. not (is_skipped x.status)) (signal_list s))
    then GateVerdict.unknown
    else GateVerdict.go

-- What the other layers say: Jev of the payee and of the amount, and the signals `in-scope` and
-- `verified-payee` as they come to the composition.
pub record Layers : Type 0 where
  pub jev_payee : Signal
  pub jev_amount : Signal
  pub scope : Signal
  pub verified : Signal

-- `mergeConstraint`, of the operator's constraint and the caller's.
abbrev pub merge_constraint : Option Signal → Option Signal → Option Signal
merge_constraint none b = b
merge_constraint (some a) none = some a
merge_constraint (some a) (some b) =
    if is_stop a.status then some a else if is_stop b.status then some b else some a

abbrev pub merge_results : MandateResult → MandateResult → MandateResult
merge_results operator caller = record {
  payee_signal = merge_constraint operator.payee_signal caller.payee_signal;
  amount_signal = merge_constraint operator.amount_signal caller.amount_signal;
  expected_usd_signal = merge_constraint operator.expected_usd_signal caller.expected_usd_signal;
}

-- `mandateResult`: the intent is checked against the operator's mandate and its own.
abbrev pub mandate_result : PaymentIntent → Option PaymentMandate → MandateResult
mandate_result intent operator =
    merge_results (check_intent (record intent { mandate = operator })) (check_intent intent)

unfoldable pub decide_signals : PaymentIntent → Option PaymentMandate → Layers → Signals
unfolding check_intent
decide_signals intent operator l =
    let m = mandate_result intent operator in
    record {
      payee = combine_signals m.payee_signal l.jev_payee;
      amount = amount_signal m l.jev_amount;
      scope = l.scope;
      verified = l.verified;
    }

unfoldable pub decide : PaymentIntent → Option PaymentMandate → Layers → Bool → GateVerdict
unfolding decide_signals
decide intent operator l evidence_enabled =
    compose_verdict (decide_signals intent operator l) evidence_enabled

-- ===== src/Procurement/Rail/Fixture/Defs.antt =====
-- `FixtureRail`'s state and methods. The argument `uuid` says what `randomUUID` draws, in order.
use ligis.Prelude.{
  ℕ, ◌+◌, Bool, true, false, ◌&&◌, Option, none, some, List, [], ◌∷◌, ◌==◌, if◌then◌else◌, Table,
  get, put,
}
use ligis.Prelude.Int.{ℤ, pos, ◌+ℤ◌, ◌-ℤ◌}
use ligis.Procurement.Types.{Text, Money}
use ligis.Procurement.Rail.{
  TransferStatus, TransferHandle, CreateTransferInput, RailException, RailResult, PayoutRail,
  truthy,
}

pub record FixtureTransfer : Type 0 where
  pub id : Text
  pub request_id : Text
  pub beneficiary_id : Text
  pub amount : Money
  pub reference : Text
  pub reason : Text
  pub status : TransferStatus
  pub failure_type : Option Text
  pub failure_reason : Option Text

pub record FixtureRail : Type 0 where
  pub create_calls : ℕ
  pub transfers : Table FixtureTransfer
  pub by_request_id : Table Text
  pub balances : Table ℤ
  pub beneficiaries : Table Text
  pub fail_next_timeout : Bool
  pub drawn : ℕ

-- The texts that the class writes itself: codes of errors, types and reasons of failures.
pub record Messages : Type 0 where
  pub duplicate_request_id : Text
  pub not_found : Text
  pub failure_other : Text
  pub simulated_failure : Text

unfoldable pub handle : FixtureTransfer → TransferHandle
handle t = record {
  transfer_id = t.id;
  status = t.status;
  failure_type = t.failure_type;
  failure_reason = t.failure_reason;
}

-- `balances.get(currency) ?? 0`
unfoldable pub get_balance : Text → FixtureRail → ℤ
get_balance currency s = elim (get currency s.balances) [ none ↦ pos 0 | some b ↦ b ]

unfoldable pub fail_next_create_with_timeout : FixtureRail → FixtureRail
fail_next_create_with_timeout s = record s { fail_next_timeout = true }

unfoldable pub register_beneficiary : Text → Text → FixtureRail → FixtureRail
register_beneficiary i fp s = record s { beneficiaries = put i fp s.beneficiaries }

unfoldable pub tamper_beneficiary : Text → Text → FixtureRail → FixtureRail
tamper_beneficiary i fp s = record s { beneficiaries = put i fp s.beneficiaries }

abbrev pub is_terminal : TransferStatus → Bool
is_terminal TransferStatus.paid = true
is_terminal TransferStatus.cancelled = true
is_terminal TransferStatus.failed = true
is_terminal _ = false

pub data Target : Type 0 where
  to_sent to_paid to_failed : Target

abbrev pub is_same_operation : FixtureTransfer → CreateTransferInput → Bool
is_same_operation prior input =
    prior.beneficiary_id == input.beneficiary_id
    && (prior.amount.amount == input.amount.amount
        && prior.amount.currency == input.amount.currency)

-- A call of one of the methods that change the rail.
pub data Call : Type 0 where
  create : CreateTransferInput → Call
  transition_to : Text → Target → Option Text → Call
  time_out_next : Call
  set_beneficiary : Text → Text → Call

module _ (uuid : ℕ → Text) (text : Messages) where
  -- The transfer that a new request creates.
  abbrev pub new_transfer : CreateTransferInput → FixtureRail → FixtureTransfer
  new_transfer input s = record {
    id = uuid s.drawn;
    request_id = input.request_id;
    beneficiary_id = input.beneficiary_id;
    amount = input.amount;
    reference = input.reference;
    reason = input.reason;
    status = TransferStatus.received;
    failure_type = none;
    failure_reason = none;
  }

  -- The state once that transfer is recorded and debited.
  unfoldable pub record_transfer : CreateTransferInput → FixtureRail → FixtureRail
  record_transfer input s = record s {
    transfers = put (uuid s.drawn) (new_transfer input s) s.transfers;
    by_request_id = put input.request_id (uuid s.drawn) s.by_request_id;
    balances =
        put input.amount.currency (get_balance input.amount.currency s -ℤ pos input.amount.amount)
          s.balances;
    drawn = s.drawn + 1;
  }

  unfoldable pub replay_transfer : FixtureTransfer → CreateTransferInput → RailResult TransferHandle
  replay_transfer prior input =
      if is_same_operation prior input
      then RailResult.ok (handle prior)
      else RailResult.throws (RailException.rail_error text.duplicate_request_id (some 400))

  -- The case of an id with no transfer, where `this.transfers.get(existing)!` would throw, cannot
  -- arise from the class's own methods.
  unfoldable pub create_transfer :
      CreateTransferInput → FixtureRail → RailResult TransferHandle × FixtureRail
  create_transfer input s₀ =
      let s : FixtureRail = record s₀ { create_calls = s₀.create_calls + 1 } in
      elim (truthy (get input.request_id s.by_request_id)) [
        | some existing ↦ elim (get existing s.transfers) [
          | some prior ↦ (replay_transfer prior input, s)
          | none ↦ (RailResult.throws RailException.other_error, s)
        ]
        | none ↦
            let s' : FixtureRail = record_transfer input s in
            if s'.fail_next_timeout
            then (
              RailResult.throws RailException.other_error,
              record s' { fail_next_timeout = false },
            )
            else (RailResult.ok (handle (new_transfer input s)), s')
      ]

  unfoldable pub get_transfer : Text → FixtureRail → RailResult TransferHandle × FixtureRail
  get_transfer i s = elim (get i s.transfers) [
    | some t ↦ (RailResult.ok (handle t), s)
    | none ↦ (RailResult.throws (RailException.rail_error text.not_found none), s)
  ]

  unfoldable pub find_by_request_id :
      Text → FixtureRail → RailResult (Option TransferHandle) × FixtureRail
  find_by_request_id i s = elim (truthy (get i s.by_request_id)) [
    | none ↦ (RailResult.ok none, s)
    | some j ↦ elim (get j s.transfers) [
      | some t ↦ (RailResult.ok (some (handle t)), s)
      | none ↦ (RailResult.throws RailException.other_error, s)
    ]
  ]

  unfoldable pub get_beneficiary_fingerprint : Text → FixtureRail → RailResult Text × FixtureRail
  get_beneficiary_fingerprint i s = elim (truthy (get i s.beneficiaries)) [
    | some fp ↦ (RailResult.ok fp, s)
    | none ↦ (RailResult.throws (RailException.rail_error text.not_found (some 404)), s)
  ]

  -- What a transition makes of a transfer that has not ended, and of the balances.
  unfoldable pub move : Text → FixtureTransfer → Target → Option Text → FixtureRail → FixtureRail
  move i t Target.to_sent failure_type s = record s {
    transfers = put i (record t { status = TransferStatus.sent }) s.transfers;
  }
  move i t Target.to_paid failure_type s = record s {
    transfers = put i (record t { status = TransferStatus.paid }) s.transfers;
  }
  move i t Target.to_failed failure_type s = record s {
    transfers =
        put i
          (record t {
            status = TransferStatus.cancelled;
            failure_type = some (elim failure_type [ some x ↦ x | none ↦ text.failure_other ]);
            failure_reason = some text.simulated_failure;
          })
          s.transfers;
    balances =
        put t.amount.currency (get_balance t.amount.currency s +ℤ pos t.amount.amount) s.balances;
  }

  unfoldable pub transition :
      Text → Target → Option Text → FixtureRail → RailResult (Unit {0}) × FixtureRail
  transition i to failure_type s = elim (get i s.transfers) [
    | none ↦ (RailResult.throws (RailException.rail_error text.not_found none), s)
    | some t ↦ (RailResult.ok tt, if is_terminal t.status then s else move i t to failure_type s)
  ]

  abbrev pub fixture_rail : PayoutRail FixtureRail
  fixture_rail = record {
    create_transfer = create_transfer;
    get_transfer = get_transfer;
    find_by_request_id = find_by_request_id;
    get_beneficiary_fingerprint = get_beneficiary_fingerprint;
  }

  unfoldable pub call : Call → FixtureRail → FixtureRail
  call (create input) s = (create_transfer input s).1
  call (transition_to i to failure_type) s = (transition i to failure_type s).1
  call time_out_next s = fail_next_create_with_timeout s
  call (set_beneficiary i fp) s = tamper_beneficiary i fp s

  unfoldable pub call_all : List Call → FixtureRail → FixtureRail
  call_all [] s = s
  call_all (c ∷ cs) s = call_all cs (call c s)

-- ===== src/Procurement/Rail.antt =====
-- packages/procurement/src/rail.ts: what the executor asks of a payout rail, and the status map.

pub mod Fixture
use ligis.Prelude.{ℕ, zero, Bool, true, false, Option, none, some, ◌==◌, ◌||◌}
use ligis.Procurement.Types.{Text, Money, AttemptState}

-- The statuses that the code names, and any other text.
pub data TransferStatus : Type 0 where
  received sent paid cancelled failed : TransferStatus
  other : Text → TransferStatus

pub record TransferHandle : Type 0 where
  pub transfer_id : Text
  pub status : TransferStatus
  pub failure_type : Option Text
  pub failure_reason : Option Text

pub record CreateTransferInput : Type 0 where
  pub request_id : Text
  pub beneficiary_id : Text
  pub amount : Money
  pub reference : Text
  pub reason : Text

-- `RailError` with its code and HTTP status; `RailTimeoutError` or any other exception.
pub data RailException : Type 0 where
  rail_error : Text → Option ℕ → RailException
  other_error : RailException

pub data RailResult (A : Type 0) : Type 0 where
  ok : A → RailResult A
  throws : RailException → RailResult A

-- The rail as a state that each call reads and writes. `transition` is the simulator's.
pub record PayoutRail (R : Type 0) : Type 0 where
  pub create_transfer : CreateTransferInput → R → RailResult TransferHandle × R
  pub get_transfer : Text → R → RailResult TransferHandle × R
  pub find_by_request_id : Text → R → RailResult (Option TransferHandle) × R
  pub get_beneficiary_fingerprint : Text → R → RailResult Text × R

unfoldable pub map_transfer_status : TransferStatus → AttemptState
map_transfer_status TransferStatus.paid = AttemptState.paid
map_transfer_status TransferStatus.cancelled = AttemptState.cancelled
map_transfer_status TransferStatus.failed = AttemptState.cancelled
map_transfer_status _ = AttemptState.in_flight

-- The rail validated the request and refused it.
unfoldable pub is_definite_rejection : RailException → Bool
is_definite_rejection (RailException.rail_error code (some s)) =
    s == 400 || s == 401 || s == 403 || s == 404 || s == 422
is_definite_rejection _ = false

-- A text that a JavaScript test takes for true: present and not empty.
abbrev pub truthy : Option Text → Option Text
truthy (some zero) = none
truthy t = t

-- ===== src/Procurement/Fixture.antt =====
-- Concrete orders, ledgers and rails for runs of the code.
use ligis.Prelude.Double.{round}
use ligis.Prelude.{ℕ, ◌+◌, false, none, some, [], ◌∷◌}
use ligis.Prelude.Int.{pos, ◌+ℤ◌, ◌-ℤ◌}
use ligis.Procurement.Types.{Text, Money, PurchaseOrder, Mandate, PaymentRequest}
use ligis.Procurement.Ledger.{LedgerState}
use ligis.Procurement.Controller.Defs.{
  Evidence, evaluate, all_checks, checks_without_order, checks_with_order, verdict_of, check_expiry,
  check_currency, check_destination, check_identity, price_checks, price_limit, approved,
  approval_covers, check_duplicate, check_prior, cumulative, check_cumulative, check_mandate,
}
use ligis.Procurement.Rail.{map_transfer_status, is_definite_rejection}
use ligis.Procurement.Rail.Fixture.Defs.{
  FixtureRail, Messages, handle, create_transfer, record_transfer, replay_transfer,
  find_by_request_id, get_balance, fail_next_create_with_timeout, get_beneficiary_fingerprint,
  get_transfer, transition, move, call, call_all, fixture_rail,
}
use ligis.Procurement.Executor.Defs.{
  World, Ids, Instants, ExecutorDeps, approve, settle, release_commitment, with_status,
  apply_status, after_find, after_get, refresh_attempt, reconcile_one, reconcile_all,
  reconcile_order, rail_fingerprint, context_for, execute, finish, pay_in, pay,
}
use ligis.Procurement.Treasury.{insert_sorted, sort, allocate_from, allocate}

-- The amounts are in cents, the ids arbitrary.
abbrev pub usd : ℕ → Money
usd n = record { amount = n; currency = 840 }

abbrev pub order : PurchaseOrder
order = record {
  order_id = 1;
  supplier = record { supplier_id = 2; name = 3; beneficiary_id = 4; destination_fingerprint = 5 };
  authorized = usd 10000;
  price_tolerance_pct = 10;
  purpose = 6;
  expires_at = some 1000;
  mandate_id = 7;
  require_verified_supplier = false;
}

abbrev pub mandate : Mandate
mandate = record { mandate_id = 7; agent_id = 8; budget = usd 50000; committed = 0 }

abbrev pub request : ℕ → PaymentRequest
request amount = record {
  order_id = 1;
  invoice_ref = 9;
  amount = usd amount;
  destination = record { beneficiary_id = none; fingerprint = 5 };
  agent_id = 8;
  reason = none;
}

abbrev pub sha256 : Evidence → Text
sha256 e = 77

abbrev pub uuid : ℕ → Text
uuid n = n + 100

abbrev pub messages : Messages
messages = record {
  duplicate_request_id = 60;
  not_found = 61;
  failure_other = 62;
  simulated_failure = 63;
}

abbrev pub rail : FixtureRail
rail = record {
  create_calls = 0;
  transfers = [];
  by_request_id = [];
  balances = (840, pos 90000) ∷ [];
  beneficiaries = (4, 5) ∷ [];
  fail_next_timeout = false;
  drawn = 0;
}

abbrev pub ledger : LedgerState
ledger = record {
  orders = (1, order) ∷ [];
  mandates = (7, mandate) ∷ [];
  attempts = [];
  decisions = [];
  approvals = [];
}

abbrev pub world : World FixtureRail
world = record { ledger = ledger; rail = rail }

abbrev pub deps : ExecutorDeps FixtureRail
deps = record { rail = fixture_rail uuid messages; supplier_verifier = none }

abbrev pub ids : Ids
ids = record { decision = 20; attempt = 21; request = 22 }

abbrev pub times : Instants
times = record { reconciled = 500; decided = 501; created = 502; settled = 503 }

abbrev pub paid_world : World FixtureRail
paid_world = (pay deps sha256 ids times (request 10500) world).1

unfoldable pub opened : Unit {0}
unfolding pay pay_in finish execute settle release_commitment context_for rail_fingerprint
    reconcile_order reconcile_all reconcile_one refresh_attempt after_find after_get apply_status
    with_status map_transfer_status is_definite_rejection evaluate all_checks checks_without_order
    checks_with_order verdict_of check_expiry check_currency check_destination check_identity
    price_checks approved approval_covers check_duplicate check_prior cumulative check_cumulative
    check_mandate approve create_transfer record_transfer replay_transfer handle get_balance
    fail_next_create_with_timeout get_beneficiary_fingerprint get_transfer find_by_request_id
    price_limit round transition move call call_all ◌+ℤ◌ ◌-ℤ◌ insert_sorted sort allocate_from
    allocate
opened = tt

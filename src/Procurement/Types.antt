-- ===== src/Procurement/Types.antt =====
-- packages/procurement/src/types.ts. A text that the code only compares (an id, a reference, a
-- currency, a fingerprint) is a number, and 0 is the empty text. An amount is a number of minor
-- units, a percentage a whole number, an instant its milliseconds.
use ligis.Prelude.{ℕ, Bool, true, false, List, Option, ◌==◌, ◌&&◌}

abbrev pub Text : Type 0
Text = ℕ

abbrev pub Instant : Type 0
Instant = ℕ

pub record Money : Type 0 where
  pub amount : ℕ
  pub currency : Text

pub record ApprovedSupplier : Type 0 where
  pub supplier_id : Text
  pub name : Text
  pub beneficiary_id : Text
  pub destination_fingerprint : Text

pub record PurchaseOrder : Type 0 where
  pub order_id : Text
  pub supplier : ApprovedSupplier
  pub authorized : Money
  pub price_tolerance_pct : ℕ
  pub purpose : Text
  -- `none` where `Date.parse` reads no date.
  pub expires_at : Option Instant
  pub mandate_id : Text
  pub require_verified_supplier : Bool

pub record Mandate : Type 0 where
  pub mandate_id : Text
  pub agent_id : Text
  pub budget : Money
  pub committed : ℕ

pub record Destination : Type 0 where
  pub beneficiary_id : Option Text
  pub fingerprint : Text

pub record PaymentRequest : Type 0 where
  pub order_id : Text
  pub invoice_ref : Text
  pub amount : Money
  pub destination : Destination
  pub agent_id : Text
  pub reason : Option Text

pub data Verdict : Type 0 where
  go stop review : Verdict

pub data CheckId : Type 0 where
  order expiry currency supplier_destination supplier_identity price order_cumulative
        duplicate_invoice prior_attempt mandate approval :
      CheckId

pub data CheckResult : Type 0 where
  pass fail review skipped : CheckResult

-- One constructor for each message that `evaluate` writes into a check's `detail`.
pub data Detail : Type 0 where
  no_purchase_order nothing_to_evaluate order_found expired valid_until : Detail
  currency_mismatch currency_matches : Detail
  rail_lookup_failed rail_record_changed destination_changed destination_verified_at_rail
        destination_matches :
      Detail
  no_verifier identity_unverified identity_verified identity_not_required : Detail
  within_authorized within_tolerance within_approved exceeds_tolerance : Detail
  no_approval_required covered_by_approval no_valid_approval : Detail
  already_paid not_paid unresolved_attempt replaces_cancelled no_prior_attempts : Detail
  over_order_limit within_order_limit : Detail
  mandate_missing wrong_agent budget_currency mandate_exhausted mandate_covers : Detail

pub record Check : Type 0 where
  pub id : CheckId
  pub result : CheckResult
  pub detail : Detail

pub record Decision : Type 0 where
  pub decision_id : Text
  pub verdict : Verdict
  pub checks : List Check
  pub reason : Option Detail
  pub evidence_hash : Text
  pub at : Instant

pub data AttemptState : Type 0 where
  submitted unknown in_flight paid cancelled : AttemptState

pub record PaymentAttempt : Type 0 where
  pub attempt_id : Text
  pub order_id : Text
  pub invoice_ref : Text
  pub decision_id : Text
  pub airwallex_request_id : Text
  pub transfer_id : Option Text
  pub state : AttemptState
  pub amount : Money
  pub failure_type : Option Text
  pub failure_reason : Option Text
  pub replaces : Option Text
  pub created_at : Option Instant
  pub updated_at : Option Instant

pub record BoundTo : Type 0 where
  pub order_id : Text
  pub invoice_ref : Text
  pub amount : Money
  pub fingerprint : Text

pub record Approval : Type 0 where
  pub approval_id : Text
  pub decision_id : Text
  pub approver : Text
  pub bound_to : BoundTo
  pub used : Bool

-- `UNRESOLVED` of the controller and the executor.
abbrev pub is_unresolved : AttemptState → Bool
is_unresolved AttemptState.submitted = true
is_unresolved AttemptState.unknown = true
is_unresolved AttemptState.in_flight = true
is_unresolved _ = false

abbrev pub is_paid : AttemptState → Bool
is_paid AttemptState.paid = true
is_paid _ = false

abbrev pub is_cancelled : AttemptState → Bool
is_cancelled AttemptState.cancelled = true
is_cancelled _ = false

-- Money that has left, or may still leave.
abbrev pub is_live : AttemptState → Bool
is_live AttemptState.cancelled = false
is_live _ = true

abbrev pub money_eq : Money → Money → Bool
money_eq a b = a.amount == b.amount && a.currency == b.currency

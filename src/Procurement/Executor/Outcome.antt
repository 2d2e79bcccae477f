-- ===== src/Procurement/Executor/Outcome.antt =====
-- When `pay` asks the rail for a transfer, and what a cancelled one costs the mandate.
use ligis.Prelude.{◌≡◌, ◌∙◌, inl, inr, refl, List, [], ◌∷◌, arith, Option-cases}
use ligis.Procurement.Types.{Instant, PaymentAttempt, AttemptState}
use ligis.Procurement.Ledger.{LedgerState}
use ligis.Procurement.Rail.{TransferHandle, RailResult, PayoutRail, map_transfer_status, truthy}
use ligis.Procurement.Controller.Justified.{Justified}
use ligis.Procurement.Executor.Defs.{
  World, with_status, apply_status, after_get, after_find, refresh_attempt, settle,
}

module _ {R : Type 0} (rail : PayoutRail R) where
  -- Refreshes of one attempt at the given times.
  abbrev pub refresh_all : List Instant → PaymentAttempt → World R → PaymentAttempt × World R
  refresh_all [] a w = (a, w)
  refresh_all (now ∷ later) a w = let x = refresh_attempt rail now a w in refresh_all later x.0 x.1

  -- Each of these refreshes leaves the attempt cancelled.
  abbrev pub StaysCancelled : List Instant → PaymentAttempt → World R → Type 0
  StaysCancelled [] a w = Unit {0}
  StaysCancelled (now ∷ later) a w =
      let x = refresh_attempt rail now a w in
      (x.0.state ≡ AttemptState.cancelled) × StaysCancelled later x.0 x.1

  refresh_attempt-cancelled :
      (now : Instant) (a : PaymentAttempt) (w : World R)
      → a.state ≡ AttemptState.cancelled
      → (refresh_attempt rail now a w).1.ledger.mandates ≡ w.ledger.mandates
  unfolding refresh_attempt after_get after_find apply_status with_status
  refresh_attempt-cancelled now a w h = elim (Option-cases (truthy a.transfer_id)) [
    | inl e ↦ ground (arith, h, e)
    | inr (tid, e) ↦ ground (arith, h, e)
  ]

  refresh_all-cancelled :
      (times : List Instant) (a : PaymentAttempt) (w : World R)
      → a.state ≡ AttemptState.cancelled
      → StaysCancelled times a w
      → (refresh_all times a w).1.ledger.mandates ≡ w.ledger.mandates
  refresh_all-cancelled [] a w h s = refl
  refresh_all-cancelled (now ∷ later) a w h (c, s) =
      refresh_all-cancelled later (refresh_attempt rail now a w).0 (refresh_attempt rail now a w).1
        c s
      ∙ refresh_attempt-cancelled now a w h

  -- What `pay` leaves where the rail answers a new transfer.
  abbrev pub answered : Instant → PaymentAttempt → TransferHandle → LedgerState → R → World R
  answered now a t l r = record { ledger = (settle now a (RailResult.ok t) l).1; rail = r }

  -- Where the rail answers a new transfer with a status that is already cancelled or failed, the
  -- attempt is recorded as cancelled with its amount still committed; and no number of refreshes
  -- releases it, as long as each of them leaves the attempt cancelled.
  pub settle-cancelled :
      (now : Instant) (times : List Instant) (a : PaymentAttempt) (t : TransferHandle)
      (l : LedgerState) (r : R)
      → map_transfer_status t.status ≡ AttemptState.cancelled
      → StaysCancelled times (settle now a (RailResult.ok t) l).0 (answered now a t l r)
      → ((settle now a (RailResult.ok t) l).0.state ≡ AttemptState.cancelled)
        × ((refresh_all times
              (settle now a (RailResult.ok t) l).0
              (answered now a t l r)).1.ledger.mandates
            ≡ l.mandates)
  unfolding settle
  settle-cancelled now times a t l r h s = (
    h,
    refresh_all-cancelled times (settle now a (RailResult.ok t) l).0 (answered now a t l r) h s,
  )

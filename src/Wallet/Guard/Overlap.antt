-- ===== src/Wallet/Guard/Overlap.antt =====
-- Calls that overlap: the map of signatures is read before the gate is asked, and written after the
-- signer has answered.
use ligis.Prelude.{ℕ, ◌≡◌, some, arith}
use ligis.Wallet.Chars.{Text}
use ligis.Wallet.Types.{BoundFields}
use ligis.Wallet.Guard.Defs.{
  PaymentGuard, SignRequest, EnforceCall, Enforced, sign, sign_request, conclude, enforce,
}
use ligis.Wallet.Guard.Signing.{approve_call, conclude-asked}

-- Both calls have asked the gate when the first of them comes to the signer.
abbrev pub overlapping :
    (BoundFields → ℕ) → PaymentGuard → EnforceCall → EnforceCall → Enforced × Enforced
overlapping hash guard c d =
    let first = conclude guard c (approve_call hash guard c) in
    (first, conclude first.guard d (approve_call hash guard d))

-- Two overlapping calls of `enforce` for one operation sign it twice: if the call alone asks the
-- signer, and the signer answers, then of two at once each asks the signer the same.
pub overlapping-twice :
    (hash : BoundFields → ℕ) (guard : PaymentGuard) (c : EnforceCall) (r : SignRequest)
    (signature : Text)
    → (enforce hash guard c).asked ≡ some r
    → c.signer r ≡ some signature
    → ((overlapping hash guard c c).0.asked ≡ some r)
      × ((overlapping hash guard c c).1.asked ≡ some r)
      × ((overlapping hash guard c c).1.outcome ≡ (overlapping hash guard c c).0.outcome)
unfolding enforce sign sign_request
overlapping-twice hash guard c r signature h k =
    let f = conclude-asked hash guard c (approve_call hash guard c) r h in
    ground (arith, f.1, f.2, h, k)

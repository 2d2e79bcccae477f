-- ===== src/Wallet/Guard/Once.antt =====
-- Calls one after the other, and calls that overlap.
use ligis.Prelude.{
  ℕ, ◌≤◌, ◌≡◌, refl, ap, subst, ◌∙◌, ◌⊎◌, inl, inr, Bool, true, false, not, ◌&&◌, Option, none,
  some, List, [], ◌∷◌, arith, ◌==◌, get, put, get-put, All, filter, length, Bool-cases,
}
use ligis.Wallet.Chars.{Text}
use ligis.Wallet.Types.{
  AgentRequest, AuthorizationRequest, BoundFields, Signed, GuardOutcome, ok, err,
}
use ligis.Wallet.Operation.Steps.{Result-cases}
use ligis.Wallet.Decision.Defs.{GateQuery, Transported}
use ligis.Wallet.Guard.Defs.{
  Recorded, PaymentGuard, Assessing, Approved, Step, start, assess, sign, EnforceCall, Enforced,
  conclude, enforce,
}
use ligis.Wallet.Guard.Signing.{approve_call}
use ligis.Wallet.Guard.Cleared.{start-Started, assess-Assessed}

abbrev record_of : Signed → Recorded
record_of s = record { signature = s.signature; decision = s.decision }

-- The outcome is a recorded signature.
abbrev Replays : PaymentGuard → Signed → Type 0
Replays guard s =
    (get s.operation.fingerprint guard.signed ≡ some (record_of s)) × (s.idempotent_replay ≡ true)

-- The outcome is a new signature, and now recorded.
abbrev Signs : PaymentGuard → Signed → PaymentGuard → Type 0
Signs guard s later =
    (s.idempotent_replay ≡ false)
    × (get s.operation.fingerprint guard.signed ≡ none)
    × (later.signed ≡ put s.operation.fingerprint (record_of s) guard.signed)

-- What a call may do.
abbrev Effect : PaymentGuard → GuardOutcome → PaymentGuard → Type 0
Effect guard (GuardOutcome.refused x) later = later.signed ≡ guard.signed
Effect guard (GuardOutcome.signed s) later =
    (Replays guard s × (later.signed ≡ guard.signed)) ⊎ Signs guard s later

module _ (hash : BoundFields → ℕ) (guard : PaymentGuard) where
  start-Effect :
      (request : AuthorizationRequest) (agent : Option AgentRequest) (now : ℕ) (o : GuardOutcome)
      → start hash guard request agent now ≡ err o
      → Effect guard o guard
  unfolding start
  start-Effect request agent now (GuardOutcome.refused x) h = refl
  start-Effect request agent now (GuardOutcome.signed s) h = inl (ground (arith, h), refl)

  assess-Effect :
      (waiting : Assessing) (transport : GateQuery → Transported) (request : AuthorizationRequest)
      (now : ℕ) (o : GuardOutcome)
      → assess hash waiting transport request now ≡ err o
      → Effect guard o guard
  unfolding assess
  assess-Effect waiting transport request now (GuardOutcome.refused x) h = refl
  assess-Effect waiting transport request now (GuardOutcome.signed s) h = ground (arith, h)

  sign-Effect :
      (approved : Approved) (signature : Option Text)
      → get approved.operation.fingerprint guard.signed ≡ none
      → let (o, later) = sign approved signature guard in Effect guard o later
  unfolding sign
  sign-Effect approved none h = refl
  sign-Effect approved (some signature) h = inr (refl, h, refl)

  conclude-Effect :
      (call : EnforceCall) (s : Step Approved)
      → ((o : GuardOutcome) → s ≡ err o → Effect guard o guard)
      → ((a : Approved) → s ≡ ok a → get a.operation.fingerprint guard.signed ≡ none)
      → Effect guard (conclude guard call s).outcome (conclude guard call s).guard
  conclude-Effect call (ok a) h k = sign-Effect a (call.signer _) (k a refl)
  conclude-Effect call (err o) h k = h o refl

  unsigned-approved :
      (call : EnforceCall) (waiting : Assessing) (a : Approved)
      → start hash guard call.request call.agent_request call.now ≡ ok waiting
      → assess hash waiting call.transport call.request_then call.now_then ≡ ok a
      → get a.operation.fingerprint guard.signed ≡ none
  unsigned-approved call waiting a h k =
      let s = start-Started hash guard call.request call.agent_request call.now waiting h in
      let b = assess-Assessed hash waiting call a k in
      ap (λ o. get o.fingerprint guard.signed) b.operation ∙ s.unsigned

  enforce-Effect :
      (call : EnforceCall)
      → Effect guard (enforce hash guard call).outcome (enforce hash guard call).guard
  unfolding enforce
  enforce-Effect call =
      elim (Result-cases (start hash guard call.request call.agent_request call.now)) [
        | inr (o, e) ↦
            conclude-Effect call (approve_call hash guard call)
              (λ o' h.
                start-Effect call.request call.agent_request call.now o' (ground (arith, e, h)))
              (λ a h. ground (arith, e, h))
        | inl (waiting, e) ↦
            conclude-Effect call (approve_call hash guard call)
              (λ o' h.
                assess-Effect waiting call.transport call.request_then call.now_then o'
                  (ground (arith, e, h)))
              (λ a h. unsigned-approved call waiting a e (ground (arith, e, h)))
      ]

-- A new signature for the fingerprint.
abbrev pub is_new_outcome : ℕ → GuardOutcome → Bool
is_new_outcome f (GuardOutcome.signed s) = not s.idempotent_replay && (s.operation.fingerprint == f)
is_new_outcome f (GuardOutcome.refused x) = false

abbrev pub is_new : ℕ → Enforced → Bool
is_new f e = is_new_outcome f e.outcome

-- Calls of which each begins when the one before has ended.
abbrev pub enforce_all : (BoundFields → ℕ) → PaymentGuard → List EnforceCall → List Enforced
enforce_all hash guard [] = []
enforce_all hash guard (c ∷ cs) =
    enforce hash guard c ∷ enforce_all hash (enforce hash guard c).guard cs

-- Whatever is signed under the fingerprint is what was recorded.
abbrev pub IsRecorded : ℕ → Recorded → Enforced → Type 0
IsRecorded f r e =
    (s : Signed)
    → e.outcome ≡ GuardOutcome.signed s
    → s.operation.fingerprint ≡ f
    → (s.signature ≡ r.signature) × (s.decision ≡ r.decision) × (s.idempotent_replay ≡ true)

Effect-recorded :
    (f : ℕ) (r : Recorded) (guard : PaymentGuard) (o : GuardOutcome) (later : PaymentGuard)
    → get f guard.signed ≡ some r
    → Effect guard o later
    → get f later.signed ≡ some r
Effect-recorded f r guard (GuardOutcome.refused x) later h e = ground (arith, h, e)
Effect-recorded f r guard (GuardOutcome.signed s) later h e =
    ground (arith, h, e, get-put f s.operation.fingerprint (record_of s) guard.signed)

Effect-IsRecorded :
    (f : ℕ) (r : Recorded) (guard : PaymentGuard) (later : PaymentGuard) (s : Signed)
    → get f guard.signed ≡ some r
    → Effect guard (GuardOutcome.signed s) later
    → s.operation.fingerprint ≡ f
    → (s.signature ≡ r.signature) × (s.decision ≡ r.decision) × (s.idempotent_replay ≡ true)
Effect-IsRecorded f r guard later s h e k = ground (arith, h, e, k)

-- After a signature has been recorded, whatever a later call signs under its fingerprint is the
-- recorded signature with its decision, as a replay.
pub enforce_all-recorded :
    (hash : BoundFields → ℕ) (f : ℕ) (r : Recorded) (guard : PaymentGuard)
    (calls : List EnforceCall)
    → get f guard.signed ≡ some r
    → All (IsRecorded f r) (enforce_all hash guard calls)
enforce_all-recorded hash f r guard [] h = tt
enforce_all-recorded hash f r guard (c ∷ cs) h =
    let e = enforce hash guard c in
    let effect = enforce-Effect hash guard c in
    (
      λ s k. Effect-IsRecorded f r guard e.guard s h (subst (λ o. Effect guard o e.guard) k effect),
      enforce_all-recorded hash f r e.guard cs
          (Effect-recorded f r guard e.outcome e.guard h effect),
    )

new_count : ℕ → List Enforced → ℕ
new_count f es = length (filter (is_new f) es)

recorded-not_new :
    (f : ℕ) (r : Recorded) (o : GuardOutcome)
    → ((s : Signed)
        → o ≡ GuardOutcome.signed s
        → s.operation.fingerprint ≡ f
        → (s.signature ≡ r.signature) × (s.decision ≡ r.decision) × (s.idempotent_replay ≡ true))
    → is_new_outcome f o ≡ false
recorded-not_new f r (GuardOutcome.refused x) h = refl
recorded-not_new f r (GuardOutcome.signed s) h = elim (Bool-cases (s.operation.fingerprint == f)) [
  | inl e ↦ let k = (h s refl (ground (arith, e))).2 in ground (arith, e, k)
  | inr e ↦ ground (arith, e)
]

recorded-new_count :
    (f : ℕ) (r : Recorded) (es : List Enforced) → All (IsRecorded f r) es → new_count f es ≡ 0
unfolding new_count
recorded-new_count f r [] h = refl
recorded-new_count f r (e ∷ es) h =
    ground (arith, recorded-not_new f r e.outcome h.0, recorded-new_count f r es h.1)

Effect-new :
    (f : ℕ) (guard : PaymentGuard) (o : GuardOutcome) (later : PaymentGuard)
    → Effect guard o later
    → is_new_outcome f o ≡ true
    → (r : Recorded) × (get f later.signed ≡ some r)
Effect-new f guard (GuardOutcome.refused x) later h k = ground (arith, k)
Effect-new f guard (GuardOutcome.signed s) later h k = (
  record_of s,
  ground (arith, h, k, get-put f s.operation.fingerprint (record_of s) guard.signed),
)

-- In calls of which each begins when the one before has ended, whatever the gate, the signer, the
-- clock and the requests are, at most one signs anew under a fingerprint.
pub enforce_all-once :
    (hash : BoundFields → ℕ) (f : ℕ) (guard : PaymentGuard) (calls : List EnforceCall)
    → length (filter (is_new f) (enforce_all hash guard calls)) ≤ 1
unfolding new_count
enforce_all-once hash f guard [] = omega arith
enforce_all-once hash f guard (c ∷ cs) = elim (Bool-cases (is_new f (enforce hash guard c))) [
  | inl e ↦
      let n =
        Effect-new f guard (enforce hash guard c).outcome (enforce hash guard c).guard
          (enforce-Effect hash guard c) e in
      ground (
        arith,
        e,
        recorded-new_count f n.0 (enforce_all hash (enforce hash guard c).guard cs)
            (enforce_all-recorded hash f n.0 (enforce hash guard c).guard cs n.1),
      )
  | inr e ↦ ground (arith, e, enforce_all-once hash f (enforce hash guard c).guard cs)
]

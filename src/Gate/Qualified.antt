-- ===== src/Gate/Qualified.antt =====
-- What a verdict says of the payee's credentials and evidence.
use ligis.Prelude.{
  ◌≡◌, ◌≢◌, ◌⊎◌, inl, inr, refl, sym, ap, ◌∙◌, subst, Bool, true, false, not, ◌&&◌, ◌||◌, Option,
  none, some, List, [], ◌∷◌, ◌++◌, any, filter, if◌then◌else◌, arith, Bool-cases, Option-cases,
}
use ligis.Wallet.Chars.{Text, text_eq}
use ligis.Wallet.Types.{Verdict}
use ligis.Gate.Defs.{VerdictStatus, Signal, PaymentIntent, is_stop, GateVerdict}
use ligis.Gate.Terms.{violates}
use ligis.Gate.Allowed.{IsQuiet, IsAllowed, decide-go_iff}
use ligis.Gate.Stopped.{decide-stop_iff}
use ligis.Gate.Reads.{
  CredentialRead, SubjectResolution, verified_payee_signal, EvidenceStatus, PayeeEvidence,
  is_positive_evidence, is_negative_evidence, is_empty_text, reads, verdicts_of, credential_status,
}
use ligis.Gate.Layers.{
  Config, required_capability, required_sources, credential_source, has_source, add_missing,
  gathered, is_missing, is_eligible, eligible_sources, settlement_source, open_world_status,
  open_world_payee_signal, apply_zk_credential, found_nothing, public_credential_absent, Answers,
  capability_asked, asked_credential, payee_signal, with_zk, layers_of, decide_from,
}

last_true : (v w a b c d : Bool) → d ≡ true → (v || (w || (a || (b || (c || d))))) ≡ true
last_true v w a b c d h = ground (arith, h)

-- The verified payee stops: so does the gate.
stopped_by :
    (intent : PaymentIntent) (capability : Text) (c : Config) (a : Answers)
    → is_stop (layers_of c capability a).verified.status ≡ true
    → decide_from intent capability c a ≡ GateVerdict.stop
unfolding decide_from
stopped_by intent capability c a h =
    (decide-stop_iff intent c.operator.mandate (layers_of c capability a) c.evidence_enabled).1 (
      last_true (violates intent c.operator.mandate) (violates intent intent.mandate)
        (is_stop (layers_of c capability a).jev_payee.status)
        (is_stop (layers_of c capability a).jev_amount.status)
        (is_stop (layers_of c capability a).scope.status) _ h)

-- A proof that is rejected stops the payment, whatever else the layers answer.
pub decide_from-zk_stop :
    (intent : PaymentIntent) (capability : Text) (c : Config) (a : Answers)
    → a.zk ≡ some Verdict.stop
    → decide_from intent capability c a ≡ GateVerdict.stop
unfolding layers_of apply_zk_credential
decide_from-zk_stop intent capability c a h = stopped_by intent capability c a (ground (arith, h))

-- Positive evidence of an eligible source other than settlements.
abbrev pub may_vouch : Config → PayeeEvidence → Bool
may_vouch c e =
    is_positive_evidence e.status
    && (not (text_eq e.source settlement_source)
        && any (λ s. text_eq s e.source) (eligible_sources c))

is_eligible_lem :
    (c : Config) (es : List PayeeEvidence) → any (is_eligible c) es ≡ any (may_vouch c) es
is_eligible_lem c [] = refl
is_eligible_lem c (e ∷ es) = ground (arith, is_eligible_lem c es)

-- The evidence vouches for the payee: none of it is negative, a required capability is held, every
-- required source is positive, and some source that may vouch is.
abbrev pub vouches : Config → EvidenceStatus → List PayeeEvidence → Bool
vouches c credential es =
    not (any (λ e. is_negative_evidence e.status) es)
    && ((is_empty_text (required_capability c) || is_positive_evidence credential)
        && (not (any (is_missing es) (required_sources c)) && any (may_vouch c) es))

open_world-vouches :
    (c : Config) (credential : EvidenceStatus) (es : List PayeeEvidence)
    → open_world_status c credential es ≡ VerdictStatus.go
    → vouches c credential es ≡ true
open_world-vouches c credential es h = ground (arith, h, is_eligible_lem c es)

open_world-answers :
    (c : Config) (credential : EvidenceStatus) (es : List PayeeEvidence)
    → open_world_status c credential es ≢ VerdictStatus.skipped
open_world-answers c credential es h = ground (arith, h)

asked_status : Config → Text → Answers → EvidenceStatus
asked_status c capability a =
    credential_status (asked_credential c capability a) (capability_asked c capability)

-- A registry holds the payee capable, not revoked, and not by an issuer of its own; or none could be
-- read.
IsCredentialed : Option SubjectResolution → Type 0
IsCredentialed none = Unit {0}
IsCredentialed (some r) =
    (r.primary ≡ none)
    ⊎ ((out : CredentialRead) × (r.primary ≡ some out)
        × (r.self_issued ≡ false)
        × (out.capable ≡ true)
        × (out.revoked ≡ false))

quiet_credential :
    (o : Option SubjectResolution)
    → IsQuiet false (verified_payee_signal o).status
    → IsCredentialed o
unfolding verified_payee_signal IsCredentialed
quiet_credential none h = tt
quiet_credential (some r) h = elim (Option-cases r.primary) [
  | inl e ↦ inl e
  | inr (out, e) ↦ inr (out, e, ground (arith, h, e), ground (arith, h, e), ground (arith, h, e))
]

-- Where the trust in a payee comes from: a proof that was verified; else, where evidence is asked for,
-- the evidence; else a credential or, for want of one that could be read, nothing.
pub IsTrusted : Config → Text → Answers → Type 0
IsTrusted c capability a =
    (a.zk ≡ some Verdict.go)
    ⊎ ((a.zk ≢ some Verdict.stop)
        × (((c.evidence_enabled ≡ true)
              × (vouches c (asked_status c capability a)
                    (gathered c (asked_status c capability a) a.external)
                  ≡ true))
            ⊎ ((c.evidence_enabled ≡ false) × IsCredentialed (asked_credential c capability a))))

with_zk-IsQuiet :
    (zk : Option Verdict) (credential : Option SubjectResolution) (signal : Signal) (e : Bool)
    → IsQuiet e (with_zk zk credential signal).status
    → (zk ≡ some Verdict.go) ⊎ ((zk ≢ some Verdict.stop) × IsQuiet e signal.status)
unfolding apply_zk_credential
with_zk-IsQuiet none credential signal e h = inr ((λ k. ground (arith, k)), h)
with_zk-IsQuiet (some Verdict.go) credential signal e h = inl refl
with_zk-IsQuiet (some Verdict.stop) credential signal e h = ground (arith, h)
with_zk-IsQuiet (some Verdict.unknown) credential signal e h =
    inr ((λ k. ground (arith, k)), ground (arith, h))

quiet_open_world :
    (c : Config) (credential : EvidenceStatus) (external : List PayeeEvidence)
    → IsQuiet true (open_world_payee_signal c credential external).status
    → vouches c credential (gathered c credential external) ≡ true
unfolding open_world_payee_signal
quiet_open_world c credential external (inl h) =
    open_world-vouches c credential (gathered c credential external) h
quiet_open_world c credential external (inr h) = ground (arith, h.1)

-- `payee_signal`, the setting apart.
abbrev payee_choice : Config → Text → Answers → Bool → Signal
payee_choice c capability a evidence_enabled =
    if evidence_enabled
    then open_world_payee_signal c (asked_status c capability a) a.external
    else verified_payee_signal (asked_credential c capability a)

quiet_payee :
    (c : Config) (capability : Text) (a : Answers)
    → a.zk ≢ some Verdict.stop
    → IsQuiet c.evidence_enabled (payee_signal c capability a).status
    → IsTrusted c capability a
unfolding IsTrusted asked_status
quiet_payee c capability a n h = elim (Bool-cases c.evidence_enabled) [
  | inl e ↦ inr (
    n,
    inl (
      e,
      quiet_open_world c (asked_status c capability a) a.external
          (subst (λ b. IsQuiet b (payee_choice c capability a b).status) e h),
    ),
  )
  | inr e ↦ inr (
    n,
    inr (
      e,
      quiet_credential (asked_credential c capability a)
          (subst (λ b. IsQuiet b (payee_choice c capability a b).status) e h),
    ),
  )
]

IsTrusted-zk :
    (c : Config) (capability : Text) (a : Answers)
    → a.zk ≡ some Verdict.go
    → IsTrusted c capability a
unfolding IsTrusted
IsTrusted-zk c capability a g = inl g

-- A payment that is allowed violates no mandate, and its payee is trusted: a presented proof was not
-- rejected; and it was verified, or the evidence vouches for the payee where it is asked for, or else
-- a credential, unless none could be read.
pub decide_from-go :
    (intent : PaymentIntent) (capability : Text) (c : Config) (a : Answers)
    → decide_from intent capability c a ≡ GateVerdict.go
    → IsAllowed intent c.operator.mandate (layers_of c capability a) c.evidence_enabled
      × IsTrusted c capability a
unfolding decide_from layers_of
decide_from-go intent capability c a h =
    let i =
      (decide-go_iff intent c.operator.mandate (layers_of c capability a) c.evidence_enabled).0 h in
    (
      i,
      elim (with_zk-IsQuiet a.zk (asked_credential c capability a) (payee_signal c capability a)
          c.evidence_enabled i.verified) [
            | inl g ↦ IsTrusted-zk c capability a g
            | inr (n, q) ↦ quiet_payee c capability a n q
          ],
    )

negative-append :
    (es fs : List PayeeEvidence)
    → any (λ e. is_negative_evidence e.status) es ≡ true
    → any (λ e. is_negative_evidence e.status) (es ++ fs) ≡ true
negative-append [] fs h = ground (arith, h)
negative-append (e ∷ es) fs h = ground (arith, h, negative-append es fs)

-- A negative record stays in the evidence.
negative-add_missing :
    (ss : List Text) (es : List PayeeEvidence)
    → any (λ e. is_negative_evidence e.status) es ≡ true
    → any (λ e. is_negative_evidence e.status) (add_missing ss es) ≡ true
negative-add_missing [] es h = h
negative-add_missing (s ∷ ss) es h =
    negative-add_missing ss _ (elim (Bool-cases (has_source s es)) [
      | inl e ↦ ground (arith, e, h)
      | inr e ↦ ground (
        arith,
        e,
        negative-append es (record { source = s; status = EvidenceStatus.unavailable } ∷ []) h,
      )
    ])

revoked-not_absent :
    (vs : List (Option CredentialRead))
    → any (λ out. out.revoked) (reads vs) ≡ true
    → any (λ x. not (found_nothing x)) vs ≡ true
revoked-not_absent [] h = ground (arith, h)
revoked-not_absent (none ∷ vs) h = refl
revoked-not_absent (some out ∷ vs) h = ground (arith, h, revoked-not_absent vs)

revoked-negative :
    (r : SubjectResolution) (capability : Text)
    → is_empty_text capability ≡ false
    → any (λ out. out.revoked) (reads (verdicts_of r)) ≡ true
    → credential_status (some r) capability ≡ EvidenceStatus.negative
unfolding credential_status
revoked-negative r [] h k = ground (arith, h)
revoked-negative r (c ∷ s) h k = ground (arith, k)

List-cases : {A : Type 0} (xs : List A) → (xs ≡ []) ⊎ ((y : A) × (ys : List A) × (xs ≡ y ∷ ys))
List-cases [] = inl refl
List-cases (x ∷ xs) = inr (x, xs, refl)

revoked-public :
    (r : SubjectResolution)
    → any (λ out. out.revoked) (reads (verdicts_of r)) ≡ true
    → public_credential_absent (some r) ≡ false
unfolding public_credential_absent
revoked-public r k = elim (List-cases r.verdicts) [
  | inl e ↦ ground (arith, e)
  | inr (v, vs, e) ↦ ground (arith, e, k, revoked-not_absent (v ∷ vs))
]

negative-stops :
    (c : Config) (external : List PayeeEvidence)
    → (open_world_payee_signal c EvidenceStatus.negative external).status ≡ VerdictStatus.stop
unfolding open_world_payee_signal
negative-stops c external = ground (
  arith,
  negative-add_missing (required_sources c)
      (record { source = credential_source; status = EvidenceStatus.negative }
        ∷ filter (λ e. not (text_eq e.source credential_source)) external)
      refl,
)

stop_stays :
    (zk : Option Verdict) (r : SubjectResolution) (signal : Signal)
    → public_credential_absent (some r) ≡ false
    → signal.status ≡ VerdictStatus.stop
    → is_stop (with_zk zk (some r) signal).status ≡ true
unfolding apply_zk_credential
stop_stays none r signal h k = ground (arith, k)
stop_stays (some Verdict.go) r signal h k = ground (arith, h, k)
stop_stays (some Verdict.stop) r signal h k = refl
stop_stays (some Verdict.unknown) r signal h k = ground (arith, k)

-- Where evidence is asked for and a capability is, a credential that some registry reports as revoked
-- stops the payment, and no private proof overrides it.
pub decide_from-revoked :
    (intent : PaymentIntent) (capability : Text) (c : Config) (a : Answers) (r : SubjectResolution)
    → c.evidence_enabled ≡ true
    → is_empty_text (capability_asked c capability) ≡ false
    → a.credential ≡ some r
    → any (λ out. out.revoked) (reads (verdicts_of r)) ≡ true
    → decide_from intent capability c a ≡ GateVerdict.stop
unfolding layers_of asked_status
decide_from-revoked intent capability c a r e h k v =
    let asked : asked_credential c capability a ≡ some r = ground (arith, h, k) in
    let negative : asked_status c capability a ≡ EvidenceStatus.negative =
      ap (λ x. credential_status x (capability_asked c capability)) asked
      ∙ revoked-negative r (capability_asked c capability) h v in
    let stops : (payee_signal c capability a).status ≡ VerdictStatus.stop =
      ap (λ b. (payee_choice c capability a b).status) e
      ∙ ap (λ x. (open_world_payee_signal c x a.external).status) negative
      ∙ negative-stops c a.external in
    stopped_by intent capability c a (
      subst (λ x. is_stop (with_zk a.zk x (payee_signal c capability a)).status ≡ true) (sym asked)
        (stop_stays a.zk r (payee_signal c capability a) (revoked-public r v) stops))

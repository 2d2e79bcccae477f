-- ===== src/Gate/Reads.antt =====
-- The layers of decide.ts: how what Jev, the credential registries, the evidence readers, the judge of
-- the page and the verifier of private credentials answer becomes signals.
use ligis.Prelude.{
  Bool, true, false, not, ◌&&◌, ◌||◌, Option, none, some, List, [], ◌∷◌, if◌then◌else◌, any, find,
}
use ligis.Prelude.Int.{pos}
use ligis.Wallet.Chars.{Text, codes, text_eq, to_lower}
use ligis.Wallet.Number.{Number, of_ℕ}
use ligis.Gate.Defs.{VerdictStatus, SignalId, Signal, base_signal, is_stop}

-- `other` is a flag that no signal shows.
pub data FlagId : Type 0 where
  payee_mismatch amount_mismatch scope_mismatch abnormal_pattern other : FlagId

pub record JevFlag : Type 0 where
  pub id : FlagId
  pub confidence : Number

pub data JevVerdict : Type 0 where
  go stop skipped : JevVerdict

pub record JevIntentResult : Type 0 where
  pub verdict : JevVerdict
  pub flags : List JevFlag
  pub confidence : Number

-- JEV_FLAG_TO_SIGNAL, asked whether the flag is of the signal.
abbrev pub is_flag_of : SignalId → FlagId → Bool
is_flag_of SignalId.right_payee FlagId.payee_mismatch = true
is_flag_of SignalId.right_amount FlagId.amount_mismatch = true
is_flag_of SignalId.in_scope FlagId.scope_mismatch = true
is_flag_of SignalId.in_scope FlagId.abnormal_pattern = true
is_flag_of _ _ = false

abbrev pub is_recognized : FlagId → Bool
is_recognized FlagId.other = false
is_recognized _ = true

abbrev pub is_scope : SignalId → Bool
is_scope SignalId.in_scope = true
is_scope _ = false

abbrev pub unflagged : JevIntentResult → SignalId → Signal
unflagged jev id = elim jev.verdict [
  | JevVerdict.stop ↦
      if is_scope id && not (any (λ f. is_recognized f.id) jev.flags)
      then base_signal id VerdictStatus.stop jev.confidence
      else base_signal id VerdictStatus.go jev.confidence
  | _ ↦ base_signal id VerdictStatus.go jev.confidence
]

abbrev pub flagged : JevIntentResult → SignalId → Signal
flagged jev id = elim (find (λ f. is_flag_of id f.id) jev.flags) [
  | some flag ↦ base_signal id VerdictStatus.stop flag.confidence
  | none ↦ unflagged jev id
]

unfoldable pub jev_signal_for : JevIntentResult → SignalId → Signal
jev_signal_for jev id = elim jev.verdict [
  | JevVerdict.skipped ↦ base_signal id VerdictStatus.skipped (of_ℕ 0)
  | _ ↦ flagged jev id
]

pub record PageJudgement : Type 0 where
  pub status : VerdictStatus
  pub confidence : Number

-- `buildSignal` for `in-scope`, the only signal for which it is reached.
unfoldable pub scope_signal : JevIntentResult → Option PageJudgement → Signal
unfolding jev_signal_for
scope_signal jev none = jev_signal_for jev SignalId.in_scope
scope_signal jev (some page) = elim page.status [
  | VerdictStatus.stop ↦ base_signal SignalId.in_scope VerdictStatus.stop page.confidence
  | VerdictStatus.go ↦
      if is_stop (jev_signal_for jev SignalId.in_scope).status
      then jev_signal_for jev SignalId.in_scope
      else base_signal SignalId.in_scope VerdictStatus.go page.confidence
  | _ ↦ jev_signal_for jev SignalId.in_scope
]

-- A read of a registry that answered.
pub record CredentialRead : Type 0 where
  pub capable : Bool
  pub revoked : Bool
  pub self_issued : Bool
  pub issuer : Option Text
  pub capability_id : Text
  pub capability_hash : Text

-- A chain's verdict is `none` where its read failed.
pub record SubjectResolution : Type 0 where
  pub subject : Text
  pub verdicts : List (Option CredentialRead)
  pub capable : Bool
  pub self_issued : Bool
  pub primary : Option CredentialRead

abbrev pub verified_status : CredentialRead → VerdictStatus
verified_status out =
    if out.capable && not out.revoked then VerdictStatus.go else VerdictStatus.stop

abbrev pub verified_confidence : CredentialRead → Number
verified_confidence out =
    if out.capable && not out.revoked
    then of_ℕ 1
    else if out.capable
    then Number.micro (pos 950000)
    else Number.micro (pos 500000)

-- `verifiedPayeeSignal`; the resolution is `none` where it failed, by an exception or an answer.
unfoldable pub verified_payee_signal : Option SubjectResolution → Signal
verified_payee_signal none = base_signal SignalId.verified_payee VerdictStatus.skipped (of_ℕ 0)
verified_payee_signal (some r) = elim r.primary [
  | none ↦ base_signal SignalId.verified_payee VerdictStatus.skipped (of_ℕ 0)
  | some out ↦
      if r.self_issued
      then base_signal SignalId.verified_payee VerdictStatus.stop (of_ℕ 1)
      else base_signal SignalId.verified_payee (verified_status out) (verified_confidence out)
]

pub data EvidenceStatus : Type 0 where
  positive negative unknown unavailable : EvidenceStatus

pub record PayeeEvidence : Type 0 where
  pub source : Text
  pub status : EvidenceStatus

abbrev pub is_positive_evidence : EvidenceStatus → Bool
is_positive_evidence EvidenceStatus.positive = true
is_positive_evidence _ = false

abbrev pub is_negative_evidence : EvidenceStatus → Bool
is_negative_evidence EvidenceStatus.negative = true
is_negative_evidence _ = false

abbrev pub is_empty_text : Text → Bool
is_empty_text [] = true
is_empty_text (c ∷ s) = false

abbrev pub reads : List (Option CredentialRead) → List CredentialRead
reads [] = []
reads (none ∷ vs) = reads vs
reads (some out ∷ vs) = out ∷ reads vs

abbrev pub has_failed : Option CredentialRead → Bool
has_failed none = true
has_failed (some out) = false

-- `r.verdicts.length ? r.verdicts : [r.primary]`
abbrev pub verdicts_of : SubjectResolution → List (Option CredentialRead)
verdicts_of r = elim r.verdicts [ [] ↦ r.primary ∷ [] | v ∷ vs ↦ r.verdicts ]

abbrev pub zero_address : Text
zero_address = codes "0x0000000000000000000000000000000000000000"

abbrev pub has_issuer : (Text → Bool) → CredentialRead → Bool
has_issuer p out = elim out.issuer [
  | none ↦ false
  | some issuer ↦ not (is_empty_text issuer) && p issuer
]

abbrev pub is_self_issued : SubjectResolution → CredentialRead → Bool
is_self_issued r out =
    out.self_issued || has_issuer (λ issuer. text_eq (to_lower issuer) (to_lower r.subject)) out

abbrev pub is_lapsed : CredentialRead → Bool
is_lapsed out = has_issuer (λ issuer. not (text_eq issuer zero_address)) out && not out.capable

abbrev pub grants : Text → CredentialRead → Bool
grants capability out =
    out.capable
    && (text_eq out.capability_id capability
        || text_eq (to_lower out.capability_hash) (to_lower capability))

-- `credentialEvidence`, its status; an empty capability is none.
unfoldable pub credential_status : Option SubjectResolution → Text → EvidenceStatus
credential_status result [] = EvidenceStatus.unknown
credential_status none (c ∷ s) = EvidenceStatus.unavailable
credential_status (some r) (c ∷ s) =
    if r.self_issued || any (is_self_issued r) (reads (verdicts_of r))
    then EvidenceStatus.negative
    else if any (λ out. out.revoked) (reads (verdicts_of r))
    then EvidenceStatus.negative
    else if any is_lapsed (reads (verdicts_of r))
    then EvidenceStatus.negative
    else if any has_failed (verdicts_of r) || has_failed r.primary
    then EvidenceStatus.unavailable
    else if r.capable && any (grants (c ∷ s)) (reads (verdicts_of r))
    then EvidenceStatus.positive
    else EvidenceStatus.unknown

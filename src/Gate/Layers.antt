-- ===== src/Gate/Layers.antt =====
-- `openWorldPayeeSignal`, `applyZkCredential`, and `decide` from the answers of its layers.
use ligis.Prelude.{
  Bool, true, false, not, ◌&&◌, ◌||◌, Option, none, some, List, [], ◌∷◌, ◌++◌, map, if◌then◌else◌,
  any, filter,
}
use ligis.Wallet.Chars.{Text, codes, text_eq, trim}
use ligis.Wallet.Number.{of_ℕ}
use ligis.Wallet.Types.{Verdict}
use ligis.Zk.Label.Defs.{split}
use ligis.Gate.Defs.{
  VerdictStatus, SignalId, Signal, PaymentMandate, PaymentIntent, base_signal, is_stop, is_unknown,
  has_gone, is_skipped, GateVerdict, Layers, decide,
}
use ligis.Gate.Reads.{
  JevIntentResult, jev_signal_for, PageJudgement, scope_signal, CredentialRead, SubjectResolution,
  verified_payee_signal, EvidenceStatus, PayeeEvidence, is_positive_evidence, is_negative_evidence,
  is_empty_text, credential_status,
}

-- `none` for what is undefined.
pub record OperatorTerms : Type 0 where
  pub required_capability : Option Text
  pub required_sources : Option (List Text)
  pub eligible_sources : Option (List Text)
  pub mandate : Option PaymentMandate

-- The operator's policy and the environment: LIGIS_PAYEE_EVIDENCE_ENABLED,
-- LIGIS_PAYEE_REQUIRED_CAPABILITY and LIGIS_PAYEE_REQUIRED_SOURCES, a text not set being empty.
pub record Config : Type 0 where
  pub operator : OperatorTerms
  pub evidence_enabled : Bool
  pub env_capability : Text
  pub env_sources : Text

-- The empty text where no capability is required.
abbrev pub required_capability : Config → Text
required_capability c = elim c.operator.required_capability [
  | some s ↦ s
  | none ↦ trim c.env_capability
]

abbrev pub credential_source : Text
credential_source = codes "ligis-credential"

abbrev pub settlement_source : Text
settlement_source = codes "x402-settlement"

abbrev pub allowed_sources : List Text
allowed_sources = credential_source ∷ codes "erc8004" ∷ settlement_source ∷ codes "nansen" ∷ []

abbrev pub contains : List Text → Text → Bool
contains ss s = any (λ t. text_eq t s) ss

abbrev pub configured_sources : Config → List Text
configured_sources c = filter (λ s. not (is_empty_text s)) (map trim (split b',' c.env_sources))

abbrev pub required_sources : Config → List Text
required_sources c = elim c.operator.required_sources [ some ss ↦ ss | none ↦ configured_sources c ]

abbrev pub eligible_sources : Config → List Text
eligible_sources c = elim c.operator.eligible_sources [
  | some ss ↦ ss
  | none ↦ credential_source ∷ codes "erc8004" ∷ []
]

abbrev pub has_source : Text → List PayeeEvidence → Bool
has_source s es = any (λ e. text_eq e.source s) es

-- The loop that pushes a record for each required source that has none.
abbrev pub add_missing : List Text → List PayeeEvidence → List PayeeEvidence
add_missing [] es = es
add_missing (s ∷ ss) es = add_missing ss (
    if has_source s es
    then es
    else es ++ (record { source = s; status = EvidenceStatus.unavailable } ∷ []))

-- `evidence`
abbrev pub gathered : Config → EvidenceStatus → List PayeeEvidence → List PayeeEvidence
gathered c credential external = add_missing (required_sources c) (
    record { source = credential_source; status = credential }
    ∷ filter (λ e. not (text_eq e.source credential_source)) external)

abbrev pub is_missing : List PayeeEvidence → Text → Bool
is_missing es s =
    not (has_source s es) || any (λ e. text_eq e.source s && not (is_positive_evidence e.status)) es

abbrev pub is_eligible : Config → PayeeEvidence → Bool
is_eligible c e =
    contains (eligible_sources c) e.source
    && (not (text_eq e.source settlement_source) && is_positive_evidence e.status)

abbrev pub is_unavailable : EvidenceStatus → Bool
is_unavailable EvidenceStatus.unavailable = true
is_unavailable _ = false

abbrev pub is_unknown_evidence : EvidenceStatus → Bool
is_unknown_evidence EvidenceStatus.unknown = true
is_unknown_evidence _ = false

abbrev pub open_world_status : Config → EvidenceStatus → List PayeeEvidence → VerdictStatus
open_world_status c credential es =
    if any (λ e. is_negative_evidence e.status) es
    then VerdictStatus.stop
    else if not (is_empty_text (required_capability c)) && is_unknown_evidence credential
    then VerdictStatus.stop
    else if any (λ s. not (contains allowed_sources s)) (configured_sources c)
    then VerdictStatus.unknown
    else if is_unavailable credential
    then VerdictStatus.unknown
    else if any (is_missing es) (required_sources c)
    then VerdictStatus.unknown
    else if not (is_empty_text (required_capability c)) && not (is_positive_evidence credential)
    then VerdictStatus.unknown
    else if any (is_eligible c) es
    then VerdictStatus.go
    else VerdictStatus.unknown

unfoldable pub open_world_payee_signal : Config → EvidenceStatus → List PayeeEvidence → Signal
open_world_payee_signal c credential external =
    let status = open_world_status c credential (gathered c credential external) in
    base_signal SignalId.verified_payee status (if is_unknown status then of_ℕ 0 else of_ℕ 1)

-- `applyZkCredential`, on the signal `verified-payee`.
unfoldable pub apply_zk_credential : Signal → Verdict → Bool → Signal
apply_zk_credential signal Verdict.stop public_absent =
    base_signal signal.id VerdictStatus.stop (of_ℕ 1)
apply_zk_credential signal Verdict.go public_absent =
    if is_stop signal.status && not public_absent
    then signal
    else base_signal signal.id VerdictStatus.go (of_ℕ 1)
apply_zk_credential signal Verdict.unknown public_absent =
    if is_stop signal.status
    then signal
    else if has_gone signal.status
    then signal
    else base_signal signal.id VerdictStatus.unknown (of_ℕ 0)

abbrev pub found_nothing : Option CredentialRead → Bool
found_nothing none = false
found_nothing (some out) = not out.capable && not out.revoked

-- `publicCredentialAbsent`
unfoldable pub public_credential_absent : Option SubjectResolution → Bool
public_credential_absent none = false
public_credential_absent (some r) =
    if r.capable || r.self_issued
    then false
    else elim r.verdicts [ [] ↦ false | v ∷ vs ↦ not (any (λ x. not (found_nothing x)) (v ∷ vs)) ]

-- What the layers answer: `credential` is `none` where the resolution failed, `page` where there is no
-- page or its judge threw, and `zk` where no proof was presented. The evidence is what the readers
-- give, or the unavailable records that stand for it.
pub record Answers : Type 0 where
  pub jev : JevIntentResult
  pub credential : Option SubjectResolution
  pub page : Option PageJudgement
  pub external : List PayeeEvidence
  pub zk : Option Verdict

-- `requiredCapability || intent.capability`
abbrev pub capability_asked : Config → Text → Text
capability_asked c intent_capability =
    if is_empty_text (required_capability c) then intent_capability else required_capability c

-- Without a capability no credential is asked for.
abbrev pub asked_credential : Config → Text → Answers → Option SubjectResolution
asked_credential c intent_capability a =
    if is_empty_text (capability_asked c intent_capability) then none else a.credential

abbrev pub payee_signal : Config → Text → Answers → Signal
payee_signal c intent_capability a =
    if c.evidence_enabled
    then open_world_payee_signal c
        (credential_status (asked_credential c intent_capability a)
          (capability_asked c intent_capability))
        a.external
    else verified_payee_signal (asked_credential c intent_capability a)

abbrev pub with_zk : Option Verdict → Option SubjectResolution → Signal → Signal
with_zk none credential signal = signal
with_zk (some zk) credential signal =
    apply_zk_credential signal zk (public_credential_absent credential)

abbrev pub unless_skipped : Bool → Signal → Signal
unless_skipped evidence_enabled signal =
    if evidence_enabled && is_skipped signal.status
    then record signal { status = VerdictStatus.unknown }
    else signal

unfoldable pub layers_of : Config → Text → Answers → Layers
unfolding jev_signal_for scope_signal open_world_payee_signal credential_status
    verified_payee_signal apply_zk_credential public_credential_absent
layers_of c intent_capability a = record {
  jev_payee = jev_signal_for a.jev SignalId.right_payee;
  jev_amount = jev_signal_for a.jev SignalId.right_amount;
  scope = unless_skipped c.evidence_enabled (scope_signal a.jev a.page);
  verified =
      with_zk a.zk (asked_credential c intent_capability a) (payee_signal c intent_capability a);
}

-- `decide`, given what its layers answer.
unfoldable pub decide_from : PaymentIntent → Text → Config → Answers → GateVerdict
unfolding layers_of decide
decide_from intent intent_capability c a =
    decide intent c.operator.mandate (layers_of c intent_capability a) c.evidence_enabled

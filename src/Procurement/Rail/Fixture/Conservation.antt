-- ===== src/Procurement/Rail/Fixture/Conservation.antt =====
-- The fixture rail neither makes nor loses money.
use ligis.Prelude.{
  ℕ, ◌+◌, ◌≤◌, ◌≡◌, ◌∙◌, subst, Bool, true, false, not, ◌&&◌, Option, none, some, List, [], ◌∷◌,
  arith, ◌==◌, if◌then◌else◌, get, put, get-put, weight, weight-put_new, weight-put_old,
  Option-cases, Bool-cases, inl, inr,
}
use ligis.Prelude.Int.{ℤ, pos, ◌+ℤ◌, ◌-ℤ◌, int_laws}
use ligis.Procurement.Types.{Text}
use ligis.Procurement.Rail.{TransferStatus, CreateTransferInput, truthy}
use ligis.Procurement.Rail.Fixture.Defs.{
  FixtureTransfer, FixtureRail, Messages, get_balance, fail_next_create_with_timeout,
  tamper_beneficiary, is_terminal, Target, new_transfer, record_transfer, create_transfer, move,
  transition, Call, call, call_all, create, transition_to, time_out_next, set_beneficiary,
}

abbrev is_cancelled : TransferStatus → Bool
is_cancelled TransferStatus.cancelled = true
is_cancelled _ = false

abbrev pub outstanding : Text → FixtureTransfer → ℕ
outstanding currency t =
    if t.amount.currency == currency && not (is_cancelled t.status) then t.amount.amount else 0

-- What the transfers in a currency that are not cancelled add up to.
abbrev pub held : Text → FixtureRail → ℕ
held currency s = weight (λ _ t. outstanding currency t) s.transfers

-- The balance and the transfers together.
abbrev pub funds : Text → FixtureRail → ℤ
funds currency s = get_balance currency s +ℤ pos (held currency s)

module _ (uuid : ℕ → Text) (text : Messages) where
  -- The ids that are still to be drawn name no transfer.
  abbrev pub IsFresh : FixtureRail → Type 0
  IsFresh s = (n : ℕ) → s.drawn ≤ n → get (uuid n) s.transfers ≡ none

  record_transfer-funds :
      (c : Text) (input : CreateTransferInput) (s : FixtureRail)
      → IsFresh s
      → funds c (record_transfer uuid text input s) ≡ funds c s
  unfolding record_transfer get_balance
  record_transfer-funds c input s fresh = grind (
    int_laws,
    weight-put_new (λ _ t. outstanding c t) (uuid s.drawn) (new_transfer uuid text input s)
        s.transfers (fresh s.drawn (omega arith)),
    get-put c input.amount.currency (get_balance input.amount.currency s -ℤ pos input.amount.amount)
        s.balances,
  )

  -- Any property that the counter of calls and the timeout flag do not show is kept by creating a
  -- transfer if recording one keeps it.
  create_transfer_keeps :
      (P : FixtureRail → Type 0) (input : CreateTransferInput) (s : FixtureRail)
      → ((n : ℕ) → P (record s { create_calls = n }))
      → ((n : ℕ) (flag : Bool)
          → P (record (record_transfer uuid text input (record s { create_calls = n })) {
            fail_next_timeout = flag;
          }))
      → P (create_transfer uuid text input s).1
  unfolding create_transfer record_transfer get_balance
  create_transfer_keeps P input s same new =
      elim (Option-cases (truthy (get input.request_id s.by_request_id))) [
        | inl e ↦
            rw (e, create_transfer)
              (elim (Bool-cases s.fail_next_timeout) [
                | inl f ↦ rw f (new (s.create_calls + 1) false)
                | inr f ↦ rw f (
                    subst
                      (λ b.
                        P
                          (record (record_transfer uuid text input
                            (record s { create_calls = s.create_calls + 1 })) {
                              fail_next_timeout = b;
                            }))
                      f (new (s.create_calls + 1) s.fail_next_timeout))
              ])
        | inr (j, e) ↦ elim (Option-cases (get j s.transfers)) [
          | inl e' ↦ rw (e, e', create_transfer) (same (s.create_calls + 1))
          | inr (t, e') ↦ rw (e, e', create_transfer) (same (s.create_calls + 1))
        ]
      ]

  move-funds :
      (c i : Text) (t : FixtureTransfer) (to : Target) (ft : Option Text) (s : FixtureRail)
      → get i s.transfers ≡ some t
      → is_terminal t.status ≡ false
      → funds c (move uuid text i t to ft s) ≡ funds c s
  unfolding move get_balance
  move-funds c i t Target.to_sent ft s h live = grind (
    int_laws,
    weight-put_old (λ _ x. outstanding c x) i (record t { status = TransferStatus.sent }) t
        s.transfers h,
  )
  move-funds c i t Target.to_paid ft s h live = grind (
    int_laws,
    weight-put_old (λ _ x. outstanding c x) i (record t { status = TransferStatus.paid }) t
        s.transfers h,
  )
  move-funds c i t Target.to_failed ft s h live =
      let t' : FixtureTransfer = record t {
        status = TransferStatus.cancelled;
        failure_type = some (elim ft [ some x ↦ x | none ↦ text.failure_other ]);
        failure_reason = some text.simulated_failure;
      } in
      grind (
        int_laws,
        weight-put_old (λ _ x. outstanding c x) i t' t s.transfers h,
        get-put c t.amount.currency (get_balance t.amount.currency s +ℤ pos t.amount.amount)
            s.balances,
      )

  move-IsFresh :
      (i : Text) (t : FixtureTransfer) (to : Target) (ft : Option Text) (s : FixtureRail)
      → get i s.transfers ≡ some t
      → IsFresh s
      → IsFresh (move uuid text i t to ft s)
  unfolding move
  move-IsFresh i t Target.to_sent ft s h fresh n le = ground (
    arith,
    fresh n le,
    get-put (uuid n) i (record t { status = TransferStatus.sent }) s.transfers,
  )
  move-IsFresh i t Target.to_paid ft s h fresh n le = ground (
    arith,
    fresh n le,
    get-put (uuid n) i (record t { status = TransferStatus.paid }) s.transfers,
  )
  move-IsFresh i t Target.to_failed ft s h fresh n le =
      let t' : FixtureTransfer = record t {
        status = TransferStatus.cancelled;
        failure_type = some (elim ft [ some x ↦ x | none ↦ text.failure_other ]);
        failure_reason = some text.simulated_failure;
      } in
      ground (arith, fresh n le, get-put (uuid n) i t' s.transfers)

  module _ (distinct : (m n : ℕ) → uuid m ≡ uuid n → m ≡ n) where
    record_transfer-IsFresh :
        (input : CreateTransferInput) (s : FixtureRail)
        → IsFresh s
        → IsFresh (record_transfer uuid text input s)
    unfolding record_transfer
    record_transfer-IsFresh input s fresh n le = ground (
      arith,
      fresh n (omega arith),
      distinct n s.drawn,
      get-put (uuid n) (uuid s.drawn) (new_transfer uuid text input s) s.transfers,
    )

    -- One call keeps the funds in a currency, and the ids to be drawn unused.
    abbrev Keeps : Text → ℤ → FixtureRail → Type 0
    Keeps c total s = (funds c s ≡ total) × IsFresh s

    create_transfer-Keeps :
        (c : Text) (total : ℤ) (input : CreateTransferInput) (s : FixtureRail)
        → Keeps c total s
        → Keeps c total (create_transfer uuid text input s).1
    unfolding get_balance
    create_transfer-Keeps c total input s (e, fresh) =
        create_transfer_keeps (Keeps c total) input s (λ n. (e, fresh))
          (λ n flag.
            let s' : FixtureRail = record s { create_calls = n } in
            (record_transfer-funds c input s' fresh ∙ e, record_transfer-IsFresh input s' fresh))

    transition-Keeps :
        (c : Text) (total : ℤ) (i : Text) (to : Target) (ft : Option Text) (s : FixtureRail)
        → Keeps c total s
        → Keeps c total (transition uuid text i to ft s).1
    unfolding transition
    transition-Keeps c total i to ft s (e, fresh) = elim (Option-cases (get i s.transfers)) [
      | inl none_there ↦ rw (none_there, transition) (e, fresh)
      | inr (t, there) ↦ elim (Bool-cases (is_terminal t.status)) [
        | inl ended ↦ rw (there, ended, transition) (e, fresh)
        | inr live ↦
            rw (there, live, transition)
              (move-funds c i t to ft s there live ∙ e, move-IsFresh i t to ft s there fresh)
      ]
    ]

    call_all-Keeps :
        (c : Text) (total : ℤ) (calls : List Call) (s : FixtureRail)
        → Keeps c total s
        → Keeps c total (call_all uuid text calls s)
    unfolding call_all call fail_next_create_with_timeout tamper_beneficiary get_balance
    call_all-Keeps c total [] s k = k
    call_all-Keeps c total (create input ∷ cs) s k =
        call_all-Keeps c total cs _ (create_transfer-Keeps c total input s k)
    call_all-Keeps c total (transition_to i to ft ∷ cs) s k =
        call_all-Keeps c total cs _ (transition-Keeps c total i to ft s k)
    call_all-Keeps c total (time_out_next ∷ cs) s k =
        call_all-Keeps c total cs (record s { fail_next_timeout = true }) k
    call_all-Keeps c total (set_beneficiary i fp ∷ cs) s k =
        call_all-Keeps c total cs (record s { beneficiaries = put i fp s.beneficiaries }) k

    -- After any calls on a rail without transfers, timeouts and failures included, the balance in
    -- each currency and the transfers in it that are not cancelled add up to the first balance, if
    -- no id is drawn twice.
    pub call_all-funds :
        (c : Text) (calls : List Call) (s : FixtureRail)
        → s.transfers ≡ []
        → funds c (call_all uuid text calls s) ≡ get_balance c s
    call_all-funds c calls s empty =
        let start : funds c s ≡ get_balance c s = rw empty (omega int_laws) in
        (call_all-Keeps c (get_balance c s) calls s (start, λ n le. rw empty)).0

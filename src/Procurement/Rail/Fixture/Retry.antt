-- ===== src/Procurement/Rail/Fixture/Retry.antt =====
-- What becomes of a request that is sent twice.
use ligis.Prelude.{
  ℕ, zero, suc, ◌+◌, ◌≡◌, ◌≢◌, refl, true, none, some, arith, get, put, get-put, Bool-cases, inl,
  inr,
}
use ligis.Procurement.Types.{Text}
use ligis.Procurement.Rail.{RailResult, CreateTransferInput, truthy}
use ligis.Procurement.Rail.Fixture.Defs.{
  FixtureTransfer, FixtureRail, Messages, handle, new_transfer, record_transfer, replay_transfer,
  is_same_operation, create_transfer, find_by_request_id,
}

truthy-some : (n : ℕ) → n ≢ 0 → truthy (some n) ≡ some n
truthy-some zero h = absurd (h refl)
truthy-some (suc n) h = refl

module _ (uuid : ℕ → Text) (text : Messages) (input : CreateTransferInput) where
  -- The rail holds the transfer under the request's id.
  abbrev Holds : FixtureTransfer → FixtureRail → Type 0
  Holds t s =
      (truthy (get input.request_id s.by_request_id) ≡ some t.id) × (get t.id s.transfers ≡ some t)

  create_transfer-Holds :
      (s : FixtureRail)
      → get input.request_id s.by_request_id ≡ none
      → uuid s.drawn ≢ 0
      → Holds (new_transfer uuid text input s) (create_transfer uuid text input s).1
  unfolding create_transfer record_transfer
  create_transfer-Holds s unknown id_set =
      let t = new_transfer uuid text input s in
      let by_request : truthy
            (get input.request_id (put input.request_id (uuid s.drawn) s.by_request_id))
          ≡ some (uuid s.drawn) =
        ground (
          arith,
          get-put input.request_id input.request_id (uuid s.drawn) s.by_request_id,
          truthy-some (uuid s.drawn) id_set,
        ) in
      let by_id : get (uuid s.drawn) (put (uuid s.drawn) t s.transfers) ≡ some t =
        ground (arith, get-put (uuid s.drawn) (uuid s.drawn) t s.transfers) in
      elim (Bool-cases s.fail_next_timeout) [
        | inl f ↦ rw (unknown, f, create_transfer) (by_request, by_id)
        | inr f ↦ rw (unknown, f, create_transfer) (by_request, by_id)
      ]

  Holds-answers :
      (t : FixtureTransfer) (s : FixtureRail)
      → is_same_operation t input ≡ true
      → Holds t s
      → (create_transfer uuid text input s
          ≡ (RailResult.ok (handle t), record s { create_calls = s.create_calls + 1 }))
        × (find_by_request_id uuid text input.request_id s ≡ (RailResult.ok (some (handle t)), s))
  unfolding create_transfer replay_transfer find_by_request_id
  Holds-answers t s same (e, e') =
      (rw (e, e', same, create_transfer, replay_transfer), rw (e, e', find_by_request_id))

  new_transfer_same :
      (s : FixtureRail) → is_same_operation (new_transfer uuid text input s) input ≡ true
  new_transfer_same s = ground arith

  -- A request that the rail has recorded is answered with its transfer, and not carried out again:
  -- also if the first answer was lost to a timeout, it is found by its id, and a retry changes
  -- nothing but the count of calls. The request's id is new, and the drawn id not empty.
  pub create_transfer-retry :
      (s : FixtureRail)
      → get input.request_id s.by_request_id ≡ none
      → uuid s.drawn ≢ 0
      → let s' = (create_transfer uuid text input s).1 in
        let answer = handle (new_transfer uuid text input s) in
        (create_transfer uuid text input s'
          ≡ (RailResult.ok answer, record s' { create_calls = s'.create_calls + 1 }))
        × (find_by_request_id uuid text input.request_id s' ≡ (RailResult.ok (some answer), s'))
  create_transfer-retry s unknown id_set =
      Holds-answers (new_transfer uuid text input s) (create_transfer uuid text input s).1
        (new_transfer_same s) (create_transfer-Holds s unknown id_set)

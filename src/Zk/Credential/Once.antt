-- ===== src/Zk/Credential/Once.antt =====
-- Of interleaved presentations with the same context and nullifier, at most one is accepted.
use ligis.Prelude.{
  ℕ, ◌≡◌, ◌≢◌, ◌⊎◌, inl, inr, sym, ap, subst, ◌∙◌, true, false, List, arith, Bool-cases,
}
use ligis.Wallet.Chars.{Text}
use ligis.Zk.Credential.Defs.{NullifierClaim, NullifierStore, RootSource, Phase}
use ligis.Zk.Credential.Evaluate.{
  context_key, nullifier_key, begin, check_proof, record_nullifier, memory_nullifier_store,
}
use ligis.Zk.Credential.Bound.{is_go, root-settled}
use ligis.Zk.Credential.Store.{StoreLaws, memory_laws}
use ligis.Zk.Credential.Steps.{
  Presentation, World, update, begins, checks, claims, Reached, at_first, after,
}

update-go :
    (phases : ℕ → Phase) (i : ℕ) (phase : Phase) (j : ℕ)
    → is_go (update phases i phase j) ≡ true
    → ((j ≡ i) × (is_go phase ≡ true)) ⊎ (is_go (phases j) ≡ true)
update-go phases i phase j h = ground arith

module _ (keccak : Text → ℕ) {S : Type 0} (nullifiers : NullifierStore S)
    (presented : ℕ → Presentation) where
  abbrev context_of : ℕ → Text
  context_of i = context_key (presented i).zk

  abbrev nullifier_of : ℕ → Text
  nullifier_of i = nullifier_key (presented i).zk

  module _ (laws : StoreLaws nullifiers) where
    -- Every accepted presentation is recorded, and no two of them share context and nullifier.
    record Invariant (w : World S) : Type 0 where
      recorded :
          (i : ℕ)
          → is_go (w.phases i) ≡ true
          → laws.uses w.store (context_of i) (nullifier_of i) ≡ true
      distinct :
          (i j : ℕ)
          → is_go (w.phases i) ≡ true
          → is_go (w.phases j) ≡ true
          → context_of i ≡ context_of j
          → nullifier_of i ≡ nullifier_of j
          → i ≡ j

    begin-not_go :
        (i : ℕ) (s : S)
        → is_go (begin keccak (presented i).zk (presented i).intent nullifiers (presented i).deps s)
          ≡ false
    unfolding begin
    begin-not_go i s =
        ground (arith, root-settled keccak (presented i).zk (presented i).intent (presented i).deps)

    check_proof-not_go :
        (i : ℕ) (source : RootSource)
        → is_go (check_proof (presented i).zk (presented i).deps source) ≡ false
    unfolding check_proof
    check_proof-not_go i source = ground arith

    record-go :
        (i : ℕ) (source : RootSource) (s : S)
        → is_go ((record_nullifier nullifiers (presented i).zk source s).0) ≡ true
        → ((nullifiers.claim s (context_of i) (nullifier_of i)).0 ≡ NullifierClaim.claimed)
    unfolding record_nullifier
    record-go i source s h = ground arith

    -- A step that accepts nothing and leaves the store keeps the invariant.
    quiet :
        (w : World S) (i : ℕ) (phase : Phase)
        → is_go phase ≡ false
        → Invariant w
        → Invariant (record { store = w.store; phases = update w.phases i phase })
    quiet w i phase h inv = record {
      recorded = λ j g. ground (arith, h, g, inv.recorded j);
      distinct = λ j k gj gk c n. ground (arith, h, gj, gk, c, n, inv.distinct j k);
    }

    -- The claim of one presentation, seen from another.
    claim-recorded :
        (w : World S) (i j : ℕ) (source : RootSource)
        → Invariant w
        → is_go
            (update w.phases i ((record_nullifier nullifiers (presented i).zk source w.store).0) j)
          ≡ true
        → laws.uses
            ((nullifiers.claim w.store (context_of i) (nullifier_of i)).1)
            (context_of j)
            (nullifier_of j)
          ≡ true
    claim-recorded w i j source inv g = elim (update-go w.phases i _ j g) [
      | inl (e, p) ↦
          subst
            (λ k.
              laws.uses ((nullifiers.claim w.store (context_of i) (nullifier_of i)).1)
                (context_of k) (nullifier_of k)
              ≡ true)
            (sym e)
            (laws.claim_records w.store (context_of i) (nullifier_of i)
              (record-go i source w.store p))
      | inr o ↦
          laws.claim_keeps w.store (context_of i) (nullifier_of i) (context_of j) (nullifier_of j)
            (inv.recorded j o)
    ]

    -- A successful claim is of a pair that no accepted presentation has.
    claim-other :
        (w : World S) (i j : ℕ) (source : RootSource)
        → Invariant w
        → is_go ((record_nullifier nullifiers (presented i).zk source w.store).0) ≡ true
        → is_go (w.phases j) ≡ true
        → context_of i ≡ context_of j
        → nullifier_of i ≡ nullifier_of j
        → i ≡ j
    claim-other w i j source inv p o c n = ground (
      arith,
      laws.claims_fresh w.store (context_of i) (nullifier_of i) (record-go i source w.store p),
      subst (λ x. laws.uses w.store x (nullifier_of j) ≡ true) (sym c) (inv.recorded j o),
      ap (λ x. laws.uses w.store (context_of i) x) n,
    )

    claim-distinct :
        (w : World S) (i j k : ℕ) (source : RootSource)
        → Invariant w
        → is_go
            (update w.phases i ((record_nullifier nullifiers (presented i).zk source w.store).0) j)
          ≡ true
        → is_go
            (update w.phases i ((record_nullifier nullifiers (presented i).zk source w.store).0) k)
          ≡ true
        → context_of j ≡ context_of k
        → nullifier_of j ≡ nullifier_of k
        → j ≡ k
    claim-distinct w i j k source inv gj gk c n = elim (update-go w.phases i _ j gj) [
      | inl (e, p) ↦ elim (update-go w.phases i _ k gk) [
        | inl (e', p') ↦ e ∙ sym e'
        | inr o ↦
            e
            ∙ claim-other w i k source inv p o (ap context_of (sym e) ∙ c)
                (ap nullifier_of (sym e) ∙ n)
      ]
      | inr o ↦ elim (update-go w.phases i _ k gk) [
        | inl (e', p') ↦ sym (
            e'
            ∙ claim-other w i j source inv p' o (sym (c ∙ ap context_of e'))
                (sym (n ∙ ap nullifier_of e')))
        | inr o' ↦ inv.distinct j k o o' c n
      ]
    ]

    claim-Invariant :
        (w : World S) (i : ℕ) (source : RootSource)
        → Invariant w
        → Invariant (record {
          store = (record_nullifier nullifiers (presented i).zk source w.store).1;
          phases =
              update w.phases i ((record_nullifier nullifiers (presented i).zk source w.store).0);
        })
    unfolding record_nullifier
    claim-Invariant w i source inv = record {
      recorded = λ j g. claim-recorded w i j source inv g;
      distinct = λ j k gj gk c n. claim-distinct w i j k source inv gj gk c n;
    }

    Reached-Invariant :
        (s : S) (w : World S) → Reached keccak nullifiers presented s w → Invariant w
    Reached-Invariant s _ at_first = record {
      recorded = λ i g. ground (arith, g);
      distinct = λ i j g h c n. ground (arith, g);
    }
    Reached-Invariant s _ (after r (begins {w} i e)) =
        quiet w i _ (begin-not_go i w.store) (Reached-Invariant s w r)
    Reached-Invariant s _ (after r (checks {w} i source e)) =
        quiet w i _ (check_proof-not_go i source) (Reached-Invariant s w r)
    Reached-Invariant s _ (after r (claims {w} i source e)) =
        claim-Invariant w i source (Reached-Invariant s w r)

    Reached-distinct :
        (s : S) (w : World S)
        → Reached keccak nullifiers presented s w
        → (i j : ℕ) → is_go (w.phases i) ≡ true
        → is_go (w.phases j) ≡ true
        → context_key (presented i).zk ≡ context_key (presented j).zk
        → nullifier_key (presented i).zk ≡ nullifier_key (presented j).zk
        → i ≡ j
    Reached-distinct s w r = (Reached-Invariant s w r).distinct

-- In whatever order presentations are evaluated, each cut at its awaits, the gate's own store lets at
-- most one of those with the same context and the same nullifier be accepted.
pub memory_nullifier_store-distinct :
    (keccak : Text → ℕ) (presented : ℕ → Presentation) (used : List Text) (w : World (List Text))
    → Reached keccak memory_nullifier_store presented used w
    → (i j : ℕ) → i ≢ j
    → context_key (presented i).zk ≡ context_key (presented j).zk
    → nullifier_key (presented i).zk ≡ nullifier_key (presented j).zk
    → is_go (w.phases i) ≡ true
    → is_go (w.phases j) ≡ false
memory_nullifier_store-distinct keccak presented used w r i j d c n g =
    elim (Bool-cases (is_go (w.phases j))) [
      | inl g' ↦
          elim (d (
            Reached-distinct keccak memory_nullifier_store presented memory_laws used w r i j g g' c
              n)) [ ]
      | inr h ↦ h
    ]

-- ===== src/Zk/Credential/Steps.antt =====
-- Presentations whose evaluations interleave: between two awaits of one, any of the others may run.
use ligis.Prelude.{ℕ, ◌≡◌, ◌==◌, if◌then◌else◌}
use ligis.Wallet.Chars.{Text}
use ligis.Zk.Credential.Defs.{ZkProofInput, Intent, NullifierStore, ZkDeps, RootSource, Phase}
use ligis.Zk.Credential.Evaluate.{begin, check_proof, record_nullifier}

pub record Presentation : Type 0 where
  pub zk : ZkProofInput
  pub intent : Intent
  pub deps : ZkDeps

pub record World (S : Type 0) : Type 0 where
  pub store : S
  pub phases : ℕ → Phase

abbrev pub update : (ℕ → Phase) → ℕ → Phase → ℕ → Phase
update phases i phase j = if j == i then phase else phases j

module _ (keccak : Text → ℕ) {S : Type 0} (nullifiers : NullifierStore S)
    (presented : ℕ → Presentation) where
  -- One stretch of one evaluation, from an await to the next.
  pub data Step : World S → World S → Type 0 where
    begins :
        {w : World S} (i : ℕ)
        → w.phases i ≡ Phase.waiting
        → Step w (record {
          store = w.store;
          phases = update w.phases i (
              begin keccak
                (presented i).zk
                (presented i).intent
                nullifiers
                (presented i).deps
                w.store);
        })
    checks :
        {w : World S} (i : ℕ) (source : RootSource)
        → w.phases i ≡ Phase.unseen source
        → Step w (record {
          store = w.store;
          phases = update w.phases i (check_proof (presented i).zk (presented i).deps source);
        })
    claims :
        {w : World S} (i : ℕ) (source : RootSource)
        → w.phases i ≡ Phase.proved source
        → Step w (record {
          store = (record_nullifier nullifiers (presented i).zk source w.store).1;
          phases =
              update w.phases i ((record_nullifier nullifiers (presented i).zk source w.store).0);
        })

  -- The worlds that presentations lead to, from a store and none of them begun.
  pub data Reached (s : S) : World S → Type 0 where
    at_first : Reached s (record { store = s; phases = λ i. Phase.waiting })
    after : {w v : World S} → Reached s w → Step w v → Reached s v

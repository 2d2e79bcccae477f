-- ===== src/Zk/Credential/Store.antt =====
-- What the evaluation relies on of a nullifier store, and that `MemoryNullifierStore` fulfils it.
use ligis.Prelude.{◌≡◌, Bool, true, false, arith}
use ligis.Wallet.Chars.{Text, text_eq_refl}
use ligis.Zk.Credential.Defs.{NullifierClaim, NullifierStore}
use ligis.Zk.Credential.Evaluate.{store_key, has, memory_nullifier_store}

-- `uses` says which pairs a store has recorded: a claim succeeds only for a pair that is not, records
-- it, and forgets none.
pub record StoreLaws {S : Type 0} (nullifiers : NullifierStore S) : Type 0 where
  pub uses : S → Text → Text → Bool
  pub claims_fresh :
      (s : S) (context nullifier : Text)
      → (nullifiers.claim s context nullifier).0 ≡ NullifierClaim.claimed
      → uses s context nullifier ≡ false
  pub claim_records :
      (s : S) (context nullifier : Text)
      → (nullifiers.claim s context nullifier).0 ≡ NullifierClaim.claimed
      → uses ((nullifiers.claim s context nullifier).1) context nullifier ≡ true
  pub claim_keeps :
      (s : S) (context nullifier context' nullifier' : Text)
      → uses s context' nullifier' ≡ true
      → uses ((nullifiers.claim s context nullifier).1) context' nullifier' ≡ true

pub memory_laws : StoreLaws memory_nullifier_store
unfolding memory_nullifier_store
memory_laws = record {
  uses = λ used context nullifier. has used (store_key context nullifier);
  claims_fresh = λ used context nullifier h. ground (arith, h);
  claim_records =
      λ used context nullifier h. ground (arith, h, text_eq_refl (store_key context nullifier));
  claim_keeps = λ used context nullifier context' nullifier' h. ground (arith, h);
}

-- ===== src/Rln/NullifierLog.antt =====
-- waku/v2/protocol/rln/nullifier_log.go. `equals` stands for the method `Equals` of a proof's
-- metadata, and `max_epoch_gap` for the 20 seconds of `maxClockGapSeconds` in epochs, whose length
-- the RLN library sets.
pub mod Duplicates
pub mod Cleanup
mod Tests
use go_waku.Base.{
  ℕ, ◌≡◌, Bool, true, false, not, ◌&&◌, ◌||◌, none, some, List, [], ◌∷◌, ◌++◌, ltb, if◌then◌else◌,
  length, take, drop, ite,
}
use go_waku.Base.Text.{same, Text, text_dec}
use go_waku.Base.Dict.{Dict, lookup, insert, erase}
use go_waku.Base.Result.{Result, ok, err}

-- The fields of `rln.ProofMetadata` that the log reads.
pub record ProofMetadata : Type 0 where
  pub nullifier : Text
  pub share_x : Text
  pub share_y : Text
  pub external_nullifier : Text

-- The queue has an entry for each stored proof.
pub record NullifierLog : Type 0 where
  pub nullifier_log : Dict Text (List ProofMetadata)
  pub nullifier_queue : List Text

abbrev pub new_nullifier_log : NullifierLog
new_nullifier_log = record { nullifier_log = []; nullifier_queue = [] }

pub data NullifierError : Type 0 where
  already_exists : NullifierError

-- `n.nullifierLog[e]`, or nothing.
unfoldable pub proofs_of : NullifierLog → Text → List ProofMetadata
proofs_of n e = elim (lookup text_dec e n.nullifier_log) [ none ↦ [] | some proofs ↦ proofs ]

-- The loop for a message with the same nullifier and other secret shares.
unfoldable pub matches : ProofMetadata → List ProofMetadata → Bool
matches p [] = false
matches p (it ∷ rest) =
    if same it.nullifier p.nullifier
      && (not (same it.share_x p.share_x) || not (same it.share_y p.share_y))
    then true
    else matches p rest

module _ (equals : ProofMetadata → ProofMetadata → Bool) where
  -- The loop for an identical record.
  unfoldable pub has_equal : ProofMetadata → List ProofMetadata → Bool
  has_equal p [] = false
  has_equal p (q ∷ rest) = if equals q p then true else has_equal p rest

  unfoldable pub insert_proof : ProofMetadata → NullifierLog → Result NullifierError NullifierLog
  insert_proof p n =
      let proofs = proofs_of n p.external_nullifier in
      if has_equal p proofs
      then err already_exists
      else ok (record {
        nullifier_log = insert text_dec p.external_nullifier (proofs ++ p ∷ []) n.nullifier_log;
        nullifier_queue = n.nullifier_queue ++ p.external_nullifier ∷ [];
      })

  -- Without an entry for the epoch there is nothing to find.
  unfoldable pub has_duplicate : ProofMetadata → NullifierLog → Bool
  has_duplicate p n =
      let proofs = proofs_of n p.external_nullifier in
      if has_equal p proofs then true else matches p proofs

-- `for _, l := range toDelete { delete(n.nullifierLog, l) }`.
unfoldable pub forget_epochs :
    List Text → Dict Text (List ProofMetadata) → Dict Text (List ProofMetadata)
forget_epochs [] m = m
forget_epochs (e ∷ es) m = forget_epochs es (erase text_dec e m)

-- What `cleanup` does at a tick of its timer.
unfoldable pub cleanup : ℕ → NullifierLog → NullifierLog
cleanup max_epoch_gap n = if ltb (length n.nullifier_queue) max_epoch_gap then n else record {
  nullifier_log = forget_epochs (take max_epoch_gap n.nullifier_queue) n.nullifier_log;
  nullifier_queue = drop max_epoch_gap n.nullifier_queue;
}

-- ===== src/Rln/Relay/RateLimit.antt =====
-- How many messages of an epoch pass.
use go_waku.Base.{
  ℕ, suc, ◌+◌, ◌≤◌, ◌≡◌, ◌↔◌, refl, ap₂, Bool, true, false, ◌&&◌, none, some, List, [], ◌∷◌, arith,
  if◌then◌else◌, inl, inr,
}
use go_waku.Base.Text.{same, Text, text_dec}
use go_waku.Base.Dict.{lookup}
use go_waku.Protocol.Message.{WakuMessage}
use go_waku.Rln.NullifierLog.{ProofMetadata, new_nullifier_log, proofs_of}
use go_waku.Rln.NullifierLog.Duplicates.{
  AreFiled, stored, uses, has_duplicate-stored, stored-insert_proof, insert_proof-AreFiled,
}
use go_waku.Rln.Relay.{WakuRlnRelay, RlnLibrary, validator, validate_all}
use go_waku.Rln.Relay.Storage.{metadata, validator-cases}

module _ {Proof : Type 0} (rln : RlnLibrary Proof) where
  -- The message's metadata have the epoch and the nullifier.
  unfoldable pub is_of : WakuMessage → Text → Text → Bool
  is_of msg e x = elim (metadata rln msg) [
    | none ↦ false
    | some md ↦ same md.external_nullifier e && same md.nullifier x
  ]

  -- How many of the messages that passed have the epoch and the nullifier.
  unfoldable pub passed : List (Text × WakuMessage) → List Bool → Text → Text → ℕ
  passed ((_, msg) ∷ rest) (flag ∷ more) e x =
      let others = passed rest more e x in if flag && is_of msg e x then suc others else others
  passed _ _ e x = 0

  -- `equals` compares all of a proof's metadata.
  module _ (decides : (p q : ProofMetadata) → (rln.equals p q ≡ true) ↔ (p ≡ q)) where
    step-stored :
        (epoch : Text) (relay : WakuRlnRelay) (msg : WakuMessage) (e x : Text)
        → AreFiled relay.nullifier_log
        → stored relay.nullifier_log e x ≤ 1
        → AreFiled (validator rln epoch relay msg).0.nullifier_log
          × (stored (validator rln epoch relay msg).0.nullifier_log e x
              ≡ (if (validator rln epoch relay msg).1 && is_of msg e x then 1 else 0)
                + stored relay.nullifier_log e x)
          × (stored (validator rln epoch relay msg).0.nullifier_log e x ≤ 1)
    unfolding is_of
    step-stored epoch relay msg e x filed few = elim (validator-cases rln epoch relay msg) [
      | inl (md, read, flag, fresh, made) ↦
          let after = (validator rln epoch relay msg).0.nullifier_log in
          let filed' =
            insert_proof-AreFiled rln.equals decides md relay.nullifier_log after made filed in
          let now = stored-insert_proof rln.equals decides md relay.nullifier_log after e x made in
          let before = has_duplicate-stored rln.equals decides md relay.nullifier_log filed in
          elim (text_dec md.external_nullifier e) [
            | yes f ↦ elim (text_dec md.nullifier x) [
              | yes g ↦
                  let there = ap₂ (stored relay.nullifier_log) f g in
                  (
                    filed',
                    ground (arith, read, flag, now, f, g),
                    ground (arith, now, before, fresh, there, f, g),
                  )
              | no g ↦ (filed', ground (arith, read, flag, now), ground (arith, now))
            ]
            | no f ↦ (filed', ground (arith, read, flag, now), ground (arith, now))
          ]
      | inr (flag, kept) ↦ (rw kept filed, rw (kept, flag) (omega arith), rw kept few)
    ]

    validate_all-stored :
        (relay : WakuRlnRelay) (msgs : List (Text × WakuMessage)) (e x : Text)
        → AreFiled relay.nullifier_log
        → stored relay.nullifier_log e x ≤ 1
        → passed msgs (validate_all rln relay msgs).1 e x + stored relay.nullifier_log e x ≤ 1
    unfolding validate_all passed
    validate_all-stored relay [] e x filed few = omega (arith, few)
    validate_all-stored relay ((epoch, msg) ∷ rest) e x filed few =
        let relay' = (validator rln epoch relay msg).0 in
        let (filed', now, few') = step-stored epoch relay msg e x filed few in
        let later = validate_all-stored relay' rest e x filed' few' in ground (arith, now, later)

    -- Of any messages that the validator gets one after the other, starting from an empty log and
    -- with no tick of its timer between them, at most one passes for each epoch and nullifier.
    pub passed-le-one :
        (relay : WakuRlnRelay) (msgs : List (Text × WakuMessage)) (e x : Text)
        → relay.nullifier_log ≡ new_nullifier_log
        → passed msgs (validate_all rln relay msgs).1 e x ≤ 1
    passed-le-one relay msgs e x empty =
        let nothing : stored relay.nullifier_log e x ≡ 0 =
          rw empty (unfold stored proofs_of lookup uses in refl) in
        omega (arith, validate_all-stored relay msgs e x (rw empty tt) (omega (arith, nothing)))

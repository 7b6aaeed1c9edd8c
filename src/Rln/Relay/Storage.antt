-- ===== src/Rln/Relay/Storage.antt =====
-- What the validation of a message stores.
use go_waku.Base.{
  ◌≡◌, ◌≢◌, refl, ap, Bool, true, false, not, Option, none, some, arith, Bool-cases, if-elim, ◌⊎◌,
  inl, inr,
}
use go_waku.Base.Text.{Text}
use go_waku.Base.Result.{Result, ok, err, panic}
use go_waku.Protocol.Message.{WakuMessage}
use go_waku.Rln.NullifierLog.{ProofMetadata, insert_proof, has_duplicate}
use go_waku.Rln.NullifierLog.Duplicates.{not-has_equal}
use go_waku.Rln.RootTracker.{contains_root}
use go_waku.Rln.Relay.{
  WakuRlnRelay, RlnLibrary, MessageValidationResult, ValidationError, Validated, bad_proof,
  verification_failed, valid_message, invalid_message, spam_message, abs, bytes_to_rate_limit_proof,
  verify_proof, check_nullifier, check_proof, validate_message, verdict, validator, exceeds,
}

module _ {Proof : Type 0} (rln : RlnLibrary Proof) where
  -- A valid message is stored and anything else changes nothing.
  abbrev Stores : WakuRlnRelay → ProofMetadata → Validated → Type 0
  Stores relay md v =
      ((v.1 ≡ ok valid_message)
        × (has_duplicate rln.equals md relay.nullifier_log ≡ false)
        × (insert_proof rln.equals md relay.nullifier_log ≡ ok v.0.nullifier_log))
      ⊎ ((v.1 ≢ ok valid_message) × (v.0 ≡ relay))

  check_nullifier-Stores :
      (relay : WakuRlnRelay) (md : ProofMetadata) → Stores relay md (check_nullifier rln relay md)
  unfolding check_nullifier
  check_nullifier-Stores relay md =
      elim (Bool-cases (has_duplicate rln.equals md relay.nullifier_log)) [
        | inl dup ↦ inr (λ e. ground arith, ground arith)
        | inr fresh ↦
            let (n, made) = not-has_equal rln.equals md relay.nullifier_log fresh in
            inl (rw (fresh, made) refl, fresh, rw (fresh, made) refl)
      ]

  -- Nothing is stored for a message that is not valid.
  refused :
      (relay : WakuRlnRelay) (md : ProofMetadata)
      (r : Result ValidationError MessageValidationResult)
      → r ≢ ok valid_message
      → Stores relay md (relay, r)
  refused relay md r h = inr (h, refl)

  check_proof-Stores :
      (epoch : Text) (relay : WakuRlnRelay) (msg : WakuMessage) (proof : Proof) (md : ProofMetadata)
      → Stores relay md (check_proof rln epoch relay msg proof md)
  unfolding check_proof
  check_proof-Stores epoch relay msg proof md =
      let Good : Validated → Type 0 = Stores relay md in
      if-elim Good (exceeds (abs (rln.gap epoch proof)) rln.max_epoch_gap) _ _
        (λ far. refused relay md (ok invalid_message) (λ e. cc))
        (λ near.
          if-elim Good (not (contains_root (rln.merkle_root proof) relay.root_tracker)) _ _
            (λ unknown. refused relay md (ok invalid_message) (λ e. cc))
            (λ known. go (verify_proof rln relay msg proof)))
    where
      go :
          (v : Option Bool)
          → Stores relay md (elim v [
            | none ↦ (relay, err verification_failed)
            | some false ↦ (relay, ok invalid_message)
            | some true ↦ check_nullifier rln relay md
          ])
      go none = refused relay md (err verification_failed) (λ e. cc)
      go (some false) = refused relay md (ok invalid_message) (λ e. cc)
      go (some true) = check_nullifier-Stores relay md

  -- The metadata of the proof that a message carries.
  unfoldable pub metadata : WakuMessage → Option ProofMetadata
  metadata msg = elim (bytes_to_rate_limit_proof rln msg.rate_limit_proof) [
    | none ↦ none
    | some none ↦ none
    | some (some proof) ↦ rln.extract_metadata proof
  ]

  -- A valid message has metadata, and these are stored; otherwise the relay is as it was.
  abbrev Validates : WakuRlnRelay → Option ProofMetadata → Validated → Type 0
  Validates relay found v =
      ((md : ProofMetadata) × (found ≡ some md)
        × (v.1 ≡ ok valid_message)
        × (has_duplicate rln.equals md relay.nullifier_log ≡ false)
        × (insert_proof rln.equals md relay.nullifier_log ≡ ok v.0.nullifier_log))
      ⊎ ((v.1 ≢ ok valid_message) × (v.0 ≡ relay))

  check_metadata-Validates :
      (epoch : Text) (relay : WakuRlnRelay) (msg : WakuMessage) (proof : Proof)
      (found : Option ProofMetadata)
      → Validates relay found (elim found as (λ _. Validated) [
        | none ↦ (relay, ok invalid_message)
        | some proof_md ↦ check_proof rln epoch relay msg proof proof_md
      ])
  check_metadata-Validates epoch relay msg proof none = inr (λ e. cc, refl)
  check_metadata-Validates epoch relay msg proof (some md) =
      elim (check_proof-Stores epoch relay msg proof md) [
        | inl (valid, fresh, made) ↦ inl (md, refl, valid, fresh, made)
        | inr (bad, kept) ↦ inr (bad, kept)
      ]

  validate_message-Validates :
      (epoch : Text) (relay : WakuRlnRelay) (msg : WakuMessage)
      → Validates relay (metadata msg) (validate_message rln epoch relay (some msg))
  unfolding validate_message metadata
  validate_message-Validates epoch relay msg =
      elim (bytes_to_rate_limit_proof rln msg.rate_limit_proof)
        as (λ o.
          Validates relay
            (elim o [
              | none ↦ none
              | some none ↦ none
              | some (some proof) ↦ rln.extract_metadata proof
            ])
            (elim o as (λ _. Validated) [
              | none ↦ (relay, err bad_proof)
              | some none ↦ (relay, ok invalid_message)
              | some (some proof) ↦ elim (rln.extract_metadata proof) [
                | none ↦ (relay, ok invalid_message)
                | some proof_md ↦ check_proof rln epoch relay msg proof proof_md
              ]
            ])) [
              | none ↦ inr (λ e. cc, refl)
              | some none ↦ inr (λ e. cc, refl)
              | some (some proof) ↦
                  check_metadata-Validates epoch relay msg proof (rln.extract_metadata proof)
            ]

  verdict-refused :
      (r : Result ValidationError MessageValidationResult)
      → r ≢ ok valid_message
      → (verdict r).0 ≡ false
  unfolding verdict
  verdict-refused (ok valid_message) h = absurd (h refl)
  verdict-refused (ok invalid_message) h = refl
  verdict-refused (ok spam_message) h = refl
  verdict-refused (err _) h = refl
  verdict-refused panic h = refl

  -- A message that passes the validator is valid, and one that does not leaves the relay as it was.
  pub validator-cases :
      (epoch : Text) (relay : WakuRlnRelay) (msg : WakuMessage)
      → ((md : ProofMetadata) × (metadata msg ≡ some md)
          × ((validator rln epoch relay msg).1 ≡ true)
          × (has_duplicate rln.equals md relay.nullifier_log ≡ false)
          × (insert_proof rln.equals md relay.nullifier_log
              ≡ ok (validator rln epoch relay msg).0.nullifier_log))
        ⊎ (((validator rln epoch relay msg).1 ≡ false)
            × ((validator rln epoch relay msg).0 ≡ relay))
  unfolding validator verdict
  validator-cases epoch relay msg = elim (validate_message-Validates epoch relay msg) [
    | inl (md, read, valid, fresh, made) ↦
        inl (md, read, ap (λ r. (verdict r).0) valid, fresh, made)
    | inr (bad, kept) ↦ inr (verdict-refused _ bad, kept)
  ]

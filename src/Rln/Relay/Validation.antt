-- ===== src/Rln/Relay/Validation.antt =====
-- When a message is valid.
use go_waku.Rln.Relay.{
  exceeds, WakuRlnRelay, RlnLibrary, Validated, bad_proof, valid_message, invalid_message, abs,
  bytes_to_rate_limit_proof, verify_proof, check_nullifier, check_proof, validate_message,
}
use go_waku.Base.{
  some-injective, ◌≡◌, ◌≢◌, ◌↔◌, refl, sym, ap, ◌∙◌, true, false, Option, none, some, arith,
}
use go_waku.Base.Text.{Text}
use go_waku.Base.Result.{ok, err}
use go_waku.Protocol.Message.{WakuMessage}
use go_waku.Rln.NullifierLog.{ProofMetadata, has_duplicate}
use go_waku.Rln.NullifierLog.Duplicates.{not-has_equal}
use go_waku.Rln.RootTracker.{contains_root}

module _ {A : Type 0} where
  some-ne-none : {x : A} → ◌≢◌ {A = Option A} (some x) none
  some-ne-none e = cc

  proof-injective : {x y : A} → ◌≡◌ {A = Option (Option A)} (some (some x)) (some (some y)) → x ≡ y
  proof-injective e = cc

  differ : {o : Option (Option A)} {x : A} → o ≡ none → o ≢ some (some x)
  differ e f = cc

  differ' : {o : Option (Option A)} {x : A} → o ≡ some none → o ≢ some (some x)
  differ' e f = cc

module _ {Proof : Type 0} (rln : RlnLibrary Proof) where
  -- What makes a message valid, for the proof that it carries.
  abbrev Passes : Text → WakuRlnRelay → WakuMessage → Proof → ProofMetadata → Type 0
  Passes epoch relay msg proof md =
      (exceeds (abs (rln.gap epoch proof)) rln.max_epoch_gap ≡ false)
      × (contains_root (rln.merkle_root proof) relay.root_tracker ≡ true)
      × (verify_proof rln relay msg proof ≡ some true)
      × (has_duplicate rln.equals md relay.nullifier_log ≡ false)

  abbrev IsAccepted : Text → WakuRlnRelay → WakuMessage → Type 0
  IsAccepted epoch relay msg =
      (proof : Proof) × (md : ProofMetadata) × (bytes_to_rate_limit_proof rln msg.rate_limit_proof
        ≡ some (some proof))
      × (rln.extract_metadata proof ≡ some md)
      × Passes epoch relay msg proof md

  check_nullifier-valid :
      (relay : WakuRlnRelay) (md : ProofMetadata)
      → ((check_nullifier rln relay md).1 ≡ ok valid_message)
        ↔ (has_duplicate rln.equals md relay.nullifier_log ≡ false)
  unfolding check_nullifier
  check_nullifier-valid relay md = (
    λ e. ground arith,
    λ fresh.
        let (n, made) = not-has_equal rln.equals md relay.nullifier_log fresh in
        rw (fresh, made) refl,
  )

  check_proof-valid :
      (epoch : Text) (relay : WakuRlnRelay) (msg : WakuMessage) (proof : Proof) (md : ProofMetadata)
      → ((check_proof rln epoch relay msg proof md).1 ≡ ok valid_message)
        ↔ Passes epoch relay msg proof md
  unfolding check_proof
  check_proof-valid epoch relay msg proof md =
      let (sound, complete) = check_nullifier-valid relay md in
      (λ e. ground (arith, sound), λ h. ground (arith, complete h.3))

  -- A message is valid exactly when it carries a proof with metadata, the gap of whose epoch, as `abs`
  -- computes it with floats, is not above the largest one,
  -- whose root is one of the tracker's, which verifies, and whose nullifier is no duplicate.
  pub validate_message_iff :
      (epoch : Text) (relay : WakuRlnRelay) (msg : WakuMessage)
      → ((validate_message rln epoch relay (some msg)).1 ≡ ok valid_message)
        ↔ IsAccepted epoch relay msg
  unfolding validate_message
  validate_message_iff epoch relay msg =
      go (bytes_to_rate_limit_proof rln msg.rate_limit_proof) refl
    where
      go :
          (o : Option (Option Proof))
          → bytes_to_rate_limit_proof rln msg.rate_limit_proof ≡ o
          → ((elim o as (λ _. Validated) [
            | none ↦ (relay, err bad_proof)
            | some none ↦ (relay, ok invalid_message)
            | some (some proof) ↦ elim (rln.extract_metadata proof) [
              | none ↦ (relay, ok invalid_message)
              | some proof_md ↦ check_proof rln epoch relay msg proof proof_md
            ]
          ]).1
              ≡ ok valid_message)
            ↔ IsAccepted epoch relay msg
      go none e = (λ h. absurd (cc), λ a. absurd (let (p, _, f, _, _) = a in differ e f))
      go (some none) e = (λ h. absurd (cc), λ a. absurd (let (p, _, f, _, _) = a in differ' e f))
      go (some (some proof)) e = inner (rln.extract_metadata proof) refl
        where
          inner :
              (m : Option ProofMetadata)
              → rln.extract_metadata proof ≡ m
              → ((elim m as (λ _. Validated) [
                | none ↦ (relay, ok invalid_message)
                | some proof_md ↦ check_proof rln epoch relay msg proof proof_md
              ]).1
                  ≡ ok valid_message)
                ↔ IsAccepted epoch relay msg
          inner none f = (
            λ h. absurd (cc),
            λ a. absurd (
                let (p, md, g, k, _) = a in
                let same_proof : proof ≡ p = proof-injective (sym e ∙ g) in
                some-ne-none (sym k ∙ ap rln.extract_metadata (sym same_proof) ∙ f)),
          )
          inner (some md) f =
              let (sound, complete) = check_proof-valid epoch relay msg proof md in
              (
                λ h. (proof, md, e, f, sound h),
                λ a.
                    let (p, md', g, k, passes) = a in
                    let same_proof : proof ≡ p = proof-injective (sym e ∙ g) in
                    let same_md : md ≡ md' =
                      some-injective (sym f ∙ ap rln.extract_metadata same_proof ∙ k) in
                    complete (rw (same_proof, same_md) passes),
              )

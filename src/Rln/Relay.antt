-- ===== src/Rln/Relay.antt =====
-- waku/v2/protocol/rln/waku_rln_relay.go and common.go: the validation of a message. Go's RLN and
-- protobuf libraries are parameters; the metrics and the log are not modelled.
pub mod Validation
mod Storage
pub mod RateLimit
mod Tests
use go_waku.Base.{
  ◌||◌, ◌-◌, ◌*◌, ◌%◌, ◌^◌, ◌/◌, ℕ, suc, Bool, true, false, not, Option, none, some, List, [], ◌∷◌,
  ◌++◌, ltb, if◌then◌else◌, zero, ◌==◌, ◌&&◌, ◌+◌,
}
use go_waku.Base.Int.{ℤ, pos, negsuc}
use go_waku.Base.Text.{Text}
use go_waku.Base.Result.{Result, ok, err, panic}
use go_waku.Protocol.Message.{WakuMessage}
use go_waku.Rln.NullifierLog.{ProofMetadata, NullifierLog, insert_proof, has_duplicate}
use go_waku.Rln.RootTracker.{MerkleRootTracker, contains_root, roots}

pub data MessageValidationResult : Type 0 where
  valid_message invalid_message spam_message : MessageValidationResult

pub data ValidationError : Type 0 where
  nil_message bad_proof verification_failed insertion_failed : ValidationError

pub record WakuRlnRelay : Type 0 where
  pub nullifier_log : NullifierLog
  pub root_tracker : MerkleRootTracker

-- A step's relay with its result, or with the error that comes with `validationError`.
abbrev pub Validated : Type 0
Validated = WakuRlnRelay × Result ValidationError MessageValidationResult

-- The distance of two neighbours among the 64-bit floats around `n`, with fuel enough up to `2 ^ 64`.
unfoldable pub float_unit : ℕ → ℕ → ℕ
float_unit zero n = 1
float_unit (suc fuel) n =
    let half = float_unit fuel (n / 2) in if ltb n (2 ^ 53) then 1 else 2 * half

-- The nearest multiple of `u`, the even one of two.
unfoldable pub round_even : ℕ → ℕ → ℕ
round_even u n =
    let q = n / u in
    let r = n % u in if ltb u (2 * r) || (2 * r == u) && (q % 2 == 1) then (q + 1) * u else q * u

-- `float64(n)` of an integer of 64 bits that is not negative.
unfoldable pub to_float64 : ℕ → ℕ
to_float64 n = round_even (float_unit 11 n) n

abbrev pub magnitude : ℤ → ℕ
magnitude (pos n) = n
magnitude (negsuc n) = suc n

-- `int64(math.Abs(float64(gap)))`. A float of `2 ^ 63` does not fit, and gives the least integer on
-- amd64.
unfoldable pub abs : ℤ → ℤ
abs gap =
    let f = to_float64 (magnitude gap) in if ltb f (2 ^ 63) then pos f else negsuc (2 ^ 63 - 1)

-- `n > bound`.
unfoldable pub exceeds : ℤ → ℕ → Bool
exceeds (pos n) bound = ltb bound n
exceeds (negsuc n) bound = false

-- What the RLN library does with proofs of type `Proof`: `unmarshal` is the body of
-- `BytesToRateLimitProof` behind the test for nil, `gap` is `Diff` of the current epoch and the
-- proof's, and `verify` is given the signal, the proof and the valid roots.
pub record RlnLibrary (Proof : Type 0) : Type 0 where
  pub unmarshal : Text → Option Proof
  pub extract_metadata : Proof → Option ProofMetadata
  pub merkle_root : Proof → Text
  pub gap : Text → Proof → ℤ
  pub verify : Text → Proof → List Text → Option Bool
  pub equals : ProofMetadata → ProofMetadata → Bool
  pub max_epoch_gap : ℕ

unfoldable pub to_rln_signal : Option WakuMessage → Text
to_rln_signal none = []
to_rln_signal (some msg) = msg.payload ++ msg.content_topic

-- The switch of `Validator`: whether the message passes, and whether it is spam.
unfoldable pub verdict : Result ValidationError MessageValidationResult → Bool × Bool
verdict (ok valid_message) = (true, false)
verdict (ok invalid_message) = (false, false)
verdict (ok spam_message) = (false, true)
verdict (err _) = (false, false)
verdict panic = (false, false)

module _ {Proof : Type 0} (rln : RlnLibrary Proof) where
  -- The outer `Option` is the error, the inner one the pointer.
  unfoldable pub bytes_to_rate_limit_proof : Option Text → Option (Option Proof)
  bytes_to_rate_limit_proof none = some none
  bytes_to_rate_limit_proof (some bytes) = elim (rln.unmarshal bytes) [
    | none ↦ none
    | some proof ↦ some (some proof)
  ]

  unfoldable pub verify_proof : WakuRlnRelay → WakuMessage → Proof → Option Bool
  verify_proof relay msg proof =
      rln.verify (msg.payload ++ msg.content_topic) proof (roots relay.root_tracker)

  -- The check for double messaging, and the insertion.
  unfoldable pub check_nullifier : WakuRlnRelay → ProofMetadata → Validated
  check_nullifier relay proof_md =
      if has_duplicate rln.equals proof_md relay.nullifier_log
      then (relay, ok spam_message)
      else elim (insert_proof rln.equals proof_md relay.nullifier_log) [
        | ok n ↦ (record relay { nullifier_log = n }, ok valid_message)
        | _ ↦ (relay, err insertion_failed)
      ]

  -- From the epoch on.
  unfoldable pub check_proof : Text → WakuRlnRelay → WakuMessage → Proof → ProofMetadata → Validated
  check_proof epoch relay msg proof proof_md =
      if exceeds (abs (rln.gap epoch proof)) rln.max_epoch_gap
      then (relay, ok invalid_message)
      else if not (contains_root (rln.merkle_root proof) relay.root_tracker)
      then (relay, ok invalid_message)
      else elim (verify_proof relay msg proof) [
        | none ↦ (relay, err verification_failed)
        | some false ↦ (relay, ok invalid_message)
        | some true ↦ check_nullifier relay proof_md
      ]

  -- `epoch` is the one of the optional time, or of the time source.
  unfoldable pub validate_message : Text → WakuRlnRelay → Option WakuMessage → Validated
  validate_message epoch relay none = (relay, err nil_message)
  validate_message epoch relay (some msg) = elim (bytes_to_rate_limit_proof msg.rate_limit_proof) [
    | none ↦ (relay, err bad_proof)
    | some none ↦ (relay, ok invalid_message)
    | some (some proof) ↦ elim (rln.extract_metadata proof) [
      | none ↦ (relay, ok invalid_message)
      | some proof_md ↦ check_proof epoch relay msg proof proof_md
    ]
  ]

  -- The relay, whether the message passes, and whether the spam handler is called.
  unfoldable pub validator : Text → WakuRlnRelay → WakuMessage → WakuRlnRelay × Bool × Bool
  validator epoch relay msg =
      let result = validate_message epoch relay (some msg) in
      (result.0, (verdict result.1).0, (verdict result.1).1)

  -- The messages of a topic one after the other, each with the epoch of its arrival, and which
  -- of them passed.
  unfoldable pub validate_all : WakuRlnRelay → List (Text × WakuMessage) → WakuRlnRelay × List Bool
  validate_all relay [] = (relay, [])
  validate_all relay ((epoch, msg) ∷ rest) =
      let (relay', passed, _) = validator epoch relay msg in
      let (last, more) = validate_all relay' rest in (last, passed ∷ more)

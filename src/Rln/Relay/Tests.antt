-- ===== src/Rln/Relay/Tests.antt =====
-- Runs of waku_rln_relay.go, and instances of the theorems, over a toy RLN library: a proof is a
-- nullifier and a share, which the bytes spell.
use go_waku.Base.{
  ℕ, ℕ_discrete, ◌≤◌, ◌≡◌, ◌↔◌, refl, Bool, true, false, ◌&&◌, Option, none, some, List, [], ◌∷◌,
  arith, ◌+◌, ◌-◌, ◌^◌,
}
use go_waku.Base.Int.{pos, negsuc}
use go_waku.Base.Text.{same, Text, codes, text_dec}
use go_waku.Base.Dict.{lookup, insert}
use go_waku.Base.Result.{ok, err}
use go_waku.Protocol.Message.{WakuMessage}
use go_waku.Rln.NullifierLog.{
  ProofMetadata, new_nullifier_log, proofs_of, matches, has_equal, insert_proof, has_duplicate,
}
use go_waku.Rln.RootTracker.{index_in, index_of, contains_root, roots}
use go_waku.Rln.Relay.{
  WakuRlnRelay, RlnLibrary, valid_message, nil_message, abs, bytes_to_rate_limit_proof,
  verify_proof, check_nullifier, check_proof, validate_message, verdict, validator, validate_all,
  exceeds, to_float64, round_even, float_unit,
}
use go_waku.Rln.Relay.Storage.{metadata}
use go_waku.Rln.Relay.Validation.{validate_message_iff}
use go_waku.Rln.Relay.RateLimit.{is_of, passed, passed-le-one}

program : Unit {0}
unfolding ℕ_discrete text_dec lookup insert proofs_of matches has_equal insert_proof has_duplicate
    index_in index_of contains_root roots abs exceeds to_float64 round_even float_unit
    bytes_to_rate_limit_proof verify_proof check_nullifier check_proof validate_message verdict
    validator validate_all metadata is_of passed
program = tt

abbrev all_fields : ProofMetadata → ProofMetadata → Bool
all_fields p q =
    same p.nullifier q.nullifier
    && (same p.share_x q.share_x
        && (same p.share_y q.share_y && same p.external_nullifier q.external_nullifier))

all_fields_iff : (p q : ProofMetadata) → (all_fields p q ≡ true) ↔ (p ≡ q)
all_fields_iff p q = (λ h. ground arith, λ e. ground arith)

abbrev read_toy : Text → Option (ℕ × ℕ)
read_toy (n ∷ share ∷ []) = some (n, share)
read_toy _ = none

abbrev toy_metadata : ℕ × ℕ → ProofMetadata
toy_metadata (n, share) = record {
  nullifier = n ∷ [];
  share_x = share ∷ [];
  share_y = share ∷ [];
  external_nullifier = codes "e";
}

abbrev toy : RlnLibrary (ℕ × ℕ)
toy = record {
  unmarshal = read_toy;
  extract_metadata = λ p. some (toy_metadata p);
  merkle_root = λ p. codes "r";
  gap = λ epoch p. pos 0;
  verify = λ signal p rs. some true;
  equals = all_fields;
  max_epoch_gap = 20;
}

abbrev start : WakuRlnRelay
start = record {
  nullifier_log = new_nullifier_log;
  root_tracker = record {
    acceptable_root_window_size = 5;
    valid_merkle_roots = record { root = codes "r"; block_number = 0 } ∷ [];
    merkle_root_buffer = [];
  };
}

abbrev message : ℕ → ℕ → WakuMessage
message n share = record {
  payload = codes "p";
  content_topic = codes "c";
  version = none;
  timestamp = none;
  meta = none;
  ephemeral = none;
  rate_limit_proof = some (n ∷ share ∷ []);
}

abbrev three : List (Text × WakuMessage)
three = (codes "0", message 1 1) ∷ (codes "0", message 1 2) ∷ (codes "0", message 2 1) ∷ []

relay_tests :
    ((validate_all toy start three).1 ≡ true ∷ false ∷ true ∷ [])
    × ((validator toy (codes "0") start (record (message 1 1) { rate_limit_proof = none })).1
        ≡ false)
    × ((validate_message toy (codes "0") start none).1 ≡ err nil_message)
    × ((validate_message toy (codes "0") start (some (message 1 1))).1 ≡ ok valid_message)
unfolding program
relay_tests = (refl, refl, refl, refl)

-- Gaps up to `2 ^ 53` are exact, larger ones are rounded, and the largest pass as if they were small.
gap_tests :
    (exceeds (abs (negsuc 20)) 20 ≡ true)
    × (exceeds (abs (negsuc 19)) 20 ≡ false)
    × (to_float64 (2 ^ 53 + 1) ≡ 2 ^ 53)
    × (to_float64 (2 ^ 53 + 3) ≡ 2 ^ 53 + 4)
    × (exceeds (abs (pos (2 ^ 63 - 513))) 20 ≡ true)
    × (exceeds (abs (pos (2 ^ 63 - 512))) 20 ≡ false)
    × (exceeds (abs (negsuc (2 ^ 63 - 1))) 20 ≡ false)
unfolding program
gap_tests = (refl, refl, refl, refl, refl, refl, refl)

passed-le-one_example : passed toy three (validate_all toy start three).1 (codes "e") (1 ∷ []) ≤ 1
passed-le-one_example = passed-le-one toy all_fields_iff start three (codes "e") (1 ∷ []) refl

validate_message_iff_example :
    ((validate_message toy (codes "0") start (some (message 1 1))).1 ≡ ok valid_message) ↔ (
      (proof : ℕ × ℕ) × (md : ProofMetadata) × (bytes_to_rate_limit_proof toy (some (1 ∷ 1 ∷ []))
        ≡ some (some proof))
      × (toy.extract_metadata proof ≡ some md)
      × ((exceeds (abs (toy.gap (codes "0") proof)) 20 ≡ false)
          × (contains_root (toy.merkle_root proof) start.root_tracker ≡ true)
          × (verify_proof toy start (message 1 1) proof ≡ some true)
          × (has_duplicate all_fields md new_nullifier_log ≡ false)))
validate_message_iff_example = validate_message_iff toy (codes "0") start (message 1 1)

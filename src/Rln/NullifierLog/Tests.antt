-- ===== src/Rln/NullifierLog/Tests.antt =====
-- Runs of nullifier_log.go, and instances of the theorems. `all_fields` stands for `Equals`.
use go_waku.Base.{
  ℕ_discrete, ◌≡◌, ◌↔◌, refl, Bool, true, false, ◌&&◌, [], ◌∷◌, arith, if◌then◌else◌, ◌==◌,
}
use go_waku.Base.Text.{same, codes, text_dec}
use go_waku.Base.Dict.{lookup, insert, erase}
use go_waku.Base.Keys.{contains}
use go_waku.Base.Result.{ok, err}
use go_waku.Rln.NullifierLog.{
  ProofMetadata, NullifierLog, already_exists, new_nullifier_log, proofs_of, matches, has_equal,
  insert_proof, has_duplicate, forget_epochs, cleanup,
}
use go_waku.Rln.NullifierLog.Duplicates.{uses, stored, has_duplicate-stored}

program : Unit {0}
unfolding ℕ_discrete text_dec lookup insert erase contains proofs_of matches has_equal insert_proof
    has_duplicate forget_epochs cleanup uses stored
program = tt

abbrev all_fields : ProofMetadata → ProofMetadata → Bool
all_fields p q =
    same p.nullifier q.nullifier
    && (same p.share_x q.share_x
        && (same p.share_y q.share_y && same p.external_nullifier q.external_nullifier))

all_fields_iff : (p q : ProofMetadata) → (all_fields p q ≡ true) ↔ (p ≡ q)
all_fields_iff p q = (λ h. ground arith, λ e. ground arith)

abbrev first : ProofMetadata
first = record {
  nullifier = codes "n";
  share_x = codes "x";
  share_y = codes "y";
  external_nullifier = codes "e";
}

abbrev second : ProofMetadata
second = record first { share_y = codes "z" }

abbrev other : ProofMetadata
other = record first { nullifier = codes "m" }

abbrev one_proof : NullifierLog
one_proof = record {
  nullifier_log = (codes "e", first ∷ []) ∷ [];
  nullifier_queue = codes "e" ∷ [];
}

log_tests :
    (insert_proof all_fields first new_nullifier_log ≡ ok one_proof)
    × (insert_proof all_fields first one_proof ≡ err already_exists)
    × (has_duplicate all_fields first one_proof ≡ true)
    × (has_duplicate all_fields second one_proof ≡ true)
    × (has_duplicate all_fields other one_proof ≡ false)
    × (cleanup 1 one_proof ≡ new_nullifier_log)
    × (cleanup 2 one_proof ≡ one_proof)
unfolding program
log_tests = (refl, refl, refl, refl, refl, refl, refl)

has_duplicate-stored_example :
    has_duplicate all_fields second one_proof
    ≡ (if stored one_proof (codes "e") (codes "n") == 0 then false else true)
has_duplicate-stored_example =
    has_duplicate-stored all_fields all_fields_iff second one_proof ((refl, tt), tt)

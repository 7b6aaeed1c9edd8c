-- ===== src/Rln/RootTracker.antt =====
-- waku/v2/protocol/rln/group_manager/root_tracker.go. A root is a text of bytes, and
-- `UpdateLatestRoot` is given what `GetMerkleRoot` of the RLN library returns.
pub mod Window
pub mod Fork
pub mod Backfill
mod Tests
use go_waku.Base.{
  ℕ, zero, suc, ◌+◌, ◌-◌, ◌≡◌, Bool, true, false, Option, none, some, List, [], ◌∷◌, ◌++◌, ltb, leb,
  ◌==◌, if◌then◌else◌, length, take, drop, map, ite,
}
use go_waku.Base.Windows.{tail}
use go_waku.Base.Lists.{get_elem?}
use go_waku.Base.Text.{Text, text_dec}
use go_waku.Base.Result.{Result, ok, err, panic}

pub record RootsPerBlock : Type 0 where
  pub root : Text
  pub block_number : ℕ

pub record MerkleRootTracker : Type 0 where
  pub acceptable_root_window_size : ℕ
  pub valid_merkle_roots : List RootsPerBlock
  pub merkle_root_buffer : List RootsPerBlock

abbrev pub max_buffer_size : ℕ
max_buffer_size = 20

-- The valid roots above the window: the oldest one moves to the buffer.
unfoldable pub keep_window : MerkleRootTracker → MerkleRootTracker
keep_window m =
    if ltb m.acceptable_root_window_size (length m.valid_merkle_roots)
    then record m {
      merkle_root_buffer = m.merkle_root_buffer ++ take 1 m.valid_merkle_roots;
      valid_merkle_roots = tail m.valid_merkle_roots;
    }
    else m

unfoldable pub keep_buffer : MerkleRootTracker → MerkleRootTracker
keep_buffer m =
    if ltb max_buffer_size (length m.merkle_root_buffer)
    then record m { merkle_root_buffer = tail m.merkle_root_buffer }
    else m

unfoldable pub push_root : ℕ → Text → MerkleRootTracker → MerkleRootTracker
push_root block_number root m = keep_buffer (
    keep_window (record m {
      valid_merkle_roots =
          m.valid_merkle_roots ++ record { root = root; block_number = block_number } ∷ [];
    }))

-- The new tracker and the root, or the panic when the library gives no root.
unfoldable pub update_latest_root :
    ℕ → Option Text → MerkleRootTracker → Result Text (MerkleRootTracker × Text)
update_latest_root block_number none m = panic
update_latest_root block_number (some root) m = ok (push_root block_number root m, root)

unfoldable pub new_merkle_root_tracker : ℕ → Option Text → Result Text (MerkleRootTracker × Text)
new_merkle_root_tracker window found = update_latest_root 0 found (record {
  acceptable_root_window_size = window;
  valid_merkle_roots = [];
  merkle_root_buffer = [];
})

-- The loop that counts the roots from a block on.
unfoldable pub count_from : ℕ → List RootsPerBlock → ℕ
count_from from [] = 0
count_from from (r ∷ rest) =
    if leb from r.block_number then suc (count_from from rest) else count_from from rest

abbrev pub min : ℕ → ℕ → ℕ
min m n = if ltb n m then n else m

-- The last element and the ones before it.
unfoldable pub pop : List RootsPerBlock → Option (List RootsPerBlock × RootsPerBlock)
pop [] = none
pop (r ∷ []) = some ([], r)
pop (r ∷ s ∷ rest) = elim (pop (s ∷ rest)) [
  | none ↦ none
  | some (before, last) ↦ some (r ∷ before, last)
]

-- The loop that moves roots from the end of the buffer to the front of the valid ones. It takes no
-- more than there are.
unfoldable pub restore : ℕ → MerkleRootTracker → MerkleRootTracker
restore zero m = m
restore (suc n) m = elim (pop m.merkle_root_buffer) [
  | none ↦ m
  | some (before, x) ↦
      restore n
        (record m { valid_merkle_roots = x ∷ m.valid_merkle_roots; merkle_root_buffer = before })
]

unfoldable pub backfill : ℕ → MerkleRootTracker → MerkleRootTracker
backfill from m =
    let num_blocks = count_from from m.valid_merkle_roots in
    let size = length m.valid_merkle_roots in
    let popped = record m {
      valid_merkle_roots = take (size - min num_blocks size) m.valid_merkle_roots;
    } in
    if num_blocks == 0 then m else restore (min num_blocks (length m.merkle_root_buffer)) popped

-- The index of a root, where the code gives -1 for none.
unfoldable pub index_in : Text → List RootsPerBlock → Option ℕ
index_in root [] = none
index_in root (r ∷ rest) =
    ite (text_dec r.root root) (some 0)
      (elim (index_in root rest) [ none ↦ none | some i ↦ some (suc i) ])

unfoldable pub index_of : Text → MerkleRootTracker → Option ℕ
index_of root m = index_in root m.valid_merkle_roots

unfoldable pub contains_root : Text → MerkleRootTracker → Bool
contains_root root m = elim (index_of root m) [ none ↦ false | some _ ↦ true ]

unfoldable pub roots : MerkleRootTracker → List Text
roots m = map (λ (r : RootsPerBlock). r.root) m.valid_merkle_roots

unfoldable pub buffer : MerkleRootTracker → List Text
buffer m = map (λ (r : RootsPerBlock). r.root) m.merkle_root_buffer

unfoldable pub set_valid_roots_per_block :
    List RootsPerBlock → MerkleRootTracker → MerkleRootTracker
set_valid_roots_per_block rs m = record m { valid_merkle_roots = rs }

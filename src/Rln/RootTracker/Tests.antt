-- ===== src/Rln/RootTracker/Tests.antt =====
-- Runs of root_tracker.go, and instances of the theorems.
use go_waku.Base.{ℕ, ℕ_discrete, ◌≡◌, refl, true, none, some, [], ◌∷◌}
use go_waku.Base.Text.{text_dec}
use go_waku.Base.Result.{panic}
use go_waku.Rln.RootTracker.{
  RootsPerBlock, MerkleRootTracker, keep_window, keep_buffer, push_root, update_latest_root,
  new_merkle_root_tracker, count_from, pop, restore, backfill, index_in, index_of, contains_root,
  roots, buffer,
}
use go_waku.Rln.RootTracker.Window.{joined, push_all, empty_tracker, push_all_lem}
use go_waku.Rln.RootTracker.Backfill.{backfill_lem}

program : Unit {0}
unfolding ℕ_discrete text_dec keep_window keep_buffer push_root update_latest_root
    new_merkle_root_tracker count_from pop restore backfill index_in index_of contains_root roots
    buffer push_all
program = tt

abbrev at_block : ℕ → RootsPerBlock
at_block n = record { root = n ∷ []; block_number = n }

abbrev four : MerkleRootTracker
four = record {
  acceptable_root_window_size = 2;
  valid_merkle_roots = at_block 3 ∷ at_block 4 ∷ [];
  merkle_root_buffer = at_block 1 ∷ at_block 2 ∷ [];
}

abbrev deep_fork : MerkleRootTracker
deep_fork = record four {
  valid_merkle_roots = at_block 1 ∷ at_block 2 ∷ [];
  merkle_root_buffer = [];
}

tracker_tests :
    (push_all (at_block 1 ∷ at_block 2 ∷ at_block 3 ∷ at_block 4 ∷ []) (empty_tracker 2) ≡ four)
    × (backfill 4 four ≡ record four {
      valid_merkle_roots = at_block 2 ∷ at_block 3 ∷ [];
      merkle_root_buffer = at_block 1 ∷ [];
    })
    × (backfill 2 four ≡ deep_fork)
    × (contains_root (2 ∷ []) deep_fork ≡ true)
    × (index_of (4 ∷ []) four ≡ some 1)
    × (update_latest_root 5 none four ≡ panic)
unfolding program
tracker_tests = (refl, refl, refl, refl, refl, refl)

push_all_lem_example :
    ((push_all (at_block 1 ∷ at_block 2 ∷ at_block 3 ∷ []) (empty_tracker 2)).valid_merkle_roots
      ≡ at_block 2 ∷ at_block 3 ∷ [])
    × (joined (push_all (at_block 1 ∷ at_block 2 ∷ at_block 3 ∷ []) (empty_tracker 2))
        ≡ at_block 1 ∷ at_block 2 ∷ at_block 3 ∷ [])
push_all_lem_example = push_all_lem 2 (at_block 1 ∷ at_block 2 ∷ at_block 3 ∷ [])

backfill_lem_example :
    ((backfill 4 four).valid_merkle_roots ≡ at_block 2 ∷ at_block 3 ∷ [])
    × ((backfill 4 four).merkle_root_buffer ≡ at_block 1 ∷ [])
unfolding program
backfill_lem_example = backfill_lem 4 four

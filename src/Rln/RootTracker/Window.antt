-- ===== src/Rln/RootTracker/Window.antt =====
-- The window of valid roots after pushes.
use go_waku.Base.{
  ℕ, ◌+◌, ◌-◌, ◌≡◌, refl, sym, ap, ◌∙◌, List, [], ◌∷◌, ◌++◌, arith, ltb, if◌then◌else◌, length,
  take, drop, Bool-cases, ltb→lt, inl, inr, append_assoc, append-nil,
}
use go_waku.Base.Windows.{tail, drop-nil, tail-append, take-tail, last-push}
use go_waku.Base.Lists.{length-append, length-drop, length-take}
use go_waku.Rln.RootTracker.{
  RootsPerBlock, MerkleRootTracker, max_buffer_size, keep_window, keep_buffer, push_root,
}

-- The roots in the order in which they were pushed, the buffered ones first.
abbrev pub joined : MerkleRootTracker → List RootsPerBlock
joined m = m.merkle_root_buffer ++ m.valid_merkle_roots

-- The pushed roots are the history, the blocks and roots one after the other.
unfoldable pub push_all : List RootsPerBlock → MerkleRootTracker → MerkleRootTracker
push_all [] m = m
push_all (r ∷ rs) m = push_all rs (push_root r.block_number r.root m)

-- A tracker that has the latest roots of a history.
pub record IsLatest (history : List RootsPerBlock) (m : MerkleRootTracker) : Type 0 where
  pub valid : m.valid_merkle_roots ≡ drop (length history - m.acceptable_root_window_size) history
  pub all :
      joined m ≡ drop (length history - (m.acceptable_root_window_size + max_buffer_size)) history

abbrev with_root : MerkleRootTracker → RootsPerBlock → MerkleRootTracker
with_root m r = record m { valid_merkle_roots = m.valid_merkle_roots ++ r ∷ [] }

keep_window-joined : (m : MerkleRootTracker) → joined (keep_window m) ≡ joined m
unfolding keep_window
keep_window-joined m =
    let moved : (m.merkle_root_buffer ++ take 1 m.valid_merkle_roots) ++ tail m.valid_merkle_roots
        ≡ joined m =
      append_assoc m.merkle_root_buffer (take 1 m.valid_merkle_roots) (tail m.valid_merkle_roots)
      ∙ ap (◌++◌ m.merkle_root_buffer) (take-tail m.valid_merkle_roots) in
    ground (arith, moved)

keep_window-valid :
    (m : MerkleRootTracker)
    → (keep_window m).valid_merkle_roots ≡ (
        if ltb m.acceptable_root_window_size (length m.valid_merkle_roots)
        then tail m.valid_merkle_roots
        else m.valid_merkle_roots)
unfolding keep_window
keep_window-valid m = ground arith

keep_buffer-joined :
    (m : MerkleRootTracker)
    → joined (keep_buffer m)
      ≡ (if ltb max_buffer_size (length m.merkle_root_buffer) then tail (joined m) else joined m)
unfolding keep_buffer
keep_buffer-joined m = elim (Bool-cases (ltb max_buffer_size (length m.merkle_root_buffer))) [
  | inl e ↦
      rw (e)
        (sym (tail-append m.merkle_root_buffer m.valid_merkle_roots (omega (arith, ltb→lt _ _ e))))
  | inr e ↦ rw (e) refl
]

keep_buffer-valid :
    (m : MerkleRootTracker) → (keep_buffer m).valid_merkle_roots ≡ m.valid_merkle_roots
unfolding keep_buffer
keep_buffer-valid m = ground arith

keep_window-window :
    (m : MerkleRootTracker)
    → (keep_window m).acceptable_root_window_size ≡ m.acceptable_root_window_size
unfolding keep_window
keep_window-window m = ground arith

keep_buffer-window :
    (m : MerkleRootTracker)
    → (keep_buffer m).acceptable_root_window_size ≡ m.acceptable_root_window_size
unfolding keep_buffer
keep_buffer-window m = ground arith

-- How many roots there are after a push, before the buffer is cut.
keep_window-length :
    (history : List RootsPerBlock) (m : MerkleRootTracker) (r : RootsPerBlock)
    → IsLatest history m
    → ltb max_buffer_size (length (keep_window (with_root m r)).merkle_root_buffer)
      ≡ ltb (m.acceptable_root_window_size + max_buffer_size) (length (joined m ++ r ∷ []))
keep_window-length history m r h =
    let w = m.acceptable_root_window_size in
    let v = ap length h.valid in
    let j = ap length h.all in
    let lv = length-drop (length history - w) history in
    let lj = length-drop (length history - (w + max_buffer_size)) history in
    let sj = length-append m.merkle_root_buffer m.valid_merkle_roots in
    let s1 = length-append (joined m) (r ∷ []) in
    let s2 = length-append m.valid_merkle_roots (r ∷ []) in
    let s3 = length-append m.merkle_root_buffer (take 1 (m.valid_merkle_roots ++ r ∷ [])) in
    let s4 = length-take 1 (m.valid_merkle_roots ++ r ∷ []) in
    unfold keep_window in ground (arith, v, j, lv, lj, sj, s1, s2, s3, s4)

push_root-IsLatest :
    (history : List RootsPerBlock) (m : MerkleRootTracker) (r : RootsPerBlock)
    → IsLatest history m
    → IsLatest (history ++ r ∷ []) (push_root r.block_number r.root m)
unfolding push_root
push_root-IsLatest history m r h =
    let w = m.acceptable_root_window_size in
    let pushed = with_root m r in
    let kept = keep_window pushed in
    let same : (keep_buffer kept).acceptable_root_window_size ≡ w =
      keep_buffer-window kept ∙ keep_window-window pushed in
    let roots : (keep_buffer kept).valid_merkle_roots
        ≡ drop (length (history ++ r ∷ []) - w) (history ++ r ∷ []) =
      keep_buffer-valid kept
      ∙ keep_window-valid pushed
      ∙ rw h.valid (sym (last-push w history r)) in
    let longer : joined kept ≡ joined m ++ r ∷ [] =
      keep_window-joined pushed
      ∙ sym (append_assoc m.merkle_root_buffer m.valid_merkle_roots (r ∷ [])) in
    let both : joined (keep_buffer kept)
        ≡ drop (length (history ++ r ∷ []) - (w + max_buffer_size)) (history ++ r ∷ []) =
      keep_buffer-joined kept
      ∙ rw (keep_window-length history m r h, longer)
          (rw h.all (sym (last-push (w + max_buffer_size) history r))) in
    record { valid = rw same roots; all = rw same both }

abbrev pub empty_tracker : ℕ → MerkleRootTracker
empty_tracker window = record {
  acceptable_root_window_size = window;
  valid_merkle_roots = [];
  merkle_root_buffer = [];
}

push_root-window :
    (m : MerkleRootTracker) (r : RootsPerBlock)
    → (push_root r.block_number r.root m).acceptable_root_window_size
      ≡ m.acceptable_root_window_size
unfolding push_root
push_root-window m r =
    keep_buffer-window (keep_window (with_root m r)) ∙ keep_window-window (with_root m r)

push_all-IsLatest :
    (rs history : List RootsPerBlock) (m : MerkleRootTracker)
    → IsLatest history m
    → IsLatest (history ++ rs) (push_all rs m)
      × ((push_all rs m).acceptable_root_window_size ≡ m.acceptable_root_window_size)
unfolding push_all
push_all-IsLatest [] history m h = (rw (append-nil history) h, refl)
push_all-IsLatest (r ∷ rs) history m h =
    let (latest, size) =
      push_all-IsLatest rs (history ++ r ∷ []) (push_root r.block_number r.root m)
        (push_root-IsLatest history m r h) in
    (rw (append_assoc history (r ∷ []) rs) at latest, size ∙ push_root-window m r)

-- After any pushes, the valid roots are the latest ones, as many as the window holds, in the order
-- in which they came; the buffer has the 20 before them, or all of them.
pub push_all_lem :
    (window : ℕ) (rs : List RootsPerBlock)
    → ((push_all rs (empty_tracker window)).valid_merkle_roots ≡ drop (length rs - window) rs)
      × (joined (push_all rs (empty_tracker window))
          ≡ drop (length rs - (window + max_buffer_size)) rs)
push_all_lem window rs =
    let (latest, same) = push_all-IsLatest rs [] (empty_tracker window) (record {
      valid = sym (drop-nil (0 - window));
      all = sym (drop-nil (0 - (window + max_buffer_size)));
    }) in
    (rw same at latest.valid, rw same at latest.all)

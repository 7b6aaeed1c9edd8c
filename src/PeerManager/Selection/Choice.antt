-- ===== src/PeerManager/Selection/Choice.antt =====
-- The random choice of peers from a set.
use go_waku.Base.{
  ℕ, zero, suc, ◌+◌, ◌-◌, ◌<◌, ◌≡◌, refl, sym, ap, ◌∙◌, false, List, [], ◌∷◌, ◌++◌, arith, ◌==◌,
  if◌then◌else◌, length, take, Bool-cases, inl, inr, append_assoc, append-nil,
}
use go_waku.Base.Text.{Text, text_dec}
use go_waku.Base.Keys.{contains, add, contains-append}
use go_waku.Base.Occurrences.{IsNodup}
use go_waku.Base.Result.{Result, ok, err}
use go_waku.PeerManager.Selection.{
  PeerSet, SelectionError, no_peers_available, peer_in_set, select_loop, get_random, allowed,
}

add-append :
    (p : Text) (s : PeerSet) → contains text_dec p s ≡ false → add text_dec p s ≡ s ++ p ∷ []
unfolding contains add
add-append p [] h = refl
add-append p (q ∷ s) h = ground (arith, add-append p s)

-- None of the peers is selected.
abbrev Fresh : List Text → PeerSet → Type 0
Fresh [] s = Unit
Fresh (p ∷ ps) s = (contains text_dec p s ≡ false) × Fresh ps s

Fresh-snoc :
    (ps : List Text) (p : Text) (s : PeerSet)
    → contains text_dec p ps ≡ false
    → Fresh ps s
    → Fresh ps (s ++ p ∷ [])
unfolding contains
Fresh-snoc [] p s h f = tt
Fresh-snoc (q ∷ ps) p s h f =
    (ground (arith, contains-append text_dec q s (p ∷ [])), Fresh-snoc ps p s (ground arith) f.1)

Fresh-nil : (ps : List Text) → Fresh ps []
unfolding contains
Fresh-nil [] = tt
Fresh-nil (p ∷ ps) = (refl, Fresh-nil ps)

take_one : (n : ℕ) (p : Text) (ps : List Text) → 0 < n → take n (p ∷ ps) ≡ p ∷ take (n - 1) ps
take_one zero p ps h = elim h [ ]
take_one (suc n) p ps h = let e : suc n - 1 ≡ n = omega arith in rw e refl

nothing_taken : (n : ℕ) (s : PeerSet) → s ≡ s ++ take n []
nothing_taken zero s = sym (append-nil s)
nothing_taken (suc n) s = sym (append-nil s)

-- The loop selects the first peers that are not excluded, up to the count.
select_loop_lem :
    (count : ℕ) (exclude : PeerSet) (ps : List Text) (i : ℕ) (selected : PeerSet)
    → i < count
    → IsNodup text_dec ps
    → Fresh ps selected
    → select_loop count exclude ps i selected ≡ selected ++ take (count - i) (allowed exclude ps)
unfolding select_loop allowed
select_loop_lem count exclude [] i selected h n f = nothing_taken (count - i) selected
select_loop_lem count exclude (p ∷ ps) i selected h n f =
    let rest = allowed exclude ps in
    let added = add-append p selected f.0 in
    let taken = take_one (count - i) p rest (omega arith) in
    elim (Bool-cases (peer_in_set exclude p)) [
      | inl out ↦ rw out (select_loop_lem count exclude ps i selected h n.1 f.1)
      | inr in_it ↦ elim (Bool-cases (i + 1 == count)) [
        | inl full ↦
            let last : count - i - 1 ≡ 0 = ground arith in
            rw (in_it, full)
              (added ∙ ap (λ (l : PeerSet). selected ++ l) (sym (taken ∙ rw last refl)))
        | inr room ↦
            let more =
              select_loop_lem count exclude ps (i + 1) (selected ++ p ∷ []) (ground arith) n.1
                (Fresh-snoc ps p selected n.0 f.1) in
            let e : count - (i + 1) ≡ count - i - 1 = omega arith in
            rw (in_it, room)
              (ap (select_loop count exclude ps (i + 1)) added
                ∙ more
                ∙ append_assoc selected (p ∷ []) (take (count - (i + 1)) rest)
                ∙ ap (λ (l : PeerSet). selected ++ l) (sym (taken ∙ rw e refl)))
      ]
    ]

picked :
    (count : ℕ) (l : PeerSet)
    → 0 < count
    → ◌≡◌ {A = Result SelectionError PeerSet}
        (if length (take count l) == 0 then err no_peers_available else ok (take count l))
        (if length l == 0 then err no_peers_available else ok (take count l))
picked zero l h = elim h [ ]
picked (suc n) [] h = refl
picked (suc n) (p ∷ l) h = ground arith

-- A choice from a set gives the first peers that are not excluded, as many as there are up to the count
-- (which is not zero), and the error for no peers if there are none.
pub get_random_lem :
    (filter : PeerSet) (count : ℕ) (exclude : PeerSet)
    → 0 < count
    → IsNodup text_dec filter
    → get_random filter count exclude ≡ (
        if length (allowed exclude filter) == 0
        then err no_peers_available
        else ok (take count (allowed exclude filter)))
unfolding get_random
get_random_lem filter count exclude h n =
    let e : count - 0 ≡ count = omega arith in
    rw (select_loop_lem count exclude filter 0 [] h n (Fresh-nil filter), e)
      (picked count (allowed exclude filter) h)

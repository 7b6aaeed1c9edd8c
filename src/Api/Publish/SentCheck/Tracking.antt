-- ===== src/Api/Publish/SentCheck/Tracking.antt =====
-- Which messages are waited for, before and after the end of a round.
use go_waku.Base.{
  ℕ, ◌≡◌, inl, inr, refl, ap, ◌∙◌, Bool, false, ◌&&◌, ◌||◌, Option, none, List, [], ◌∷◌, arith, ite,
  ◌==◌, if◌then◌else◌, length, Option-cases,
}
use go_waku.Base.Text.{Text, text_dec, same}
use go_waku.Base.Dict.{or_empty, Dict, lookup, insert, erase, lookup-insert, lookup-erase}
use go_waku.Base.Keys.{contains}
use go_waku.Api.Publish.SentCheck.{MessageIds, delete_hashes, settle}

-- The time at which a message was sent, if it is waited for.
unfoldable pub tracked : Text → Text → MessageIds → Option ℕ
tracked p h ids = lookup text_dec h (or_empty (lookup text_dec p ids))

keep_or_drop :
    (topic p : Text) (left : Dict Text ℕ) (ids : MessageIds)
    → or_empty (
        lookup text_dec p
          (if length left == 0 then erase text_dec topic ids else insert text_dec topic left ids))
      ≡ ite (text_dec topic p) left (or_empty (lookup text_dec p ids))
keep_or_drop topic p [] ids = ground (arith, lookup-erase text_dec topic p ids)
keep_or_drop topic p (e ∷ left) ids = ground (arith, lookup-insert text_dec topic p (e ∷ left) ids)

tracked-delete_hashes :
    (p h topic : Text) (hashes : List Text) (sub_msgs : Dict Text ℕ) (ids : MessageIds)
    → or_empty (lookup text_dec topic ids) ≡ sub_msgs
    → tracked p h (delete_hashes topic hashes sub_msgs ids)
      ≡ (if same topic p && contains text_dec h hashes then none else tracked p h ids)
unfolding tracked delete_hashes contains
tracked-delete_hashes p h topic [] sub_msgs ids e = ground arith
tracked-delete_hashes p h topic (hash ∷ hashes) sub_msgs ids e =
    let left = erase text_dec hash sub_msgs in
    let ids' =
      if length left == 0 then erase text_dec topic ids else insert text_dec topic left ids in
    ground (
      arith,
      tracked-delete_hashes p h topic hashes left ids'
          (keep_or_drop topic topic left ids ∙ ground arith),
      keep_or_drop topic p left ids,
      lookup-erase text_dec hash h sub_msgs,
    )

-- The message is among the processed ones.
unfoldable pub removed : Text → Text → List (Text × List Text) → Bool
removed p h [] = false
removed p h ((topic, hashes) ∷ rest) =
    (same topic p && contains text_dec h hashes) || removed p h rest

untracked : (p h : Text) (ids : MessageIds) → lookup text_dec p ids ≡ none → tracked p h ids ≡ none
unfolding tracked lookup
untracked p h ids e = ground arith

pub tracked-settle :
    (p h : Text) (done : List (Text × List Text)) (ids : MessageIds)
    → tracked p h (settle done ids) ≡ (if removed p h done then none else tracked p h ids)
unfolding settle removed
tracked-settle p h [] ids = refl
tracked-settle p h ((topic, hashes) ∷ rest) ids = elim (Option-cases (lookup text_dec topic ids)) [
  | inl missing ↦ ground (arith, tracked-settle p h rest ids, untracked p h ids)
  | inr (sub_msgs, found) ↦ ground (
    arith,
    tracked-settle p h rest (delete_hashes topic hashes sub_msgs ids),
    tracked-delete_hashes p h topic hashes sub_msgs ids (ap or_empty found),
  )
]

-- ===== src/Filter/Subscribers/CleanUp.antt =====
-- Which peers a tick of the cleaning timer removes.
use go_waku.Base.{
  ℕ, ◌-◌, ◌≡◌, refl, sym, ◌∙◌, Bool, false, ◌||◌, none, some, [], ◌∷◌, arith, ite, if_pos, if_neg,
  if◌then◌else◌, ltb, inl, inr, Option-cases, Bool-cases,
}
use go_waku.Base.Text.{Text, text_dec}
use go_waku.Base.Dict.{Dict, lookup, lookup-erase, IsDistinct}
use go_waku.Filter.Subscribers.{SubscribersMap, delete_all, forget, clean_up, clean_up_entries}

module _ (digest : Text → Text) where
  missing :
      (peer q : Text) (sub : SubscribersMap)
      → lookup text_dec peer sub.items ≡ none
      → lookup text_dec q sub.items ≡ ite (text_dec peer q) none (lookup text_dec q sub.items)
  missing peer q sub e = elim (text_dec peer q) [
    | yes p ↦ rw (← p, e) (sym (if_pos (text_dec peer peer) refl none none))
    | no p ↦ sym (if_neg (text_dec peer q) p _ _)
  ]

  lookup-forget :
      (peer q : Text) (sub : SubscribersMap)
      → lookup text_dec q (forget digest peer sub).items
        ≡ ite (text_dec peer q) none (lookup text_dec q sub.items)
  unfolding forget delete_all
  lookup-forget peer q sub = elim (Option-cases (lookup text_dec peer sub.items)) [
    | inl e ↦ rw (e, forget, delete_all) (missing peer q sub e)
    | inr (m, e) ↦ rw (e, forget, delete_all) (lookup-erase text_dec peer q sub.items)
  ]

  timeout-forget :
      (peer : Text) (sub : SubscribersMap) → (forget digest peer sub).timeout ≡ sub.timeout
  unfolding forget delete_all
  timeout-forget peer sub = ground arith

  -- Some entry for the peer is younger than the timeout.
  recent : ℕ → ℕ → Dict Text ℕ → Text → Bool
  recent now timeout [] q = false
  recent now timeout ((peer, seen) ∷ rest) q =
      ite (text_dec peer q) (ltb (now - seen) timeout) false || recent now timeout rest q

  lookup-clean_up_entries :
      (now : ℕ) (entries : Dict Text ℕ) (sub : SubscribersMap) (q : Text)
      → lookup text_dec q (clean_up_entries digest now entries sub).items
        ≡ (if recent now sub.timeout entries q then none else lookup text_dec q sub.items)
  unfolding clean_up_entries recent
  lookup-clean_up_entries now [] sub q = refl
  lookup-clean_up_entries now ((peer, seen) ∷ rest) sub q =
      lookup-clean_up_entries now rest
        (if ltb (now - seen) sub.timeout then forget digest peer sub else sub) q
      ∙ elim (Bool-cases (ltb (now - seen) sub.timeout)) [
        | inl e ↦ rw e (rw (timeout-forget peer sub, lookup-forget peer q sub) (ground arith))
        | inr e ↦ rw e (ground arith)
      ]

  recent_absent :
      (now timeout : ℕ) (entries : Dict Text ℕ) (q : Text)
      → lookup text_dec q entries ≡ none
      → recent now timeout entries q ≡ false
  unfolding recent lookup
  recent_absent now timeout [] q h = refl
  recent_absent now timeout ((peer, seen) ∷ rest) q h =
      ground (arith, recent_absent now timeout rest q)

  recent-lookup :
      (now timeout seen : ℕ) (entries : Dict Text ℕ) (q : Text)
      → IsDistinct text_dec entries
      → lookup text_dec q entries ≡ some seen
      → recent now timeout entries q ≡ ltb (now - seen) timeout
  unfolding recent lookup
  recent-lookup now timeout seen [] q d h = cc
  recent-lookup now timeout seen ((peer, at_time) ∷ rest) q d h = elim (text_dec peer q) [
    | yes e ↦
        let same : at_time ≡ seen = ground arith in
        let gone : lookup text_dec q rest ≡ none = rw (← e) d.0 in
        ground (arith, same, recent_absent now timeout rest q gone)
    | no e ↦ ground (arith, recent-lookup now timeout seen rest q d.1)
  ]

  -- A tick of the timer removes exactly the peers that were seen less than the timeout ago; a peer
  -- that has been idle for the timeout or longer keeps its subscriptions.
  pub lookup-clean_up :
      (now seen : ℕ) (sub : SubscribersMap) (q : Text)
      → IsDistinct text_dec sub.last_seen
      → lookup text_dec q sub.last_seen ≡ some seen
      → lookup text_dec q (clean_up digest now sub).items
        ≡ (if ltb (now - seen) sub.timeout then none else lookup text_dec q sub.items)
  unfolding clean_up
  lookup-clean_up now seen sub q d h =
      lookup-clean_up_entries now sub.last_seen sub q
      ∙ rw (recent-lookup now sub.timeout seen sub.last_seen q d h)

-- ===== src/Filter/Subscribers/Consistency.antt =====
-- `Items` yields the subscribed peers, on topics whose keys do not collide.
use go_waku.Base.{
  ℕ, ◌-◌, ◌≡◌, refl, sym, ap, ap₂, ◌∙◌, true, false, ◌&&◌, some, List, [], ◌∷◌, arith,
  if◌then◌else◌, ltb, ◌⊎◌, inl, inr, Bool-cases,
}
use go_waku.Base.Lists.{All}
use go_waku.Base.Text.{same, Text, text_dec}
use go_waku.Base.Dict.{Dict, lookup}
use go_waku.Base.Keys.{contains}
use go_waku.Base.Result.{Result, ok, err, panic}
use go_waku.Filter.Subscribers.{
  SubscribersMap, PubsubTopics, SubscribersError, new_subscribers_map, clear, refresh, get_key, set,
  delete, delete_all, items_for, forget, clean_up, clean_up_entries, step, run, Call, sets, deletes,
  deletes_all, refreshes, cleans, clears, removes_all,
}
use go_waku.Filter.Subscribers.Lookup.{
  subscribed, covers, subscribed-set, subscribed-delete, subscribed-delete_all, delete_inv,
  delete_all_inv,
}
use go_waku.Filter.Subscribers.Interest.{
  interested, interested-set, interested-delete_topics, interested-delete_all, hits, hits_all,
  hits_all-lookup,
}

no_subscriptions :
    (sub : SubscribersMap) (q t d : Text) → sub.items ≡ [] → subscribed sub q t d ≡ false
unfolding subscribed lookup contains
no_subscriptions sub q t d e = rw e refl

nobody :
    (digest : Text → Text) (sub : SubscribersMap) (q t d : Text)
    → sub.interest_map ≡ []
    → interested digest sub q t d ≡ false
unfolding interested items_for lookup contains
nobody digest sub q t d e = rw e refl

-- `Good` is a set of pairs of topics whose keys differ.
module _ (digest : Text → Text) (Good : Text → Text → Type 0)
    (apart : (t c t' c' : Text)
      → Good t c
      → Good t' c'
      → get_key digest t c ≡ get_key digest t' c'
      → (t ≡ t') × (c ≡ c')) where
  -- On good topics `Items` yields the subscribed peers, and there are no subscriptions on others.
  pub record IsConsistent (sub : SubscribersMap) : Type 0 where
    pub agree : (q t d : Text) → Good t d → interested digest sub q t d ≡ subscribed sub q t d
    pub only_good : (q t d : Text) → subscribed sub q t d ≡ true → Good t d

  hits-Good :
      (t d s : Text) (cs : List Text)
      → All (Good s) cs
      → Good t d
      → hits digest s cs (get_key digest t d) ≡ same s t && contains text_dec d cs
  unfolding hits contains
  hits-Good t d s [] h g = ground arith
  hits-Good t d s (c ∷ cs) h g = elim (text_dec (get_key digest s c) (get_key digest t d)) [
    | yes e ↦ let (p, q) = apart s c t d h.0 g e in ground (arith, p, q)
    | no e ↦
        ground
          (arith, hits-Good t d s cs h.1 g, λ (p : s ≡ t) (q : c ≡ d). e (ap₂ (get_key digest) p q))
  ]

  contains-Good :
      (s d : Text) (cs : List Text) → All (Good s) cs → contains text_dec d cs ≡ true → Good s d
  unfolding contains
  contains-Good s d [] h e = absurd (cc)
  contains-Good s d (c ∷ cs) h e = elim (text_dec c d) [
    | yes p ↦ rw (← p) h.0
    | no p ↦ contains-Good s d cs h.1 (ground arith)
  ]

  covers-Good :
      (s : Text) (cs : List Text) (peer q t d : Text)
      → All (Good s) cs
      → covers peer s cs q t d ≡ true
      → Good t d
  covers-Good s cs peer q t d h e =
      let p : s ≡ t = ground arith in
      let c : contains text_dec d cs ≡ true = ground arith in rw (← p) (contains-Good s d cs h c)

  set-IsConsistent :
      (now : ℕ) (peer s : Text) (cs : List Text) (sub : SubscribersMap)
      → All (Good s) cs
      → IsConsistent sub
      → IsConsistent (set digest now peer s cs sub)
  set-IsConsistent now peer s cs sub h c = record {
    agree = λ q t d g.
        interested-set digest now peer s cs sub q t d
        ∙ rw (
          hits-Good t d s cs h g,
          c.agree q t d g,
          subscribed-set digest now peer s cs sub q t d,
        );
    only_good = λ q t d e. elim (Bool-cases (subscribed sub q t d)) [
      | inl old ↦ c.only_good q t d old
      | inr new ↦
          covers-Good s cs peer q t d h
            (ground (arith, subscribed-set digest now peer s cs sub q t d))
    ];
  }

  delete-IsConsistent :
      (now : ℕ) (peer s : Text) (cs : List Text) (sub sub' : SubscribersMap)
      → All (Good s) cs
      → delete digest now peer s cs sub ≡ ok sub'
      → IsConsistent sub
      → IsConsistent sub'
  delete-IsConsistent now peer s cs sub sub' h made c =
      let (m, l, _, _, e) = delete_inv digest now peer s cs sub sub' made in
      record {
        agree = λ q t d g. rw (subscribed-delete digest now peer s cs sub sub' q t d made) (
            rw e (
              interested-delete_topics digest now peer s cs m l sub q t d
              ∙ rw (hits-Good t d s cs h g, c.agree q t d g)));
        only_good = λ q t d f.
            c.only_good q t d
              (ground (arith, subscribed-delete digest now peer s cs sub sub' q t d made));
      }

  subscribed-hits_all :
      (peer : Text) (m : PubsubTopics) (sub : SubscribersMap) (t d : Text)
      → lookup text_dec peer sub.items ≡ some m
      → subscribed sub peer t d ≡ true
      → hits_all digest m (get_key digest t d) ≡ true
  unfolding subscribed
  subscribed-hits_all peer m sub t d hm h = hits_all-lookup digest t d m (rw hm at h)

  all_cleared :
      (peer : Text) (m : PubsubTopics) (sub : SubscribersMap) (q t d : Text)
      → lookup text_dec peer sub.items ≡ some m
      → (if same peer q && hits_all digest m (get_key digest t d)
          then false
          else subscribed sub q t d)
        ≡ (if same peer q then false else subscribed sub q t d)
  all_cleared peer m sub q t d hm = elim (text_dec peer q) [
    | yes e ↦ rw (← e) (ground (arith, subscribed-hits_all peer m sub t d hm))
    | no e ↦ ground arith
  ]

  delete_all-IsConsistent :
      (peer : Text) (sub sub' : SubscribersMap)
      → delete_all digest peer sub ≡ ok sub'
      → IsConsistent sub
      → IsConsistent sub'
  delete_all-IsConsistent peer sub sub' made c = record {
    agree = λ q t d g.
        let (m, hm, e) = delete_all_inv digest peer sub sub' made in
        let cleared = ap (λ (x : SubscribersMap). x.interest_map) e in
        interested-delete_all digest peer m sub sub' q t d cleared
        ∙ rw (c.agree q t d g, subscribed-delete_all digest peer sub sub' q t d made)
            (all_cleared peer m sub q t d hm);
    only_good = λ q t d f.
        c.only_good q t d (ground (arith, subscribed-delete_all digest peer sub sub' q t d made));
  }

  forget_cases :
      (peer : Text) (sub : SubscribersMap)
      → (forget digest peer sub ≡ sub)
        ⊎ ((sub' : SubscribersMap) × (delete_all digest peer sub ≡ ok sub')
            × (forget digest peer sub ≡ sub'))
  unfolding forget
  forget_cases peer sub = go (delete_all digest peer sub) refl
    where
      go :
          (r : Result SubscribersError SubscribersMap)
          → delete_all digest peer sub ≡ r
          → (forget digest peer sub ≡ sub)
            ⊎ ((sub' : SubscribersMap) × (delete_all digest peer sub ≡ ok sub')
                × (forget digest peer sub ≡ sub'))
      go (ok sub') e = inr (sub', e, rw (e, forget))
      go (err _) e = inl (rw (e, forget))
      go panic e = inl (rw (e, forget))

  forget-IsConsistent :
      (peer : Text) (sub : SubscribersMap)
      → IsConsistent sub
      → IsConsistent (forget digest peer sub)
  forget-IsConsistent peer sub c = elim (forget_cases peer sub) [
    | inl e ↦ rw e c
    | inr (sub', made, e) ↦ rw e (delete_all-IsConsistent peer sub sub' made c)
  ]

  clean_up_entries-IsConsistent :
      (now : ℕ) (seen : Dict Text ℕ) (sub : SubscribersMap)
      → IsConsistent sub
      → IsConsistent (clean_up_entries digest now seen sub)
  unfolding clean_up_entries
  clean_up_entries-IsConsistent now [] sub c = c
  clean_up_entries-IsConsistent now ((peer, at_time) ∷ seen) sub c =
      elim (Bool-cases (ltb (now - at_time) sub.timeout)) [
        | inl e ↦ rw e (
            clean_up_entries-IsConsistent now seen (forget digest peer sub)
              (forget-IsConsistent peer sub c))
        | inr e ↦ rw e (clean_up_entries-IsConsistent now seen sub c)
      ]

  nothing-IsConsistent :
      {sub : SubscribersMap} → sub.items ≡ [] → sub.interest_map ≡ [] → IsConsistent sub
  nothing-IsConsistent {sub} e f = record {
    agree = λ q t d g. nobody digest sub q t d f ∙ sym (no_subscriptions sub q t d e);
    only_good = λ q t d h. absurd (ground (arith, no_subscriptions sub q t d e));
  }

  step-delete-IsConsistent :
      (now : ℕ) (peer s : Text) (cs : List Text) (sub : SubscribersMap)
      → All (Good s) cs
      → IsConsistent sub
      → IsConsistent (step digest sub (deletes now peer s cs))
  unfolding step
  step-delete-IsConsistent now peer s cs sub h c = go (delete digest now peer s cs sub) refl
    where
      go :
          (r : Result SubscribersError SubscribersMap)
          → delete digest now peer s cs sub ≡ r
          → IsConsistent (step digest sub (deletes now peer s cs))
      go (ok sub') e = rw (e, step) (delete-IsConsistent now peer s cs sub sub' h e c)
      go (err _) e = rw (e, step) c
      go panic e = rw (e, step) c

  -- The call is not `RemoveAll`, and its topics are good.
  abbrev pub IsGoodCall : Call → Type 0
  IsGoodCall (sets now peer s cs) = All (Good s) cs
  IsGoodCall (deletes now peer s cs) = All (Good s) cs
  IsGoodCall (deletes_all peer) = Unit
  IsGoodCall (refreshes now peer) = Unit
  IsGoodCall (cleans now) = Unit
  IsGoodCall clears = Unit
  IsGoodCall removes_all = ⊥

  step-IsConsistent :
      (sub : SubscribersMap) (call : Call)
      → IsGoodCall call
      → IsConsistent sub
      → IsConsistent (step digest sub call)
  step-IsConsistent sub (sets now peer s cs) h c =
      unfold step in set-IsConsistent now peer s cs sub h c
  step-IsConsistent sub (deletes now peer s cs) h c = step-delete-IsConsistent now peer s cs sub h c
  step-IsConsistent sub (deletes_all peer) h c = unfold step in forget-IsConsistent peer sub c
  step-IsConsistent sub (refreshes now peer) h c =
      unfold step refresh interested items_for subscribed in
      record { agree = c.agree; only_good = c.only_good }
  step-IsConsistent sub (cleans now) h c =
      unfold step clean_up in clean_up_entries-IsConsistent now sub.last_seen sub c
  step-IsConsistent sub clears h c =
      nothing-IsConsistent (unfold step clear in refl) (unfold step clear in refl)
  step-IsConsistent sub removes_all h c = elim h [ ]

  run-IsConsistent :
      (sub : SubscribersMap) (calls : List Call)
      → All IsGoodCall calls
      → IsConsistent sub
      → IsConsistent (run digest sub calls)
  unfolding run
  run-IsConsistent sub [] h c = c
  run-IsConsistent sub (call ∷ calls) h c =
      run-IsConsistent (step digest sub call) calls h.1 (step-IsConsistent sub call h.0 c)

  -- After any calls but `RemoveAll` (which leaves the interest map), on topics whose keys do not
  -- collide, `Items` yields for two such topics the peers that are subscribed to them, and no other.
  pub run-agree :
      (timeout : ℕ) (calls : List Call) (q t d : Text)
      → All IsGoodCall calls
      → Good t d
      → interested digest (run digest (new_subscribers_map timeout) calls) q t d
        ≡ subscribed (run digest (new_subscribers_map timeout) calls) q t d
  run-agree timeout calls q t d h g =
      (run-IsConsistent (new_subscribers_map timeout) calls h (
          nothing-IsConsistent (unfold new_subscribers_map in refl)
            (unfold new_subscribers_map in refl))).agree
        q t d g

-- ===== src/PeerManager/ConnectionGater/Limits.antt =====
-- How many connections there are from an IP.
use go_waku.Base.{
  ℕ, dec_lt, ◌⊎◌, ◌+◌, ◌-◌, ◌≤◌, ◌<◌, ◌≡◌, refl, ap, ◌∙◌, Bool, true, false, ◌||◌, ◌==◌, Option,
  none, some, List, [], ◌∷◌, arith, ltb, leb, if◌then◌else◌, ite, Option-cases, inl, inr,
}
use go_waku.Base.Text.{Text, text_dec}
use go_waku.Base.Dict.{lookup, insert, erase, lookup-insert, lookup-erase}
use go_waku.PeerManager.ConnectionGater.{
  ConnectionGater, Event, accepts, disconnects, new_connection_gater, conns, admit,
  validate_inbound_conn, intercept_accept, release, notify_disconnect, step, run,
}

-- One more connection, unless there is a limit and it is reached.
abbrev pub one_more : ℕ → ℕ → ℕ
one_more max n = if max == 0 || ltb n max then n + 1 else n

conns-insert :
    (ip j : Text) (n : ℕ) (c : ConnectionGater)
    → conns j (record c { limiter = insert text_dec ip n c.limiter })
      ≡ ite (text_dec ip j) n (conns j c)
unfolding conns
conns-insert ip j n c = ground (arith, lookup-insert text_dec ip j n c.limiter)

conns-erase :
    (ip j : Text) (c : ConnectionGater)
    → conns j (record c { limiter = erase text_dec ip c.limiter })
      ≡ ite (text_dec ip j) 0 (conns j c)
unfolding conns
conns-erase ip j c = ground (arith, lookup-erase text_dec ip j c.limiter)

conns-found :
    (ip : Text) (c : ConnectionGater) (o : Option ℕ)
    → lookup text_dec ip c.limiter ≡ o
    → conns ip c ≡ (elim o [ none ↦ 0 | some n ↦ n ])
unfolding conns
conns-found ip c o found = ap (λ (p : Option ℕ). elim p as (λ _. ℕ) [ none ↦ 0 | some n ↦ n ]) found

module _ {Addr : Type 0} (to_ip : Addr → Option Text) where
  -- The address is of the IP.
  unfoldable pub is_from : Text → Addr → Bool
  is_from ip addr = elim (to_ip addr) [ none ↦ false | some j ↦ ite (text_dec j ip) true false ]

  -- The connections of one IP, counted without regard to the others.
  unfoldable pub live : ℕ → Text → List (Event Addr) → ℕ → ℕ
  live max ip [] n = n
  live max ip (accepts addr ∷ es) n = live max ip es (if is_from ip addr then one_more max n else n)
  live max ip (disconnects addr ∷ es) n = live max ip es (if is_from ip addr then n - 1 else n)

  conns-admit :
      (ip j : Text) (c : ConnectionGater)
      → conns j (admit to_ip ip c).1
        ≡ ite (text_dec ip j) (one_more c.max_conns_per_ip (conns j c)) (conns j c)
  unfolding admit
  conns-admit ip j c = elim (text_dec ip j) [
    | yes e ↦ ground (arith, conns-insert ip j (conns ip c + 1) c, ap (λ i. conns i c) e)
    | no e ↦ ground (arith, conns-insert ip j (conns ip c + 1) c)
  ]

  conns-release :
      (ip j : Text) (c : ConnectionGater)
      → conns j (release to_ip ip c) ≡ ite (text_dec ip j) (conns j c - 1) (conns j c)
  unfolding release
  conns-release ip j c = go (lookup text_dec ip c.limiter) refl
    where
      go :
          (o : Option ℕ)
          → lookup text_dec ip c.limiter ≡ o
          → conns j (elim o [
            | none ↦ c
            | some n ↦
                if leb n 1
                then record c { limiter = erase text_dec ip c.limiter }
                else record c { limiter = insert text_dec ip (n - 1) c.limiter }
          ])
            ≡ ite (text_dec ip j) (conns j c - 1) (conns j c)
      go none found =
          let nothing : conns ip c ≡ 0 = conns-found ip c _ found in
          elim (text_dec ip j) [
            | yes e ↦ ground (arith, nothing, ap (λ i. conns i c) e)
            | no e ↦ ground arith
          ]
      go (some n) found =
          let there : conns ip c ≡ n = conns-found ip c _ found in
          elim (text_dec ip j) [
            | yes e ↦ ground (
              arith,
              there,
              ap (λ i. conns i c) e,
              conns-erase ip j c,
              conns-insert ip j (n - 1) c,
            )
            | no e ↦ ground (arith, conns-erase ip j c, conns-insert ip j (n - 1) c)
          ]

  admit-max :
      (ip : Text) (c : ConnectionGater) → (admit to_ip ip c).1.max_conns_per_ip ≡ c.max_conns_per_ip
  unfolding admit
  admit-max ip c = ground arith

  release-max :
      (ip : Text) (c : ConnectionGater) → (release to_ip ip c).max_conns_per_ip ≡ c.max_conns_per_ip
  unfolding release
  release-max ip c = ground arith

  step-max :
      (e : Event Addr) (c : ConnectionGater)
      → (step to_ip e c).max_conns_per_ip ≡ c.max_conns_per_ip
  unfolding step intercept_accept validate_inbound_conn notify_disconnect
  step-max (accepts addr) c = elim (Option-cases (to_ip addr)) [
    | inl e ↦ ground arith
    | inr (ip, e) ↦ ground (arith, admit-max ip c)
  ]
  step-max (disconnects addr) c = elim (Option-cases (to_ip addr)) [
    | inl e ↦ ground arith
    | inr (ip, e) ↦ ground (arith, release-max ip c)
  ]

  conns-accepts :
      (addr : Addr) (j : Text) (c : ConnectionGater)
      → conns j (step to_ip (accepts addr) c)
        ≡ (if is_from j addr then one_more c.max_conns_per_ip (conns j c) else conns j c)
  unfolding step intercept_accept validate_inbound_conn is_from
  conns-accepts addr j c = elim (Option-cases (to_ip addr)) [
    | inl e ↦ ground arith
    | inr (ip, e) ↦ ground (arith, conns-admit ip j c)
  ]

  conns-disconnects :
      (addr : Addr) (j : Text) (c : ConnectionGater)
      → conns j (step to_ip (disconnects addr) c)
        ≡ (if is_from j addr then conns j c - 1 else conns j c)
  unfolding step notify_disconnect is_from
  conns-disconnects addr j c = elim (Option-cases (to_ip addr)) [
    | inl e ↦ ground arith
    | inr (ip, e) ↦ ground (arith, conns-release ip j c)
  ]

  run_lem :
      (ip : Text) (es : List (Event Addr)) (c : ConnectionGater)
      → conns ip (run to_ip es c) ≡ live c.max_conns_per_ip ip es (conns ip c)
  unfolding run live
  run_lem ip [] c = refl
  run_lem ip (accepts addr ∷ es) c =
      run_lem ip es (step to_ip (accepts addr) c)
      ∙ rw (conns-accepts addr ip c, step-max (accepts addr) c) refl
  run_lem ip (disconnects addr ∷ es) c =
      run_lem ip es (step to_ip (disconnects addr) c)
      ∙ rw (conns-disconnects addr ip c, step-max (disconnects addr) c) refl

  live-le :
      (max : ℕ) (ip : Text) (es : List (Event Addr)) (n : ℕ)
      → 0 < max
      → n ≤ max
      → live max ip es n ≤ max
  unfolding live
  live-le max ip [] n pos h = h
  live-le max ip (accepts addr ∷ es) n pos h = live-le max ip es _ pos (ground arith)
  live-le max ip (disconnects addr ∷ es) n pos h = live-le max ip es _ pos (ground arith)

  -- After any connections and disconnections, the count of an IP is what its own events make of it:
  -- one more for each connection, unless there is a limit and it is reached, and one less for each
  -- disconnection. With a limit it is never above it.
  pub conns-run :
      (max : ℕ) (ip : Text) (es : List (Event Addr))
      → (conns ip (run to_ip es (new_connection_gater max)) ≡ live max ip es 0)
        × ((max ≡ 0) ⊎ conns ip (run to_ip es (new_connection_gater max)) ≤ max)
  conns-run max ip es =
      let nothing : conns ip (new_connection_gater max) ≡ 0 =
        unfold conns new_connection_gater lookup in refl in
      let size : (new_connection_gater max).max_conns_per_ip ≡ max =
        unfold new_connection_gater in refl in
      let counted : conns ip (run to_ip es (new_connection_gater max)) ≡ live max ip es 0 =
        run_lem ip es (new_connection_gater max) ∙ rw (nothing, size) refl in
      (
        counted,
        elim (dec_lt 0 max) [
          | yes pos ↦ inr (rw counted (live-le max ip es 0 pos (omega arith)))
          | no zero_max ↦ inl (omega arith)
        ],
      )

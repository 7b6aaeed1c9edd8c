-- ===== src/PeerManager/ConnectionGater.antt =====
-- waku/v2/peermanager/connection_gater.go. `to_ip` stands for `manet.ToIP` and the print of its
-- result, with nothing for an error. The other interceptors allow everything.
pub mod Limits
mod Tests
use go_waku.Base.{
  ℕ, suc, ◌+◌, ◌-◌, Bool, true, false, ◌&&◌, Option, none, some, List, [], ◌∷◌, ltb, leb,
  if◌then◌else◌,
}
use go_waku.Base.Text.{Text, text_dec}
use go_waku.Base.Dict.{Dict, lookup, insert, erase}

pub record ConnectionGater : Type 0 where
  pub limiter : Dict Text ℕ
  pub max_conns_per_ip : ℕ

unfoldable pub new_connection_gater : ℕ → ConnectionGater
new_connection_gater max_conns_per_ip = record { limiter = []; max_conns_per_ip = max_conns_per_ip }

-- `c.limiter[ip]`, 0 for a missing key.
unfoldable pub conns : Text → ConnectionGater → ℕ
conns ip c = elim (lookup text_dec ip c.limiter) [ none ↦ 0 | some n ↦ n ]

-- What the interceptors that decide nothing return.
abbrev pub intercept_other : Bool
intercept_other = true

module _ {Addr : Type 0} (to_ip : Addr → Option Text) where
  -- The test and the increment for an address of a known IP.
  unfoldable pub admit : Text → ConnectionGater → Bool × ConnectionGater
  admit ip c =
      let curr_connections = conns ip c in
      if ltb 0 c.max_conns_per_ip && ltb c.max_conns_per_ip (curr_connections + 1)
      then (false, c)
      else (true, record c { limiter = insert text_dec ip (curr_connections + 1) c.limiter })

  unfoldable pub validate_inbound_conn : Addr → ConnectionGater → Bool × ConnectionGater
  validate_inbound_conn addr c = elim (to_ip addr) [ none ↦ (false, c) | some ip ↦ admit ip c ]

  unfoldable pub intercept_accept : Addr → ConnectionGater → Bool × ConnectionGater
  intercept_accept addr c =
      let checked = validate_inbound_conn addr c in
      if checked.0 then (true, checked.1) else (false, checked.1)

  -- The decrement for an address of a known IP.
  unfoldable pub release : Text → ConnectionGater → ConnectionGater
  release ip c = elim (lookup text_dec ip c.limiter) [
    | none ↦ c
    | some curr_connections ↦
        if leb curr_connections 1
        then record c { limiter = erase text_dec ip c.limiter }
        else record c { limiter = insert text_dec ip (curr_connections - 1) c.limiter }
  ]

  unfoldable pub notify_disconnect : Addr → ConnectionGater → ConnectionGater
  notify_disconnect addr c = elim (to_ip addr) [ none ↦ c | some ip ↦ release ip c ]

-- What libp2p reports to the gater.
pub data Event (Addr : Type 0) : Type 0 where
  accepts disconnects : Addr → Event Addr

module _ {Addr : Type 0} (to_ip : Addr → Option Text) where
  unfoldable pub step : Event Addr → ConnectionGater → ConnectionGater
  step (accepts addr) c = (intercept_accept to_ip addr c).1
  step (disconnects addr) c = notify_disconnect to_ip addr c

  unfoldable pub run : List (Event Addr) → ConnectionGater → ConnectionGater
  run [] c = c
  run (e ∷ es) c = run es (step e c)

-- ===== src/PeerManager/ConnectionGater/Tests.antt =====
-- Runs of connection_gater.go, and instances of the theorems. An address is its IP, or nothing.
use go_waku.Base.{
  ℕ, ℕ_discrete, ◌≤◌, ◌≡◌, refl, ◌⊎◌, true, false, Option, none, some, List, [], ◌∷◌,
}
use go_waku.Base.Text.{Text, codes, text_dec}
use go_waku.Base.Dict.{lookup, insert, erase}
use go_waku.PeerManager.ConnectionGater.{
  Event, accepts, disconnects, new_connection_gater, conns, admit, validate_inbound_conn,
  intercept_accept, release, notify_disconnect, step, run,
}
use go_waku.PeerManager.ConnectionGater.Limits.{is_from, live, conns-run}

program : Unit {0}
unfolding ℕ_discrete text_dec lookup insert erase new_connection_gater conns admit
    validate_inbound_conn intercept_accept release notify_disconnect step run is_from live
program = tt

abbrev same_ip : Option Text → Option Text
same_ip a = a

abbrev home : Option Text
home = some (codes "127.0.0.1")

abbrev events : List (Event (Option Text))
events = accepts home ∷ accepts home ∷ accepts home ∷ disconnects home ∷ []

gater_tests :
    ((intercept_accept same_ip home (new_connection_gater 0)).0 ≡ true)
    × ((intercept_accept same_ip none (new_connection_gater 0)).0 ≡ false)
    × (conns (codes "127.0.0.1") (run same_ip events (new_connection_gater 2)) ≡ 1)
    × ((run same_ip (disconnects home ∷ []) (run same_ip events (new_connection_gater 2))).limiter
        ≡ [])
unfolding program
gater_tests = (refl, refl, refl, refl)

conns-run_example :
    (conns (codes "127.0.0.1") (run same_ip events (new_connection_gater 2))
      ≡ live same_ip 2 (codes "127.0.0.1") events 0)
    × (◌≡◌ {A = ℕ} 2 0
        ⊎ conns (codes "127.0.0.1") (run same_ip events (new_connection_gater 2)) ≤ 2)
conns-run_example = conns-run same_ip 2 (codes "127.0.0.1") events

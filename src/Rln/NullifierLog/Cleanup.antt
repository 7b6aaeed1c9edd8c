-- ===== src/Rln/NullifierLog/Cleanup.antt =====
-- What the timer of the nullifier log forgets.
use go_waku.Base.{ℕ, zero, suc, ◌<◌, ◌≡◌, refl, true, if_pos, take, replicate}
use go_waku.Base.Text.{Text, text_dec}
use go_waku.Base.Dict.{Dict}
use go_waku.Base.Keys.{contains}
use go_waku.Rln.NullifierLog.{NullifierLog}

contains-take-replicate :
    (k : ℕ) (e : Text) → 0 < k → contains text_dec e (take k (replicate k e)) ≡ true
unfolding contains
contains-take-replicate zero e h = elim h [ ]
contains-take-replicate (suc k) e h = if_pos (text_dec e e) refl true _

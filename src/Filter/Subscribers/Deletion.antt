-- ===== src/Filter/Subscribers/Deletion.antt =====
-- All that a `Delete` changes.
use go_waku.Base.{ℕ, ◌≡◌, false, ◌&&◌, Option, none, some, List, if◌then◌else◌}
use go_waku.Base.Text.{same, Text, text_dec}
use go_waku.Base.Dict.{lookup}
use go_waku.Filter.Subscribers.{SubscribersMap, PubsubTopics, get_key}
use go_waku.Filter.Subscribers.Lookup.{subscribed, covers}
use go_waku.Filter.Subscribers.Interest.{interested, hits}

-- The time of a peer that is kept.
abbrev pub seen_if_kept : ℕ → Option PubsubTopics → Option ℕ
seen_if_kept now none = none
seen_if_kept now (some topics) = some now

-- The peer loses the content topics on the pubsub topic among its subscriptions, and at their keys in
-- the interest map; it was seen now, unless no topic is left. Nothing else changes.
pub record IsDeleted (digest : Text → Text) (now : ℕ) (peer topic : Text) (cs : List Text)
    (sub sub' : SubscribersMap) : Type 0 where
  pub subscriptions :
      (q t d : Text)
      → subscribed sub' q t d ≡ (if covers peer topic cs q t d then false else subscribed sub q t d)
  pub interests :
      (q t d : Text)
      → interested digest sub' q t d ≡ (
          if same peer q && hits digest topic cs (get_key digest t d)
          then false
          else interested digest sub q t d)
  pub times :
      (q : Text)
      → lookup text_dec q sub'.last_seen ≡ (
          if same peer q
          then seen_if_kept now (lookup text_dec peer sub'.items)
          else lookup text_dec q sub.last_seen)
  pub waits : sub'.timeout ≡ sub.timeout

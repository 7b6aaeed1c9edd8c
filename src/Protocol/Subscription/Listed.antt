-- ===== src/Protocol/Subscription/Listed.antt =====
-- Which subscriptions the maps have, before and after the operations.
use go_waku.Base.{
  ◌≡◌, Bool, true, false, ◌&&◌, some, List, [], ◌∷◌, arith, ite, if◌then◌else◌, Option-cases, inl,
  inr,
}
use go_waku.Base.Text.{Text, text_dec, same}
use go_waku.Base.Dict.{or_empty, Dict, lookup, insert, lookup-insert, lookup-erase}
use go_waku.Base.Keys.{contains, add, remove, contains-add, contains-remove}
use go_waku.Protocol.Subscription.{PeerSubscription, set_of, put_or_erase, delete_items}

-- The subscription stands under the peer and the pubsub topic.
unfoldable pub listed : Text → Text → Text → Dict Text PeerSubscription → Bool
listed id peer p items = contains text_dec id (set_of peer p items)

module _ {A : Type 0} where
  or_empty-insert :
      (k j : Text) (l : List A) (m : Dict Text (List A))
      → or_empty (lookup text_dec j (insert text_dec k l m))
        ≡ ite (text_dec k j) l (or_empty (lookup text_dec j m))
  or_empty-insert k j l m = ground (arith, lookup-insert text_dec k j l m)

  or_empty-put_or_erase :
      (k j : Text) (l : List A) (m : Dict Text (List A))
      → or_empty (lookup text_dec j (put_or_erase k l m))
        ≡ ite (text_dec k j) l (or_empty (lookup text_dec j m))
  unfolding put_or_erase
  or_empty-put_or_erase k j [] m = ground (arith, lookup-erase text_dec k j m)
  or_empty-put_or_erase k j (a ∷ l) m = or_empty-insert k j (a ∷ l) m

-- The map after a write of the set of one peer and pubsub topic.
pub listed-insert :
    (id peer p : Text) (items : Dict Text PeerSubscription) (i q r : Text)
    → listed i q r (
        insert text_dec peer
          (insert text_dec p
            (add text_dec id (set_of peer p items))
            (or_empty (lookup text_dec peer items)))
          items)
      ≡ (if same peer q && (same p r && same id i) then true else listed i q r items)
unfolding listed set_of
listed-insert id peer p items i q r =
    let of_peer = or_empty (lookup text_dec peer items) in
    let old = or_empty (lookup text_dec p of_peer) in
    ground (
      arith,
      or_empty-insert peer q (insert text_dec p (add text_dec id old) of_peer) items,
      or_empty-insert p r (add text_dec id old) of_peer,
      contains-add text_dec id i old,
    )

pub listed-delete_items :
    (id peer p : Text) (of_peer : PeerSubscription) (items : Dict Text PeerSubscription)
    (i q r : Text)
    → lookup text_dec peer items ≡ some of_peer
    → listed i q r (delete_items id peer p of_peer items)
      ≡ (if same peer q && (same p r && same id i) then false else listed i q r items)
unfolding listed set_of delete_items
listed-delete_items id peer p of_peer items i q r h =
    let old = or_empty (lookup text_dec p of_peer) in
    ground (
      arith,
      or_empty-put_or_erase peer q (put_or_erase p (remove text_dec id old) of_peer) items,
      or_empty-put_or_erase p r (remove text_dec id old) of_peer,
      contains-remove text_dec id i old,
    )

pub listed_entry :
    (id peer p : Text) (items : Dict Text PeerSubscription)
    → listed id peer p items ≡ true
    → (of_peer : PeerSubscription) × (lookup text_dec peer items ≡ some of_peer)
unfolding listed set_of contains lookup
listed_entry id peer p items h = elim (Option-cases (lookup text_dec peer items)) [
  | inl missing ↦ absurd (ground arith)
  | inr found ↦ found
]

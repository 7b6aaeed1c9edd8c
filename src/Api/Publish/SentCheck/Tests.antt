-- ===== src/Api/Publish/SentCheck/Tests.antt =====
-- A round over three messages, and an instance of the theorem.
use go_waku.Base.Keys.{contains}
use go_waku.Base.Dict.{erase, insert, lookup}
use go_waku.Base.{ℕ_discrete, ℕ, ◌≡◌, ◌⊎◌, refl, true, Option, none, some, List, [], ◌∷◌}
use go_waku.Api.Publish.SentCheck.{
  delete_in, delete_hashes, settle, judge_one, judge, message_hash_based_query, process, choose,
  queries, MessageSentCheck, new_message_sent_check, add, delete_by_message_ids, has_passed, round,
}
use go_waku.Base.Text.{Text, codes, text_dec}
use go_waku.Api.Publish.SentCheck.Tracking.{tracked}
use go_waku.Api.Publish.SentCheck.Judgements.{IsAnswered}
use go_waku.Api.Publish.SentCheck.Rounds.{HasKeys, tracked-round}

abbrev clock : Text → ℕ
clock h = 120

abbrev verify : List Text → Option (List Text)
verify hashes = some (codes "a" ∷ [])

-- "a" and "b" were sent at 110, "c" at 119; "a" is found, "b" has not expired, "d" has.
abbrev three : MessageSentCheck
three = add (codes "p") (codes "a") 110 (
    add (codes "p") (codes "b") 115
      (add (codes "p") (codes "c") 119 (add (codes "q") (codes "d") 100 new_message_sent_check)))

program : Unit {0}
unfolding round add new_message_sent_check queries choose has_passed process
    message_hash_based_query judge judge_one settle delete_hashes delete_in delete_by_message_ids
    tracked text_dec ℕ_discrete lookup insert erase contains
program = tt

round_test :
    (round clock verify clock three).message_ids
    ≡ (codes "p", (codes "c", 119) ∷ (codes "b", 115) ∷ []) ∷ []
unfolding program
round_test = refl

delete_test :
    (delete_by_message_ids (codes "d" ∷ codes "a" ∷ []) three).message_ids
    ≡ (codes "p", (codes "c", 119) ∷ (codes "b", 115) ∷ []) ∷ []
unfolding program
delete_test = refl

keys : HasKeys three.message_ids
unfolding program
keys = record {
  topics = (refl, (refl, tt));
  hashes = ((refl, tt), ((refl, (refl, (refl, tt))), tt));
}

there : tracked (codes "p") (codes "a") three.message_ids ≡ some 110
unfolding program
there = refl

tracked-round_example :
    (tracked (codes "p") (codes "a") (round clock verify clock three).message_ids ≡ some 110)
    ⊎ ((tracked (codes "p") (codes "a") (round clock verify clock three).message_ids ≡ none)
        × (has_passed 120 110 three.message_sent_period ≡ true)
        × IsAnswered clock verify three (codes "a") 110)
tracked-round_example =
    tracked-round clock verify clock three (codes "p") (codes "a") 110 keys there

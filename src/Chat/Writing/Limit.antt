-- ===== src/Chat/Writing/Limit.antt =====
-- `_trim_messages` keeps the index of a conversation's messages within its limit.
use deepticket.Prelude.{
  ◌≤◌, ◌-◌, String, ◌≡◌, refl, ◌∙◌, false, inl, inr, List, [], ◌∷◌, map, ◌==◌, arith, leb, leb→le,
  Bool-cases,
}
use deepticket.Prelude.Int.{pos}
use deepticket.Storage.Local.{Storage, delete, delete_many, load_zset, zcard, zremrangebyrank}
use deepticket.Storage.Laws.{load_zset-delete}
use deepticket.Storage.Ranks.{zcard-zremrangebyrank_le}
use deepticket.Chat.Threads.{ns_chat_msgs, ns_msg, chat_key, msg_key}
use deepticket.Chat.Titles.{max_messages}
use deepticket.Chat.Writing.{trim_messages}

load_zset-delete_many :
    (s : Storage) (ns : String) (ks : List String) (ns' k' : String)
    → (ns == ns') ≡ false
    → load_zset (delete_many s ns ks) ns' k' ≡ load_zset s ns' k'
unfolding delete_many
load_zset-delete_many s ns [] ns' k' h = refl
load_zset-delete_many s ns (k ∷ ks) ns' k' h =
    load_zset-delete_many (delete s ns k) ns ks ns' k' h ∙ simp (load_zset-delete, h)

-- After `_trim_messages`, whatever was stored, the conversation's index names at most 200 messages.
pub zcard-trim_messages_le :
    (p u c : String) (s : Storage)
    → zcard (trim_messages p u c s) ns_chat_msgs (chat_key p u c) ≤ max_messages
unfolding trim_messages zcard
zcard-trim_messages_le p u c s =
    let key = chat_key p u c in
    let count = zcard s ns_chat_msgs key in
    elim (Bool-cases (leb count max_messages)) [
      | inl e ↦ rw e (leb→le count max_messages e)
      | inr e ↦
          let bound = zcard-zremrangebyrank_le s ns_chat_msgs key (count - max_messages - 1) in
          let (removed, left) =
            zremrangebyrank s ns_chat_msgs key (pos 0) (pos (count - max_messages - 1)) in
          rw
            (
              e,
              load_zset-delete_many left ns_msg (map (msg_key p u c) removed) ns_chat_msgs key refl,
            )
            (ground (arith, e, bound))
    ]

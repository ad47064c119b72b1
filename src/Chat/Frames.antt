-- ===== src/Chat/Frames.antt =====
-- The changes of conversations and of the use of tokens leave the runs' documents as they are.
use deepticket.Prelude.{ℕ, String, refl, ◌∙◌, inl, inr, Option, List, map, leb, Bool-cases, ◌-◌}
use deepticket.Prelude.Int.{ℤ, pos}
use deepticket.Env.{Env}
use deepticket.Storage.Local.{Storage, set_json, hset, zadd, zcard, zremrangebyrank}
use deepticket.Json.{Fields}
use deepticket.World.{on_storage}
use deepticket.World.Keeps.{Same, Keeps, Keeps-on_storage, keeps_rules}
use deepticket.World.Frames.{
  delete_many-Same, zremrangebyrank-Same, Keeps-time_ms, Keeps-hset, Keeps-zadd, Keeps-set_json,
}
use deepticket.Investigation.RunDocs.{ns_run}
use deepticket.Chat.Threads.{
  ns_chat_usage, ns_chats, ns_chat, ns_chat_msgs, ns_msg, chat_key, msg_key, load_chat_meta,
  set_agent_run_status, set_agent_conversation_id,
}
use deepticket.Chat.Titles.{max_messages}
use deepticket.Chat.Writing.{NewMessage, trim_messages, append_message, set_token_usage}

trim_messages-Same : (p u c : String) (s : Storage) → Same ns_run s (trim_messages p u c s)
unfolding trim_messages
trim_messages-Same p u c s j =
    let key = chat_key p u c in
    let count = zcard s ns_chat_msgs key in
    let last = pos (count - max_messages - 1) in
    let (removed, left) = zremrangebyrank s ns_chat_msgs key (pos 0) last in
    elim (Bool-cases (leb count max_messages)) [
      | inl e ↦ rw e refl
      | inr e ↦ rw e (
          delete_many-Same ns_run ns_msg refl left (map (msg_key p u c) removed) j
          ∙ zremrangebyrank-Same ns_run ns_chat_msgs refl s key (pos 0) last j)
    ]

module _ ⦃env : Env⦄ where
  chat_entries :
      (k : String) (m : List (String × String))
      → Keeps ns_run (on_storage (λ s. hset s ns_chat k m))
  chat_entries k m = Keeps-hset ns_run ns_chat refl k m

  message_entries :
      (k : String) (m : List (String × String)) → Keeps ns_run (on_storage (λ s. hset s ns_msg k m))
  message_entries k m = Keeps-hset ns_run ns_msg refl k m

  message_index :
      (k : String) (ms : List (String × ℕ))
      → Keeps ns_run (on_storage (λ s. zadd s ns_chat_msgs k ms))
  message_index k ms = Keeps-zadd ns_run ns_chat_msgs refl k ms

  chat_index :
      (k : String) (ms : List (String × ℕ)) → Keeps ns_run (on_storage (λ s. zadd s ns_chats k ms))
  chat_index k ms = Keeps-zadd ns_run ns_chats refl k ms

  usage_doc :
      (k : String) (d : Fields) → Keeps ns_run (on_storage (λ s. set_json s ns_chat_usage k d))
  usage_doc k d = Keeps-set_json ns_run ns_chat_usage refl k d

  Keeps-trim_messages : (p u c : String) → Keeps ns_run (on_storage (trim_messages p u c))
  Keeps-trim_messages p u c = Keeps-on_storage (trim_messages p u c) (trim_messages-Same p u c)

  ruleset chat_rules = (
    keeps_rules, Keeps-time_ms, chat_entries, message_entries, message_index, chat_index, usage_doc,
    Keeps-trim_messages,
  )

  pub Keeps-set_agent_run_status :
      (p u c status : String) (error : Option String)
      → Keeps ns_run (set_agent_run_status p u c status error)
  unfolding set_agent_run_status load_chat_meta
  Keeps-set_agent_run_status p u c status error = search chat_rules depth 8

  pub Keeps-set_agent_conversation_id :
      (p u c conversation : String) → Keeps ns_run (set_agent_conversation_id p u c conversation)
  unfolding set_agent_conversation_id load_chat_meta
  Keeps-set_agent_conversation_id p u c conversation = search chat_rules depth 8

  pub Keeps-append_message :
      (p u c : String) (new : NewMessage) → Keeps ns_run (append_message p u c new)
  unfolding append_message load_chat_meta
  Keeps-append_message p u c new = search chat_rules depth 16

  pub Keeps-set_token_usage :
      (p u c : String) (prompt completion reasoning total : ℤ) (model label : String)
      → Keeps ns_run (set_token_usage p u c prompt completion reasoning total model label)
  unfolding set_token_usage load_chat_meta
  Keeps-set_token_usage p u c prompt completion reasoning total model label =
      search chat_rules depth 10

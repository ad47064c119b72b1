-- ===== src/Chat/Writing.antt =====
-- The changes of `ChatHistoryStore`.
pub mod Limit
use deepticket.Prelude.{
  ℕ, ◌-◌, String, Bool, true, false, not, ◌&&◌, ◌||◌, Option, none, some, List, [], ◌∷◌, ◌++◌, map,
  ◌==◌, if◌then◌else◌, leb,
}
use deepticket.Prelude.Int.{ℤ, pos, negsuc, clamp_zero}
use deepticket.Prelude.Text.{◌<>◌, nonempty, strip, clip}
use deepticket.Json.{Value, num, str, list, Items, Fields, dict_of}
use deepticket.Env.{Env}
use deepticket.Exec.{key_error, gets, pure, lift, require, when, ◌>>=◌, ◌>>◌}
use deepticket.Storage.Local.{Storage, hset, set_json, zadd, zcard, zremrangebyrank, delete_many}
use deepticket.World.{World, Action, on_storage, uuid4, utc_now_iso, time_ms}
use deepticket.Chat.Threads.{
  ns_chats, ns_chat, ns_chat_msgs, ns_msg, ns_chat_usage, chats_key, chat_key, msg_key, meta_get,
  load_chat_meta,
}
use deepticket.Chat.Titles.{
  title_max, search_max, max_messages, new_title, single_spaced, title_from_message,
  append_search_text,
}
use deepticket.Chat.Messages.{Message, meta_or, given_text, message_to_hash}
use deepticket.Chat.Reading.{Thread, thread_from_meta, get_thread}

-- `d[k] = v` and `{**d, **update}` for dictionaries of texts
unfoldable pub set_text : List (String × String) → String → String → List (String × String)
set_text [] k v = (k, v) ∷ []
set_text ((j, w) ∷ rest) k v =
    let longer = set_text rest k v in if j == k then (j, v) ∷ rest else (j, w) ∷ longer

unfoldable pub merged : List (String × String) → List (String × String) → List (String × String)
merged meta [] = meta
merged meta ((k, v) ∷ update) = merged (set_text meta k v) update

-- `list(...)`, where there is something in it
abbrev pub texts_of : List String → Items
texts_of [] = Items.nil
texts_of (s ∷ ss) = Items.cons (str s) (texts_of ss)

abbrev pub dicts_of : List Fields → Items
dicts_of [] = Items.nil
dicts_of (d ∷ ds) = Items.cons (Value.dict d) (dicts_of ds)

abbrev pub if_some : Items → Option Value
if_some Items.nil = none
if_some (Items.cons v vs) = some (list (Items.cons v vs))

abbrev pub if_filled : Option Fields → Option Value
if_filled none = none
if_filled (some Fields.end) = none
if_filled (some (Fields.field k v d)) = some (Value.dict (Fields.field k v d))

-- The messages above the limit, of the lowest scores, leave the index and are deleted.
unfoldable pub trim_messages : String → String → String → Storage → Storage
trim_messages project_id uid chat_id s =
    let msgs_key = chat_key project_id uid chat_id in
    let count = zcard s ns_chat_msgs msgs_key in
    if leb count max_messages
    then s
    else let (removed, left) =
        zremrangebyrank s ns_chat_msgs msgs_key (pos 0) (pos (count - max_messages - 1)) in
      delete_many left ns_msg (map (msg_key project_id uid chat_id) removed)

-- What a caller of `append_message` passes beside the conversation
pub record NewMessage : Type 0 where
  pub role : String
  pub content : String
  pub agent_conversation_id : Option String
  pub activities : List Fields
  pub confidence : Option Fields
  pub image_urls : List String
  pub run_id : Option String

-- `title` of `append_message`
unfoldable pub next_title : List (String × String) → NewMessage → String
next_title meta new =
    let title = meta_or meta "title" new_title in
    if new.role == "user" && (title == new_title || not (nonempty (strip title)))
    then title_from_message new.content
    else title

-- `chat_update["agent_conversation_id"] = ...`
abbrev pub conversation_entry : Option String → List (String × String)
conversation_entry none = []
conversation_entry (some s) = if nonempty s then ("agent_conversation_id", s) ∷ [] else []

module _ ⦃env : Env⦄ where
  unfoldable pub create_thread : String → String → String → Action Thread
  create_thread project_id uid title = do
    chat_id ← uuid4
    now ← utc_now_iso
    score ← time_ms
    let mapping =
        ("chat_id", chat_id)
        ∷ ("project_id", project_id)
        ∷ ("uid", uid)
        ∷ ("title", clip title_max title)
        ∷ ("agent_conversation_id", "")
        ∷ ("agent_run_status", "idle")
        ∷ ("created_at", now)
        ∷ ("updated_at", now)
        ∷ ("search_text", "")
        ∷ ("msg_count", "0")
        ∷ []
    on_storage (λ s. hset s ns_chat (chat_key project_id uid chat_id) mapping)
    on_storage (λ s. zadd s ns_chats (chats_key project_id uid) ((chat_id, score) ∷ []))
    lift (thread_from_meta mapping [])

  abbrev pub message_of : String → String → String → NewMessage → Message
  message_of uid msg_id now new = record {
    msg_id = msg_id;
    role = new.role;
    content = new.content;
    created_at = now;
    sender_uid = if new.role == "user" then uid else "assistant";
    image_urls = if_some (texts_of new.image_urls);
    activities = if_some (dicts_of new.activities);
    confidence = if_filled new.confidence;
    run_id = given_text new.run_id;
  }

  -- `chat_update`, after the message is in the index of `msg_count` messages
  abbrev pub chat_update : List (String × String) → NewMessage → String → ℕ → List (String × String)
  chat_update meta new now msg_count =
      let title = next_title meta new in
      let was = meta_or meta "title" "" in
      let search_text =
        append_search_text (meta_or meta "search_text" "") new.content new.activities
          (if title == was then none else some title) in
      (("title", clip title_max title)
        ∷ ("updated_at", now)
        ∷ ("search_text", clip search_max search_text)
        ∷ ("msg_count", env.repr (num msg_count))
        ∷ [])
      ++ conversation_entry new.agent_conversation_id

  unfoldable pub append_message : String → String → String → NewMessage → Action Thread
  append_message project_id uid chat_id new = do
    found ← load_chat_meta project_id uid chat_id
    meta ← require found (key_error ("chat not found: " <> chat_id))
    now ← utc_now_iso
    score ← time_ms
    msg_id ← uuid4
    let message = message_of uid msg_id now new
    on_storage (λ s.
        hset s ns_msg (msg_key project_id uid chat_id msg_id)
          (message_to_hash message project_id uid chat_id))
    on_storage (λ s. zadd s ns_chat_msgs (chat_key project_id uid chat_id) ((msg_id, score) ∷ []))
    on_storage (trim_messages project_id uid chat_id)
    msg_count ← gets (λ w. zcard w.storage ns_chat_msgs (chat_key project_id uid chat_id))
    let update = chat_update meta new now msg_count
    on_storage (λ s. hset s ns_chat (chat_key project_id uid chat_id) update)
    on_storage (λ s. zadd s ns_chats (chats_key project_id uid) ((chat_id, score) ∷ []))
    lift (thread_from_meta (merged meta update) (message ∷ []))

  abbrev pub rename_found :
      String → String → String → String → Option (List (String × String)) → Action (Option Thread)
  rename_found project_id uid chat_id title none = pure none
  rename_found project_id uid chat_id title (some meta) =
      let clean = clip title_max (single_spaced title) in
      (do
        when (nonempty clean) (do
          now ← utc_now_iso
          on_storage (λ s.
              hset s ns_chat (chat_key project_id uid chat_id)
                (("title", clean) ∷ ("updated_at", now) ∷ []))
          score ← time_ms
          on_storage (λ s. zadd s ns_chats (chats_key project_id uid) ((chat_id, score) ∷ [])))
        get_thread project_id uid chat_id)

  unfoldable pub rename_thread : String → String → String → String → Action (Option Thread)
  rename_thread project_id uid chat_id title = do
    meta ← load_chat_meta project_id uid chat_id
    rename_found project_id uid chat_id title meta

  unfoldable pub set_token_usage :
      String → String → String → ℤ → ℤ → ℤ → ℤ → String → String → Action Fields
  set_token_usage project_id uid chat_id prompt completion reasoning total model model_label = do
    found ← load_chat_meta project_id uid chat_id
    meta ← require found (key_error ("chat not found: " <> chat_id))
    now ← utc_now_iso
    on_storage (λ s. hset s ns_chat (chat_key project_id uid chat_id) (
        ("prompt_tokens", env.repr (num (clamp_zero prompt)))
        ∷ ("completion_tokens", env.repr (num (clamp_zero completion)))
        ∷ ("reasoning_tokens", env.repr (num (clamp_zero reasoning)))
        ∷ ("total_tokens", env.repr (num (clamp_zero total)))
        ∷ ("model", model)
        ∷ ("model_label", model_label)
        ∷ ("token_updated_at", now)
        ∷ ("updated_at", now)
        ∷ []))
    let summary = dict_of (
        ("project_id", str project_id)
        ∷ ("uid", str uid)
        ∷ ("chat_id", str chat_id)
        ∷ ("chat_title", str (meta_or meta "title" new_title))
        ∷ ("agent_conversation_id", str (meta_or meta "agent_conversation_id" ""))
        ∷ ("prompt_tokens", num (clamp_zero prompt))
        ∷ ("completion_tokens", num (clamp_zero completion))
        ∷ ("reasoning_tokens", num (clamp_zero reasoning))
        ∷ ("total_tokens", num (clamp_zero total))
        ∷ ("model", str model)
        ∷ ("model_label", str model_label)
        ∷ ("updated_at", str now)
        ∷ [])
    on_storage (λ s. set_json s ns_chat_usage (chat_key project_id uid chat_id) summary)
    pure summary

-- ===== src/Chat/Threads.antt =====
-- What `ChatHistoryStore` keeps of a conversation in its hash: reading it, its agent's conversation and
-- run status, and deleting it with its messages.
use deepticket.Prelude.{
  String, Bool, true, false, not, ◌&&◌, ◌||◌, Option, none, some, List, [], ◌∷◌, map, ◌==◌,
  if◌then◌else◌,
}
use deepticket.Prelude.Int.{pos, negsuc}
use deepticket.Prelude.Text.{◌<>◌, nonempty, clip}
use deepticket.Env.{Env}
use deepticket.Exec.{key_error, gets, pure, require, ◌>>=◌, ◌>>◌}
use deepticket.Storage.Local.{hgetall, hset, delete, delete_many, zrange, zrem}
use deepticket.World.{Action, on_storage, utc_now_iso}

abbrev pub ns_chats : String
ns_chats = "chats"

abbrev pub ns_chat : String
ns_chat = "chat"

abbrev pub ns_chat_msgs : String
ns_chat_msgs = "chat_msgs"

abbrev pub ns_msg : String
ns_msg = "msg"

abbrev pub ns_chat_usage : String
ns_chat_usage = "chat_usage"

abbrev pub chats_key : String → String → String
chats_key project_id uid = project_id <> ":" <> uid

abbrev pub chat_key : String → String → String → String
chat_key project_id uid chat_id = project_id <> ":" <> uid <> ":" <> chat_id

abbrev pub msg_key : String → String → String → String → String
msg_key project_id uid chat_id msg_id = project_id <> ":" <> uid <> ":" <> chat_id <> ":" <> msg_id

-- `meta.get(k)`
unfoldable pub meta_get : List (String × String) → String → Option String
meta_get [] k = none
meta_get ((j, v) ∷ rest) k = if j == k then some v else meta_get rest k

abbrev pub is_text : Option String → String → Bool
is_text none s = false
is_text (some t) s = t == s

-- `v and v != project_id`
abbrev pub is_other : Option String → String → Bool
is_other none project_id = false
is_other (some v) project_id = nonempty v && not (v == project_id)

abbrev pub owned :
    String → String → Option (List (String × String)) → Option (List (String × String))
owned project_id uid none = none
owned project_id uid (some meta) =
    if not (is_text (meta_get meta "uid") uid) || is_other (meta_get meta "project_id") project_id
    then none
    else some meta

-- `mapping["agent_run_error"]`: at most 500 characters, and empty for `None`
abbrev pub error_text : Option String → String
error_text none = ""
error_text (some error) = clip 500 error

module _ ⦃env : Env⦄ where
  unfoldable pub load_chat_meta :
      String → String → String → Action (Option (List (String × String)))
  load_chat_meta project_id uid chat_id =
      gets (λ w. owned project_id uid (hgetall w.storage ns_chat (chat_key project_id uid chat_id)))

  unfoldable pub set_agent_conversation_id : String → String → String → String → Action (Unit {0})
  set_agent_conversation_id project_id uid chat_id agent_conversation_id = do
    found ← load_chat_meta project_id uid chat_id
    meta ← require found (key_error ("chat not found: " <> chat_id))
    now ← utc_now_iso
    on_storage (λ s.
        hset s ns_chat (chat_key project_id uid chat_id)
          (("agent_conversation_id", agent_conversation_id) ∷ ("updated_at", now) ∷ []))

  unfoldable pub set_agent_run_status :
      String → String → String → String → Option String → Action (Unit {0})
  set_agent_run_status project_id uid chat_id status error = do
    found ← load_chat_meta project_id uid chat_id
    meta ← require found (key_error ("chat not found: " <> chat_id))
    now ← utc_now_iso
    on_storage (λ s. hset s ns_chat (chat_key project_id uid chat_id) (
        ("agent_run_status", status)
        ∷ ("updated_at", now)
        ∷ ("agent_run_error", error_text error)
        ∷ []))

  unfoldable pub delete_found :
      String → String → String → Option (List (String × String)) → Action Bool
  delete_found project_id uid chat_id none = pure false
  delete_found project_id uid chat_id (some meta) = do
    msg_ids ←
        gets
          (λ w. zrange w.storage ns_chat_msgs (chat_key project_id uid chat_id) (pos 0) (negsuc 0))
    on_storage (λ s. delete_many s ns_msg (map (msg_key project_id uid chat_id) msg_ids))
    on_storage (λ s. delete s ns_chat_msgs (chat_key project_id uid chat_id))
    on_storage (λ s. delete s ns_chat (chat_key project_id uid chat_id))
    on_storage (λ s. zrem s ns_chats (chats_key project_id uid) (chat_id ∷ []))
    on_storage (λ s. delete s ns_chat_usage (chat_key project_id uid chat_id))
    pure true

  unfoldable pub delete_thread : String → String → String → Action Bool
  delete_thread project_id uid chat_id = do
    meta ← load_chat_meta project_id uid chat_id
    delete_found project_id uid chat_id meta

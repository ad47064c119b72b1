-- ===== src/Chat/Reading.antt =====
-- The queries of `ChatHistoryStore`. A dictionary of the source is a record; an entry that may be missing
-- or `None` is an option.
use deepticket.Prelude.{ℕ, String, ◌||◌, Option, none, some, List, [], ◌∷◌, map, if◌then◌else◌, eqb}
use deepticket.Prelude.Int.{pos, negsuc}
use deepticket.Prelude.Text.{◌<>◌, nonempty}
use deepticket.Env.{Env}
use deepticket.Exec.{Result, ok, value_error, gets, pure, lift, ◌>>=◌}
use deepticket.Exec.Pure
use deepticket.Storage.Local.{get_hashes, zrange, zrevrange, zcard}
use deepticket.World.{Action}
use deepticket.Chat.Threads.{
  ns_chats, ns_chat, ns_chat_msgs, ns_msg, chats_key, chat_key, msg_key, meta_get, owned,
  load_chat_meta,
}
use deepticket.Chat.Titles.{new_title}
use deepticket.Chat.Messages.{Message, meta_or, given_text, hash_to_message}

pub record TokenUsage : Type 0 where
  pub prompt_tokens : ℕ
  pub completion_tokens : ℕ
  pub reasoning_tokens : ℕ
  pub total_tokens : ℕ
  pub model : String
  pub model_label : String
  pub updated_at : Option String

pub record Thread : Type 0 where
  pub chat_id : String
  pub project_id : Option String
  pub uid : String
  pub title : String
  pub messages : List Message
  pub agent_conversation_id : Option String
  pub agent_run_status : String
  pub created_at : Option String
  pub updated_at : Option String
  pub agent_run_error : Option String
  pub token_usage : Option TokenUsage

pub record ThreadItem : Type 0 where
  pub chat_id : String
  pub title : String
  pub updated_at : String
  pub search_text : String
  pub token_usage : Option TokenUsage

pub record ThreadStatus : Type 0 where
  pub chat_id : String
  pub agent_run_status : String
  pub agent_run_error : Option String
  pub message_count : ℕ
  pub updated_at : Option String
  pub latest_message : Option Message

-- `a or b`
abbrev pub or_else : Option String → Option String → Option String
or_else none b = b
or_else (some a) b = some a

abbrev pub first_of : List Message → Option Message
first_of [] = none
first_of (m ∷ ms) = some m

module _ ⦃env : Env⦄ where
  -- `int(meta.get(k) or 0)`
  abbrev pub number : Option String → Result ℕ
  number none = ok 0
  number (some s) =
      if nonempty s
      then Pure.from_option (env.int_of_str s) (value_error ("invalid literal for int(): " <> s))
      else ok 0

  unfoldable pub usage_of : List (String × String) → Result TokenUsage
  usage_of meta = Pure.◌>>=◌ (number (meta_get meta "prompt_tokens")) (λ prompt.
      Pure.◌>>=◌ (number (meta_get meta "completion_tokens")) (λ completion.
        Pure.◌>>=◌ (number (meta_get meta "reasoning_tokens")) (λ reasoning.
          Pure.◌>>=◌ (number (meta_get meta "total_tokens")) (λ total. ok (record {
            prompt_tokens = prompt;
            completion_tokens = completion;
            reasoning_tokens = reasoning;
            total_tokens = total;
            model = meta_or meta "model" "";
            model_label = meta_or meta "model_label" "";
            updated_at =
                or_else (given_text (meta_get meta "token_updated_at"))
                  (meta_get meta "updated_at");
          })))))

  -- `if meta.get("token_updated_at") or meta.get("total_tokens"):`
  unfoldable pub token_usage_of : List (String × String) → Result (Option TokenUsage)
  token_usage_of meta =
      if nonempty (meta_or meta "token_updated_at" "") || nonempty (meta_or meta "total_tokens" "")
      then Pure.◌>>=◌ (usage_of meta) (λ usage. ok (some usage))
      else ok none

  unfoldable pub thread_from_meta : List (String × String) → List Message → Result Thread
  thread_from_meta meta messages = Pure.◌>>=◌ (token_usage_of meta) (λ usage. ok (record {
    chat_id = meta_or meta "chat_id" "";
    project_id = meta_get meta "project_id";
    uid = meta_or meta "uid" "";
    title = meta_or meta "title" new_title;
    messages = messages;
    agent_conversation_id = given_text (meta_get meta "agent_conversation_id");
    agent_run_status = meta_or meta "agent_run_status" "idle";
    created_at = meta_get meta "created_at";
    updated_at = meta_get meta "updated_at";
    agent_run_error = given_text (meta_get meta "agent_run_error");
    token_usage = usage;
  }))

  -- A row of `_load_messages`: `None` and the empty hash are skipped.
  abbrev pub with_row : String → Option (List (String × String)) → List Message → List Message
  with_row msg_id none rest = rest
  with_row msg_id (some []) rest = rest
  with_row msg_id (some (entry ∷ row)) rest = hash_to_message (entry ∷ row) msg_id ∷ rest

  -- The loop of `_load_messages` over `zip(msg_ids, rows)`
  abbrev pub messages_of : List String → List (Option (List (String × String))) → List Message
  messages_of [] rows = []
  messages_of (msg_id ∷ ids) [] = []
  messages_of (msg_id ∷ ids) (row ∷ rows) = with_row msg_id row (messages_of ids rows)

  unfoldable pub load_messages : String → String → String → List String → Action (List Message)
  load_messages project_id uid chat_id msg_ids = gets (λ w.
      messages_of msg_ids
        (get_hashes w.storage ns_msg (map (msg_key project_id uid chat_id) msg_ids)))

  abbrev pub thread_found :
      String → String → String → Option (List (String × String)) → Action (Option Thread)
  thread_found project_id uid chat_id none = pure none
  thread_found project_id uid chat_id (some meta) = do
    msg_ids ←
        gets
          (λ w. zrange w.storage ns_chat_msgs (chat_key project_id uid chat_id) (pos 0) (negsuc 0))
    messages ← load_messages project_id uid chat_id msg_ids
    thread ← lift (thread_from_meta meta messages)
    pure (some thread)

  unfoldable pub get_thread : String → String → String → Action (Option Thread)
  get_thread project_id uid chat_id = do
    meta ← load_chat_meta project_id uid chat_id
    thread_found project_id uid chat_id meta

  abbrev pub summary_found : Option (List (String × String)) → Action (Option Thread)
  summary_found none = pure none
  summary_found (some meta) = do thread ← lift (thread_from_meta meta []); pure (some thread)

  unfoldable pub get_thread_summary : String → String → String → Action (Option Thread)
  get_thread_summary project_id uid chat_id = do
    meta ← load_chat_meta project_id uid chat_id
    summary_found meta

  -- The last message of the index, where there is one
  unfoldable pub latest_message : String → String → String → ℕ → Action (Option Message)
  latest_message project_id uid chat_id message_count =
      if eqb message_count 0 then pure none else (do
        latest_ids ← gets (λ w.
            zrange w.storage ns_chat_msgs (chat_key project_id uid chat_id) (negsuc 0) (negsuc 0))
        loaded ← load_messages project_id uid chat_id latest_ids
        pure (first_of loaded))

  abbrev pub status_found :
      String → String → String → Option (List (String × String)) → Action (Option ThreadStatus)
  status_found project_id uid chat_id none = pure none
  status_found project_id uid chat_id (some meta) = do
    message_count ← gets (λ w. zcard w.storage ns_chat_msgs (chat_key project_id uid chat_id))
    latest ← latest_message project_id uid chat_id message_count
    let status : ThreadStatus = record {
      chat_id = chat_id;
      agent_run_status = meta_or meta "agent_run_status" "idle";
      agent_run_error = given_text (meta_get meta "agent_run_error");
      message_count = message_count;
      updated_at = meta_get meta "updated_at";
      latest_message = latest;
    }
    pure (some status)

  unfoldable pub get_status : String → String → String → Action (Option ThreadStatus)
  get_status project_id uid chat_id = do
    meta ← load_chat_meta project_id uid chat_id
    status_found project_id uid chat_id meta

  abbrev pub item_of : String → List (String × String) → Result ThreadItem
  item_of chat_id meta = Pure.◌>>=◌ (token_usage_of meta) (λ usage. ok (record {
    chat_id = chat_id;
    title = meta_or meta "title" new_title;
    updated_at = meta_or meta "updated_at" "";
    search_text = meta_or meta "search_text" "";
    token_usage = usage;
  }))

  -- One conversation of the loop of `list_threads`
  abbrev pub with_item :
      String → Option (List (String × String)) → Result (List ThreadItem) → Result (List ThreadItem)
  with_item chat_id none rest = rest
  with_item chat_id (some meta) rest =
      Pure.◌>>=◌ (item_of chat_id meta) (λ item. Pure.◌>>=◌ rest (λ items. ok (item ∷ items)))

  unfoldable pub items_of :
      String
      → String
      → List String
      → List (Option (List (String × String)))
      → Result (List ThreadItem)
  items_of project_id uid [] rows = ok []
  items_of project_id uid (chat_id ∷ ids) [] = ok []
  items_of project_id uid (chat_id ∷ ids) (row ∷ rows) =
      with_item chat_id (owned project_id uid row) (items_of project_id uid ids rows)

  unfoldable pub list_threads : String → String → Action (List ThreadItem)
  list_threads project_id uid = do
    chat_ids ←
        gets (λ w. zrevrange w.storage ns_chats (chats_key project_id uid) (pos 0) (negsuc 0))
    metas ← gets (λ w. get_hashes w.storage ns_chat (map (chat_key project_id uid) chat_ids))
    lift (items_of project_id uid chat_ids metas)

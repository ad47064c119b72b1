-- ===== src/Usage/Conversations.antt =====
-- `TokenUsageStore`: what each conversation has used so far. A conversation's entries are the values of
-- its document.
use text.Mathlib.Text.{is_lt}
use Prim.Native.String
use deepticket.Prelude.{
  ℕ, zero, suc, ◌+◌, String, Bool, not, Option, none, some, List, [], ◌∷◌, if◌then◌else◌, length,
}
use deepticket.Prelude.Text.{nonempty, clip}
use deepticket.Prelude.Sort.{sort}
use deepticket.Json.{Value, null, str, Fields, end, field, get, or_default}
use deepticket.Env.{Env, str_of}
use deepticket.Exec.{Result, ok, err}
use deepticket.Exec.Pure
use deepticket.Storage.Local.{Storage, get_json, list_keys}
use deepticket.World.{Action}
use deepticket.Investigation.Models.{count_at}
use deepticket.Usage.Tokens.{Counts, is_of}
use deepticket.Chat.Threads.{ns_chat_usage}
use deepticket.Chat.Titles.{new_title}

pub record ConversationUsage : Type 0 where
  pub project_id : Value
  pub uid : String
  pub username : String
  pub chat_id : Value
  pub chat_title : Value
  pub agent_conversation_id : Value
  pub model : Value
  pub model_label : Value
  pub counts : Counts
  pub updated_at : Value

-- `doc.get(k, default)`
abbrev pub get_or : Fields → String → Value → Value
get_or doc k default = elim (get doc k) [ none ↦ default | some v ↦ v ]

abbrev pub time_of : ConversationUsage → String
time_of item = elim item.updated_at [ str s ↦ s | _ ↦ "" ]

-- `reverse=True` keeps the order of equal times.
abbrev pub latest_first : ConversationUsage → ConversationUsage → Bool
latest_first a b = not (is_lt (String.compare (time_of a) (time_of b)))

module _ ⦃env : Env⦄ where
  unfoldable pub counts_of : Fields → Result Counts
  counts_of doc = Pure.◌>>=◌ (count_at doc "prompt_tokens") (λ prompt.
      Pure.◌>>=◌ (count_at doc "completion_tokens") (λ completion.
        Pure.◌>>=◌ (count_at doc "reasoning_tokens") (λ reasoning.
          Pure.◌>>=◌ (count_at doc "total_tokens") (λ total. ok (record {
            prompt_tokens = prompt;
            completion_tokens = completion;
            reasoning_tokens = reasoning;
            total_tokens = total;
          })))))

  abbrev pub item_of : Fields → String → String → Result ConversationUsage
  item_of doc uid username = Pure.◌>>=◌ (counts_of doc) (λ counts. ok (record {
    project_id = or_default (get doc "project_id") (str "default");
    uid = uid;
    username = username;
    chat_id = get_or doc "chat_id" (str "");
    chat_title = or_default (get doc "chat_title") (str new_title);
    agent_conversation_id = or_default (get doc "agent_conversation_id") null;
    model = or_default (get doc "model") (str "");
    model_label = or_default (get doc "model_label") (or_default (get doc "model") (str ""));
    counts = counts;
    updated_at = get_or doc "updated_at" null;
  }))

  -- `if int(doc.get("total_tokens") or 0) <= 0: continue`
  abbrev pub used :
      Result ℕ
      → Result ConversationUsage
      → Result (List ConversationUsage)
      → Result (List ConversationUsage)
  used (err e) item rest = err e
  used (ok zero) item rest = rest
  used (ok (suc n)) item rest = Pure.◌>>=◌ item (λ i. Pure.◌>>=◌ rest (λ items. ok (i ∷ items)))

  abbrev pub user_item :
      String → Option Fields → Result (List ConversationUsage) → Result (List ConversationUsage)
  user_item uid none rest = rest
  user_item uid (some end) rest = rest
  user_item uid (some (field k v d)) rest =
      let doc = field k v d in
      if is_of uid doc then used (count_at doc "total_tokens") (item_of doc uid "") rest else rest

  unfoldable pub user_items : Storage → String → List String → Result (List ConversationUsage)
  user_items s uid [] = ok []
  user_items s uid (key ∷ keys) =
      user_item uid (get_json s ns_chat_usage key) (user_items s uid keys)

  -- An item of this list carries no user name.
  unfoldable pub list_user_conversation_usage : String → Action (List ConversationUsage)
  list_user_conversation_usage uid w = (
    Pure.◌>>=◌ (user_items w.storage uid (list_keys w.storage ns_chat_usage))
        (λ items. ok (sort latest_first items)),
    w,
  )

  -- `resolve_username(uid) or uid[:8]`
  abbrev pub name_or : Option String → String → String
  name_or none uid = clip 8 uid
  name_or (some name) uid = if nonempty name then name else clip 8 uid

  module _ (resolve_username : String → Option String) where
    abbrev pub any_item :
        Option Fields → Result (List ConversationUsage) → Result (List ConversationUsage)
    any_item none rest = rest
    any_item (some end) rest = rest
    any_item (some (field k v d)) rest =
        let doc = field k v d in
        let uid = str_of (or_default (get doc "uid") (str "")) in
        used (count_at doc "total_tokens") (item_of doc uid (name_or (resolve_username uid) uid))
          rest

    unfoldable pub all_items : Storage → List String → Result (List ConversationUsage)
    all_items s [] = ok []
    all_items s (key ∷ keys) = any_item (get_json s ns_chat_usage key) (all_items s keys)

    unfoldable pub list_conversation_usage : Action (List ConversationUsage)
    list_conversation_usage w = (
      Pure.◌>>=◌ (all_items w.storage (list_keys w.storage ns_chat_usage))
          (λ items. ok (sort latest_first items)),
      w,
    )

abbrev pub added : Counts → Counts → Counts
added a b = record {
  prompt_tokens = a.prompt_tokens + b.prompt_tokens;
  completion_tokens = a.completion_tokens + b.completion_tokens;
  reasoning_tokens = a.reasoning_tokens + b.reasoning_tokens;
  total_tokens = a.total_tokens + b.total_tokens;
}

abbrev pub none_used : Counts
none_used = record {
  prompt_tokens = 0;
  completion_tokens = 0;
  reasoning_tokens = 0;
  total_tokens = 0;
}

-- The sums of the loop, from the first conversation on
unfoldable pub summed : Counts → List ConversationUsage → Counts
summed summary [] = summary
summed summary (item ∷ items) = summed (added summary item.counts) items

-- The sums beside the number of conversations
unfoldable pub summarize_conversations : List ConversationUsage → Counts × ℕ
unfolding summed
summarize_conversations conversations = (summed none_used conversations, length conversations)

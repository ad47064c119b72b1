-- ===== src/Usage/Tokens.antt =====
-- deepticket/layers/storage/token_usage.py: the records of what each run of the agent used.
use deepticket.Prelude.{
  ℕ, ◌*◌, ◌-◌, max, String, Bool, Option, none, some, List, [], ◌∷◌, ◌==◌, if◌then◌else◌, leb,
}
use deepticket.Prelude.Text.{clip}
use deepticket.Json.{num, str, Fields, end, field, get, dict_of, or_default}
use deepticket.Env.{Env, str_of}
use deepticket.Exec.{gets, pure, ◌>>=◌, ◌>>◌}
use deepticket.Storage.Local.{Storage, get_json, set_json}
use deepticket.Storage.Index.{index_json_key, list_indexed_json_keys}
use deepticket.World.{Action, on_storage, uuid4, utc_now_iso}

abbrev pub ns_token_runs : String
ns_token_runs = "token_usage_runs"

-- The four counts of `delta` and of `cumulative`
pub record Counts : Type 0 where
  pub prompt_tokens : ℕ
  pub completion_tokens : ℕ
  pub reasoning_tokens : ℕ
  pub total_tokens : ℕ

-- Whose run it was, and of which model
pub record Origin : Type 0 where
  pub uid : String
  pub username : String
  pub chat_id : String
  pub chat_title : String
  pub agent_conversation_id : String
  pub model : String
  pub model_label : String

-- Documents that are missing or empty are left out.
abbrev pub with_doc : Option Fields → List Fields → List Fields
with_doc none rest = rest
with_doc (some end) rest = rest
with_doc (some (field k v d)) rest = field k v d ∷ rest

abbrev pub docs_of : Storage → List String → List Fields
docs_of s [] = []
docs_of s (key ∷ keys) = with_doc (get_json s ns_token_runs key) (docs_of s keys)

module _ ⦃env : Env⦄ where
  unfoldable pub record_run : Origin → Counts → Counts → Action Fields
  record_run origin delta cumulative = do
    run_id ← uuid4
    now ← utc_now_iso
    let doc = dict_of (
        ("run_id", str run_id)
        ∷ ("uid", str origin.uid)
        ∷ ("username", str origin.username)
        ∷ ("chat_id", str origin.chat_id)
        ∷ ("chat_title", str (clip 48 origin.chat_title))
        ∷ ("agent_conversation_id", str origin.agent_conversation_id)
        ∷ ("model", str origin.model)
        ∷ ("model_label", str origin.model_label)
        ∷ ("prompt_tokens", num delta.prompt_tokens)
        ∷ ("completion_tokens", num delta.completion_tokens)
        ∷ ("reasoning_tokens", num delta.reasoning_tokens)
        ∷ ("total_tokens", num delta.total_tokens)
        ∷ ("cumulative_prompt_tokens", num cumulative.prompt_tokens)
        ∷ ("cumulative_completion_tokens", num cumulative.completion_tokens)
        ∷ ("cumulative_reasoning_tokens", num cumulative.reasoning_tokens)
        ∷ ("cumulative_total_tokens", num cumulative.total_tokens)
        ∷ ("recorded_at", str now)
        ∷ [])
    on_storage (λ s. set_json s ns_token_runs run_id doc)
    index_json_key ns_token_runs run_id "recorded_at" doc
    pure doc

  unfoldable pub list_recent_runs : ℕ → Action (List Fields)
  list_recent_runs limit = do
    keys ← list_indexed_json_keys ns_token_runs limit "recorded_at"
    gets (λ w. docs_of w.storage keys)

  -- `str(doc.get("uid") or "") == uid`
  abbrev pub is_of : String → Fields → Bool
  is_of uid doc = str_of (or_default (get doc "uid") (str "")) == uid

  -- The loop of `list_user_runs`, which stops after the document that fills the list: the first is taken
  -- whatever the limit is.
  unfoldable pub first_runs : String → ℕ → List Fields → List Fields
  first_runs uid room [] = []
  first_runs uid room (doc ∷ docs) =
      let fewer = first_runs uid (room - 1) docs in
      let rest = first_runs uid room docs in
      if is_of uid doc then (if leb room 1 then doc ∷ [] else doc ∷ fewer) else rest

  unfoldable pub list_user_runs : String → ℕ → Action (List Fields)
  list_user_runs uid limit = do
    keys ← list_indexed_json_keys ns_token_runs (max (limit * 10) 100) "recorded_at"
    gets (λ w. first_runs uid limit (docs_of w.storage keys))

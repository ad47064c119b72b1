-- ===== src/Usage/Recording/Frames.antt =====
-- Recording a conversation's use of tokens leaves the runs' documents as they are.
use deepticket.Prelude.{ℕ, String, refl, Option, none, some, List}
use deepticket.Json.{Fields, end, field, get}
use deepticket.Env.{Env}
use deepticket.Storage.Local.{set_json, zadd}
use deepticket.Storage.Index.{
  score_or_now, score_of_value, score_of_doc, score_from_doc, index_json_key,
}
use deepticket.World.{on_storage}
use deepticket.World.Keeps.{Keeps, keeps_rules}
use deepticket.World.Frames.{Keeps-set_json, Keeps-zadd, Keeps-time_ms}
use deepticket.Auth.Users.{get_user}
use deepticket.Investigation.RunDocs.{ns_run}
use deepticket.Chat.Threads.{load_chat_meta}
use deepticket.Chat.Reading.{Thread, summary_found, get_thread_summary}
use deepticket.Chat.Frames.{Keeps-set_token_usage}
use deepticket.Usage.Tokens.{Origin, Counts, ns_token_runs, record_run}
use deepticket.Usage.Recording.{Llm, Fetched, record_thread, record_chat_token_usage}

module _ ⦃env : Env⦄ where
  Keeps-get_user : (uid : String) → Keeps ns_run (get_user uid)
  unfolding get_user
  Keeps-get_user uid = search keeps_rules depth 6

  Keeps-summary_found :
      (found : Option (List (String × String))) → Keeps ns_run (summary_found found)
  Keeps-summary_found none = search keeps_rules
  Keeps-summary_found (some meta) = search keeps_rules depth 6

  Keeps-get_thread_summary : (p u c : String) → Keeps ns_run (get_thread_summary p u c)
  unfolding get_thread_summary load_chat_meta
  Keeps-get_thread_summary p u c = search (keeps_rules, Keeps-summary_found) depth 6

  Keeps-score_or_now : (o : Option ℕ) → Keeps ns_run (score_or_now o)
  Keeps-score_or_now none = Keeps-time_ms
  Keeps-score_or_now (some n) = search keeps_rules

  Keeps-score_of_doc : (d : Fields) (k : String) → Keeps ns_run (score_of_doc d k)
  unfolding score_from_doc
  Keeps-score_of_doc end k = Keeps-time_ms
  Keeps-score_of_doc (field j v d) k = Keeps-score_or_now (score_of_value (get (field j v d) k))

  run_index :
      (k : String) (ms : List (String × ℕ))
      → Keeps ns_run (on_storage (λ s. zadd s ns_token_runs k ms))
  run_index k ms = Keeps-zadd ns_run ns_token_runs refl k ms

  run_doc :
      (k : String) (d : Fields) → Keeps ns_run (on_storage (λ s. set_json s ns_token_runs k d))
  run_doc k d = Keeps-set_json ns_run ns_token_runs refl k d

  Keeps-record_run :
      (origin : Origin) (delta cumulative : Counts)
      → Keeps ns_run (record_run origin delta cumulative)
  unfolding record_run index_json_key
  Keeps-record_run origin delta cumulative =
      search (keeps_rules, run_index, run_doc, Keeps-score_of_doc) depth 12

  Keeps-record_thread :
      (llm : Llm) (p u c conversation : String) (fetched : Fetched) (thread : Option Thread)
      → Keeps ns_run (record_thread llm p u c conversation fetched thread)
  Keeps-record_thread llm p u c conversation fetched none = search keeps_rules
  Keeps-record_thread llm p u c conversation fetched (some thread) =
      search (keeps_rules, Keeps-get_user, Keeps-set_token_usage, Keeps-record_run) depth 12

  pub Keeps-record_chat_token_usage :
      (llm : Llm) (p u c conversation : String) (fetched : Option Fetched)
      → Keeps ns_run (record_chat_token_usage llm p u c conversation fetched)
  unfolding record_chat_token_usage
  Keeps-record_chat_token_usage llm p u c conversation none = search keeps_rules
  Keeps-record_chat_token_usage llm p u c conversation (some fetched) =
      search (keeps_rules, Keeps-get_thread_summary, Keeps-record_thread) depth 8

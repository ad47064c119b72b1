-- ===== src/Orchestrator/Records/Frames.antt =====
-- What a stream's documents leave as it is: the documents of the runs.
use deepticket.Prelude.{◌==◌, ℕ, String, ◌≡◌, refl, false, Option, none, some, List}
use deepticket.Json.{Fields, end, field}
use deepticket.Env.{Env}
use deepticket.Storage.Local.{set_json}
use deepticket.Storage.Index.{score_or_now, score_of_doc, score_from_doc, index_json_key}
use deepticket.World.{on_storage}
use deepticket.World.Keeps.{Keeps, keeps_rules}
use deepticket.World.Frames.{Keeps-set_json, Keeps-zadd, Keeps-time_ms}
use deepticket.Investigation.RunDocs.{ns_run}
use deepticket.Investigation.RunLifecycle.{AgentInput}
use deepticket.Orchestrator.Records.{ns_conversations, ns_tickets, store_stream}

module _ ⦃env : Env⦄ where
  Keeps-score_or_now : (o : Option ℕ) → Keeps ns_run (score_or_now o)
  Keeps-score_or_now none = Keeps-time_ms
  Keeps-score_or_now (some n) = search (keeps_rules)

  Keeps-score_of_doc : (doc : Fields) (k : String) → Keeps ns_run (score_of_doc doc k)
  unfolding score_from_doc
  Keeps-score_of_doc end k = Keeps-time_ms
  Keeps-score_of_doc (field j v d) k = Keeps-score_or_now _

  Keeps-index_json_key :
      (ns : String)
      → (ns == ns_run) ≡ false
      → (key k : String) (doc : Fields) → Keeps ns_run (index_json_key ns key k doc)
  unfolding index_json_key
  Keeps-index_json_key ns h key k doc =
      let index = Keeps-zadd ns_run ns h in search (keeps_rules, Keeps-score_of_doc, index) depth 6

  -- The documents of conversations and of tickets are not runs.
  Keeps-conversation :
      (k : String) (d : Fields) → Keeps ns_run (on_storage (λ s. set_json s ns_conversations k d))
  Keeps-conversation = Keeps-set_json ns_run ns_conversations refl

  Keeps-conversation_index :
      (key k : String) (doc : Fields) → Keeps ns_run (index_json_key ns_conversations key k doc)
  Keeps-conversation_index = Keeps-index_json_key ns_conversations refl

  pub Keeps-ticket :
      (k : String) (d : Fields) → Keeps ns_run (on_storage (λ s. set_json s ns_tickets k d))
  Keeps-ticket = Keeps-set_json ns_run ns_tickets refl

  Keeps-ticket_index :
      (key k : String) (doc : Fields) → Keeps ns_run (index_json_key ns_tickets key k doc)
  Keeps-ticket_index = Keeps-index_json_key ns_tickets refl

  pub Keeps-store_stream :
      (agent_input : AgentInput) (conversation_id : Option String) (text_parts : List String)
      → Keeps ns_run (store_stream agent_input conversation_id text_parts)
  unfolding store_stream
  Keeps-store_stream agent_input conversation_id text_parts =
      search
        (
          keeps_rules, Keeps-conversation, Keeps-conversation_index, Keeps-ticket,
          Keeps-ticket_index,
        )
        depth 12

-- ===== src/Orchestrator/Records.antt =====
-- The documents of the conversation and of the ticket, which `_run_stream` writes behind the last chunk.
pub mod Frames
use deepticket.Prelude.{String, Option, none, some, List, [], ◌∷◌}
use deepticket.Prelude.Text.{join}
use deepticket.Json.{str, Fields, dict_of, put, str_or_null}
use deepticket.Env.{Env}
use deepticket.Exec.{gets, when, ◌>>=◌, ◌>>◌}
use deepticket.Storage.Local.{get_json, set_json}
use deepticket.Storage.Index.{index_json_key}
use deepticket.World.{Action, on_storage, utc_now_iso}
use deepticket.Auth.Users.{given}
use deepticket.Investigation.RunDocs.{is_given, text}
use deepticket.Investigation.RunLifecycle.{AgentInput}

abbrev pub ns_conversations : String
ns_conversations = "conversations"

abbrev pub ns_tickets : String
ns_tickets = "tickets"

module _ ⦃env : Env⦄ where
  abbrev pub conversation_doc : String → AgentInput → List String → Action (Unit {0})
  conversation_doc conversation agent_input text_parts = do
    now ← utc_now_iso
    let doc = dict_of (
        ("conversation_id", str conversation)
        ∷ ("source", str agent_input.source)
        ∷ ("ticket_id", str_or_null agent_input.ticket_id)
        ∷ ("last_reply", str (join "" text_parts))
        ∷ ("updated_at", str now)
        ∷ [])
    on_storage (λ s. set_json s ns_conversations conversation doc)
    index_json_key ns_conversations conversation "updated_at" doc

  -- `self._service.storage.get_json(...) or {"ticket_id": agent_input.ticket_id}`
  abbrev pub existing_or : String → Option Fields → Fields
  existing_or ticket_id none = dict_of (("ticket_id", str ticket_id) ∷ [])
  existing_or ticket_id (some d) = d

  abbrev pub finish_ticket : String → Option String → List String → Action (Unit {0})
  finish_ticket ticket_id conversation text_parts = do
    existing ← gets (λ w. existing_or ticket_id (given (get_json w.storage ns_tickets ticket_id)))
    now ← utc_now_iso
    let doc =
        put
          (put
            (put (put existing "status" (str "finished")) "conversation_id"
              (str_or_null conversation))
            "reply" (str (join "" text_parts)))
          "updated_at" (str now)
    on_storage (λ s. set_json s ns_tickets ticket_id doc)
    index_json_key ns_tickets ticket_id "updated_at" doc

  -- What follows the chunks of a stream that ended without an exception
  unfoldable pub store_stream : AgentInput → Option String → List String → Action (Unit {0})
  store_stream agent_input conversation_id text_parts = do
    when (is_given conversation_id) (conversation_doc (text conversation_id) agent_input text_parts)
    when (is_given agent_input.ticket_id)
        (finish_ticket (text agent_input.ticket_id) conversation_id text_parts)

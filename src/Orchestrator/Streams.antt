-- ===== src/Orchestrator/Streams.antt =====
-- `_run_stream` and `run_ticket_stream`, whose callers read them to the end. A script gives what happens
-- outside: the end of the project's runtime setup, and of the engine's stream what is written to the
-- stores while it goes on, the chunks that it yields, the exception that ends it, if any, and the time it
-- takes.
pub mod Settled
use deepticket.Prelude.{
  String, Bool, true, false, not, Option, none, some, List, [], ◌∷◌, ◌++◌, if◌then◌else◌,
}
use deepticket.Prelude.Int.{ℤ, pos}
use deepticket.Prelude.Text.{nonempty, join}
use deepticket.Json.{str, list, Items, nil, cons, Fields, dict_of}
use deepticket.Env.{Env}
use deepticket.Exec.{
  Error, runtime_error, policy_approval_required, cancelled_error, Exec, Result, ok, err, pure,
  raise, lift, modify, when, ◌>>=◌, ◌>>◌,
}
use deepticket.Storage.Local.{set_json}
use deepticket.World.{World, Action, on_storage}
use deepticket.Observability.Metrics.{MetricsCollector, agent_run_started, agent_run_finished}
use deepticket.Investigation.Status.{
  RunStatus, ingress, ticket, completed, failed, waiting_approval,
}
use deepticket.Investigation.RunDocs.{is_given, text}
use deepticket.Investigation.Models.{InvestigationRun}
use deepticket.Investigation.Events.{RunEventStore}
use deepticket.Investigation.Store.{transition}
use deepticket.Investigation.RunLifecycle.{AgentInput, begin_investigation_run, resolve_system_uid}
use deepticket.Output.Confidence.{compute_confidence}
use deepticket.Output.Chunks.{StreamChunk, blank}
use deepticket.ChatRuns.State.{error_message, skipped}
use deepticket.Orchestrator.Engine.{EngineWrite, engine_writes}
use deepticket.Orchestrator.Records.{ns_tickets, store_stream}
use deepticket.ChatRuns.Execution.{
  Locals, fresh_locals, first_given, noted, given_dict, error_chunk,
}

pub record Script : Type 0 where
  pub runtime : Result (Unit {0})
  pub writes : List EngineWrite
  pub chunks : List StreamChunk
  pub failure : Option Error
  pub duration_ms : ℤ

-- The stores' state, and the process's metrics
pub record Site : Type 0 where
  pub world : World
  pub metrics : MetricsCollector

pub record Config : Type 0 where
  pub run_events : RunEventStore
  pub llm_configured : Bool
  pub bootstrap_username : String
  pub bootstrap_password : String

-- What of the ticket is read behind the making of its prompt
pub record TicketInput : Type 0 where
  pub ticket_id : String
  pub title : String
  pub repo_ids : List String

unfoldable pub on_site : {A : Type 0} → Action A → Exec Site A
on_site m s = let (r, w) = m s.world in (r, record s { world = w })

abbrev pub measure : (MetricsCollector → MetricsCollector) → Exec Site (Unit {0})
measure f = modify (λ s. record s { metrics = f s.metrics })

-- `conversation_id` behind the chunks
unfoldable pub first_conversation : Option String → List StreamChunk → Option String
first_conversation conversation [] = conversation
first_conversation conversation (c ∷ cs) =
    first_conversation (first_given conversation c.conversation_id) cs

-- `text_parts`
unfoldable pub deltas : List StreamChunk → List String
deltas [] = []
deltas (c ∷ cs) = let rest = deltas cs in if nonempty c.delta then c.delta ∷ rest else rest

-- `activity_log`, `assistant_parts` and `terminal_error` after the chunks; the conversation is not read.
unfoldable pub heard : Locals → List StreamChunk → Locals
unfolding noted
heard l [] = l
heard l (c ∷ cs) = heard (noted l c) cs

abbrev repo_items : List String → Items
repo_items [] = nil
repo_items (r ∷ rs) = cons (str r) (repo_items rs)

module _ ⦃env : Env⦄ where
  -- The chunks have been yielded before an exception is raised; a cancellation is no `Exception`.
  abbrev pub is_ok : Option Error → Bool
  is_ok none = true
  is_ok (some (cancelled_error m)) = true
  is_ok (some e) = false

  abbrev pub end_stream : AgentInput → List StreamChunk → Option Error → Exec Site (Unit {0})
  end_stream agent_input chunks none = on_site (
      store_stream agent_input (first_conversation agent_input.conversation_id chunks)
        (deltas chunks))
  end_stream agent_input chunks (some e) = raise e

  -- The `finally`, and what follows it
  abbrev pub finish_engine : AgentInput → Script → Exec Site (Unit {0})
  finish_engine agent_input script = do
    measure (agent_run_finished script.duration_ms (is_ok script.failure) (pos 0))
    end_stream agent_input script.chunks script.failure

  unfoldable pub run_stream : RunEventStore → AgentInput → Script → Exec Site (Unit {0})
  run_stream events agent_input script = do
    measure agent_run_started
    on_site (engine_writes events agent_input script.writes)
    finish_engine agent_input script

  -- How `run_ticket_stream` ends: the status for the run with its message, the chunk that is yielded
  -- last, and the exception that is raised again.
  pub record Ending : Type 0 where
    pub status : RunStatus
    pub error : Option String
    pub chunk : Option StreamChunk
    pub again : Option Error

  abbrev pub confidence_chunk : Locals → StreamChunk
  confidence_chunk l = record blank {
    confidence =
        given_dict (compute_confidence l.activity_log (join "" l.assistant_parts) true false);
  }

  -- The `except` clauses; a cancellation leaves the status at COMPLETED.
  unfoldable pub ending : Locals → Result (Unit {0}) → Ending
  ending l (ok u) = record {
    status = completed;
    error = l.policy_denied_message;
    chunk = some (confidence_chunk l);
    again = none;
  }
  ending l (err (policy_approval_required m)) = record {
    status = waiting_approval;
    error = some m;
    chunk = some (error_chunk m);
    again = none;
  }
  ending l (err (cancelled_error m)) = record {
    status = completed;
    error = l.policy_denied_message;
    chunk = none;
    again = some (cancelled_error m);
  }
  ending l (err e) = record {
    status = failed;
    error = some (error_message e);
    chunk = none;
    again = some e;
  }

  abbrev pub last_chunk : Option StreamChunk → List StreamChunk
  last_chunk none = []
  last_chunk (some c) = c ∷ []

  abbrev pub raise_again : Option Error → Exec Site (Unit {0})
  raise_again none = pure tt
  raise_again (some e) = raise e

  -- `except RunTransitionError: logger.warning(...)` of the `finally`
  unfoldable pub settle_run : RunEventStore → String → String → Ending → Exec Site (Unit {0})
  settle_run events project_id run_id e s =
      let (r, w) = transition project_id run_id e.status e.error none (some events) s.world in
      (skipped r, record s { world = w })

  abbrev pub attempt_stream : RunEventStore → AgentInput → Script → Exec Site (Result (Unit {0}))
  attempt_stream events agent_input script s =
      let (r, s') = run_stream events agent_input script s in (ok r, s')

  module _ (config : Config) where
    abbrev pub run_uid : Option String → Exec Site String
    run_uid uid =
        if is_given uid
        then pure (text uid)
        else on_site (resolve_system_uid config.bootstrap_username config.bootstrap_password)

    abbrev pub ticket_doc : TicketInput → String → Fields
    ticket_doc payload run_id = dict_of (
        ("ticket_id", str payload.ticket_id)
        ∷ ("title", str payload.title)
        ∷ ("status", str "running")
        ∷ ("repo_ids", list (repo_items payload.repo_ids))
        ∷ ("run_id", str run_id)
        ∷ [])

    abbrev pub ticket_input : TicketInput → AgentInput
    ticket_input payload = record {
      conversation_id = none;
      source = "ticket";
      ticket_id = some payload.ticket_id;
      run_id = none;
      project_id = none;
    }

    -- The `finally`, and what is yielded and raised behind it
    abbrev pub finish_stream :
        String
        → Script
        → InvestigationRun × AgentInput
        → Result (Unit {0})
        → Exec Site (List StreamChunk × Option Error)
    finish_stream project_id script begun result = do
      let e = ending (heard (fresh_locals begun.1) script.chunks) result
      settle_run config.run_events project_id begun.0.run_id e
      pure (script.chunks ++ last_chunk e.chunk, e.again)

    -- What follows the beginning of the run
    abbrev pub stream_begun :
        TicketInput
        → String
        → Script
        → InvestigationRun × AgentInput
        → Exec Site (List StreamChunk × Option Error)
    stream_begun payload project_id script begun = do
      on_site (
          on_storage
            (λ s. set_json s ns_tickets payload.ticket_id (ticket_doc payload begun.0.run_id)))
      result ← attempt_stream config.run_events begun.1 script
      finish_stream project_id script begun result

    -- What follows the project's runtime setup
    unfoldable pub stream_owned :
        TicketInput
        → String
        → Option String
        → Option String
        → Script
        → Exec Site (List StreamChunk × Option Error)
    stream_owned payload project_id uid ingress_job_id script = do
      owner ← run_uid uid
      begun ← on_site (
          begin_investigation_run config.run_events project_id owner
            (if is_given ingress_job_id then ingress else ticket) (ticket_input payload) none
            ingress_job_id (some payload.ticket_id))
      stream_begun payload project_id script begun

    -- What is yielded, and the exception that ends the stream
    unfoldable pub run_ticket_stream :
        TicketInput
        → String
        → Option String
        → Option String
        → Script
        → Exec Site (List StreamChunk × Option Error)
    unfolding stream_owned
    run_ticket_stream payload project_id uid ingress_job_id script = do
      when (not config.llm_configured)
          (raise (runtime_error "LLM 未配置：请管理员在工作台侧栏「LLM 配置」填写 API Key"))
      lift script.runtime
      stream_owned payload project_id uid ingress_job_id script

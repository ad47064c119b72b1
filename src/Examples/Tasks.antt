-- ===== src/Examples/Tasks.antt =====
-- Tasks of chat runs, and the jobs of the ingress queue.
use deepticket.Prelude.{String, Option, none, some, ◌≡◌, refl, List, [], ◌∷◌, true, false}
use deepticket.Prelude.Int.{pos}
use deepticket.Json.{end}
use deepticket.Exec.{ok, runtime_error, err}
use deepticket.Storage.Local.{empty}
use deepticket.Investigation.Status.{running}
use deepticket.Investigation.RunLifecycle.{AgentInput}
use deepticket.Output.Chunks.{blank}
use deepticket.Observability.Metrics.{fresh}
use deepticket.Input.Routing.{RouteConfig}
use deepticket.Input.Classifier.{IngressEvent}
use deepticket.ChatRuns.State.{ChatRun, Job}
use deepticket.ChatRuns.Execution.{
  Phase, scheduled, streaming, Signal, start, next_chunk, written, exhausted, raised, Service,
  fresh_locals, steps,
}
use deepticket.ChatRuns.Holds.{Begun, Settled, Holds}
use deepticket.ChatRuns.Settling.{Held}
use deepticket.ChatRuns.Settling.Tasks.{Finished, steps-Finished}
use deepticket.ChatRuns.Manager.{Entry, Manager, is_running, busy, deliver, key_of_chat}
use deepticket.ChatRuns.Manager.Tracking.{deliver-is_running, start_once}
use deepticket.Orchestrator.Engine.{mapped_event, held_call}
use deepticket.Investigation.RunDocs.{agent_message}
use deepticket.Orchestrator.Streams.{Site, Script, TicketInput, run_ticket_stream}
use deepticket.Orchestrator.Streams.Settled.{run_ticket_stream-Settled}
use deepticket.Ingress.Runner.{RunnerConfig, Outside, QueueItem}
use deepticket.Ingress.Queue.{process_item}
use deepticket.Ingress.Queue.Settled.{JobDone, process_item-JobDone}
use deepticket.Examples.Fixtures.{python, world_of, run_at, with_running, running-Stored}

abbrev service : Service
service = record {
  run_events = record { run_store = true };
  llm = record { model = "m"; label = "M" };
}

abbrev agent_input : AgentInput
agent_input = record {
  conversation_id = none;
  source = "chat";
  ticket_id = none;
  run_id = none;
  project_id = some "p";
}

abbrev chat_run : Option String → ChatRun
chat_run run_id = record {
  project_id = "p";
  uid = "u";
  chat_id = "c";
  run_id = run_id;
  agent_conversation_id = none;
  subscribers = [];
  cancel_requested = false;
  done = false;
}

abbrev job : Job
job = record { world = world_of with_running; run = chat_run (some "r") }

running-Held : Held "p" "r" Begun job
running-Held = record {
  holds = record { run = run_at running; stored = running-Stored; keyed = refl; status = refl };
  run_id = refl;
  project_id = refl;
}

abbrev waiting : Phase
waiting = streaming (fresh_locals agent_input)

abbrev signals : List Signal
signals =
    written (held_call "u" none "wait")
    ∷ next_chunk (record blank { delta = "In order" })
    ∷ exhausted
    ∷ raised (runtime_error "no line")
    ∷ []

steps-Finished_example :
    Finished "p" "r" (steps service waiting signals job).0 (steps service waiting signals job).1
steps-Finished_example =
    steps-Finished "p" "r" service refl waiting
      (written (held_call "u" none "wait")
        ∷ next_chunk (record blank { delta = "In order" })
        ∷ exhausted
        ∷ [])
      (runtime_error "no line") job refl running-Held

abbrev manager : Manager
manager = record {
  world = world_of empty;
  entries = record { run = chat_run none; task = some waiting; cancelling = false } ∷ [];
  runs = (key_of_chat "p" "u" "c", 0) ∷ [];
}

deliver-is_running_example :
    is_running "p" "u" "c" (deliver service 0 (raised (runtime_error "no line")) manager) ≡ false
unfolding deepticket.ChatRuns.Manager.Table.entry_at deepticket.ChatRuns.Execution.step
    deepticket.ChatRuns.Execution.handle deepticket.ChatRuns.State.attempt
    deepticket.ChatRuns.Execution.move deepticket.ChatRuns.Execution.set_status
    deepticket.ChatRuns.State.on_world deepticket.Chat.Threads.set_agent_run_status
    deepticket.Chat.Threads.load_chat_meta deepticket.Storage.Local.hgetall empty
deliver-is_running_example =
    deliver-is_running service 0 (raised (runtime_error "no line")) manager
      (record { run = chat_run none; task = some waiting; cancelling = false }) waiting refl refl
      refl refl

abbrev idle : Manager
idle = record { world = world_of empty; entries = []; runs = [] }

abbrev started : Manager
started = (deepticket.ChatRuns.Manager.start service "p" "u" "c" agent_input idle).1

start_once_example :
    (is_running "p" "u" "c" started ≡ true)
    × (deepticket.ChatRuns.Manager.start service "p" "u" "c" agent_input started
        ≡ (err busy, started))
unfolding deepticket.ChatRuns.Manager.start deepticket.ChatRuns.Manager.tracked
    deepticket.ChatRuns.Manager.Table.lookup deepticket.Investigation.Store.get_active_run_for_chat
    deepticket.Investigation.Store.list_runs_for_chat deepticket.Storage.Local.zrevrange empty
start_once_example = start_once service "p" "u" "c" agent_input agent_input idle started 0 refl

abbrev any_route : RouteConfig
any_route = record {
  type = "any";
  description = "";
  criteria = record { default = true; sources = []; title_keywords = []; body_keywords = [] };
  outbound = end;
  prompt_suffix = "";
  repo_ids = [];
}

abbrev config : RunnerConfig
config = record {
  service = record {
    run_events = record { run_store = true };
    llm_configured = true;
    bootstrap_username = "admin";
    bootstrap_password = "secret";
  };
  routing = any_route ∷ [];
  projects = "p" ∷ [];
}

abbrev item : QueueItem
item = record {
  job_id = "j";
  event = record {
    source = "jira";
    project_id = "p";
    external_id = "T-1";
    question = "why";
    extensions = end;
  };
}

abbrev outside : Outside
outside = record {
  script = record {
    runtime = ok tt;
    writes = [];
    chunks = record blank { delta = "In order" } ∷ [];
    failure = none;
    duration_ms = pos 5;
  };
  webhook = record {
    url = "";
    url_env = "";
    extra_env = "";
    extra_headers = "";
    json_error = "";
    response = deepticket.Ingress.Outbound.http_failure "";
  };
}

abbrev site : Site
site = record { world = world_of empty; metrics = fresh 5000 }

process_item-JobDone_example : JobDone "j" (process_item config item outside site).1
unfolding process_item deepticket.Ingress.Runner.run_event
    deepticket.Input.Classifier.classify_ingress_event deepticket.Input.Classifier.first_match
    deepticket.Input.Routing.default_route deepticket.Ingress.Runner.begin_job
    deepticket.Orchestrator.Streams.on_site deepticket.Ingress.Jobs.persist_job
    deepticket.Storage.Index.index_json_key deepticket.Ingress.Runner.updated_doc
    deepticket.Json.put deepticket.Storage.Local.get_json empty
    deepticket.Storage.Index.score_from_doc deepticket.Json.get deepticket.Ingress.Runner.answer
    deepticket.Ingress.Runner.deliver deepticket.Ingress.Runner.store_result
    deepticket.Ingress.Runner.persisted_doc run_ticket_stream
    deepticket.Orchestrator.Streams.stream_owned
    deepticket.Investigation.RunLifecycle.begin_investigation_run
    deepticket.Investigation.Store.create_run deepticket.Investigation.RunDocs.save
    deepticket.Investigation.Store.record_run_created_event deepticket.Investigation.RunDocs.get_run
    deepticket.Storage.Local.zadd deepticket.Storage.Local.set_json
    deepticket.Investigation.Models.from_dict deepticket.Investigation.Models.text_at
    deepticket.Investigation.Models.to_dict deepticket.Investigation.Status.source_of
    deepticket.Investigation.Status.status_of deepticket.Investigation.Events.append
    deepticket.Investigation.Models.count_at deepticket.Investigation.Models.optional_at
    deepticket.Investigation.RunDocs.bump_event_stats
    deepticket.Investigation.Status.validate_transition deepticket.Investigation.Store.moved
    deepticket.Investigation.Store.report deepticket.Investigation.Store.transition
    deepticket.Orchestrator.Streams.ending deepticket.Orchestrator.Streams.heard
    deepticket.Orchestrator.Streams.run_stream deepticket.Orchestrator.Streams.settle_run
    deepticket.Storage.Files.read deepticket.Storage.Files.write deepticket.Storage.Local.incr
    deepticket.Storage.Local.load_zset deepticket.Storage.Local.save_zset
    deepticket.Storage.Local.set_score deepticket.Storage.Local.counter
    deepticket.Investigation.RunLifecycle.resolve_system_uid
    deepticket.Auth.Users.ensure_bootstrap_user deepticket.Auth.Users.add_user
    deepticket.Auth.Passwords.hash_password deepticket.Ingress.Runner.to_ticket
    deepticket.Ingress.Pipeline.collect_stream_text deepticket.Ingress.Pipeline.take_chunk
    deepticket.Ingress.Pipeline.take_chunks deepticket.Orchestrator.Streams.deltas
    deepticket.Orchestrator.Streams.first_conversation deepticket.Prelude.Text.strip
    deepticket.Prelude.Text.join deepticket.Output.Confidence.compute_confidence
    deepticket.Output.Confidence.is_confidence_applicable deepticket.ChatRuns.Execution.noted
    deepticket.Input.Classifier.is_hit deepticket.Input.Classifier.is_matched
    deepticket.Orchestrator.Records.store_stream deepticket.Orchestrator.Engine.engine_writes
process_item-JobDone_example =
    process_item-JobDone config item outside site (process_item config item outside site).1 refl
      refl

abbrev broken : Script
broken = record {
  runtime = ok tt;
  writes = mapped_event agent_message end none ∷ held_call "u" none "wait" ∷ [];
  chunks = record blank { delta = "In order" } ∷ [];
  failure = some (runtime_error "no line");
  duration_ms = pos 5;
}

abbrev t1 : TicketInput
t1 = record { ticket_id = "T-1"; title = ""; repo_ids = [] }

run_ticket_stream-Settled_example :
    Holds "p" "0a" Settled
      (run_ticket_stream config.service t1 "p" (some "u") none broken site).1.world.storage
unfolding run_ticket_stream deepticket.Orchestrator.Streams.stream_owned
    deepticket.Orchestrator.Streams.on_site
    deepticket.Investigation.RunLifecycle.begin_investigation_run
    deepticket.Investigation.Store.create_run deepticket.Investigation.RunDocs.save
    deepticket.Investigation.Store.record_run_created_event deepticket.Investigation.RunDocs.get_run
    deepticket.Storage.Local.get_json deepticket.Storage.Local.zadd
    deepticket.Storage.Local.set_json empty deepticket.Investigation.Models.from_dict
    deepticket.Investigation.Models.text_at deepticket.Json.get
    deepticket.Investigation.Models.to_dict deepticket.Investigation.Status.source_of
    deepticket.Investigation.Status.status_of deepticket.Investigation.Events.append
    deepticket.Investigation.Models.count_at deepticket.Investigation.Models.optional_at
    deepticket.Investigation.RunDocs.bump_event_stats
    deepticket.Investigation.Status.validate_transition deepticket.Investigation.Store.moved
    deepticket.Investigation.Store.report deepticket.Investigation.Store.transition
    deepticket.Json.put deepticket.Orchestrator.Streams.ending deepticket.Orchestrator.Streams.heard
    deepticket.Orchestrator.Streams.run_stream deepticket.Orchestrator.Streams.settle_run
    deepticket.Storage.Files.read deepticket.Storage.Files.write deepticket.Storage.Local.incr
    deepticket.Storage.Local.load_zset deepticket.Storage.Local.save_zset
    deepticket.Storage.Local.set_score deepticket.Storage.Local.counter
    deepticket.Orchestrator.Engine.engine_writes deepticket.Orchestrator.Engine.engine_write
    deepticket.Investigation.Governance.Pause.mark_run_waiting_approval
    deepticket.Investigation.Governance.Pause.mark_found
    deepticket.Investigation.Governance.Pause.pause_run
    deepticket.Investigation.Governance.Pause.show_waiting
run_ticket_stream-Settled_example =
    run_ticket_stream-Settled config.service t1 "p" (some "u") none broken site
      (run_ticket_stream config.service t1 "p" (some "u") none broken site).1
      (record blank { delta = "In order" } ∷ []) (some (runtime_error "no line")) refl

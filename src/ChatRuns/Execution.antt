-- ===== src/ChatRuns/Execution.antt =====
-- `ChatRunManager._execute`, cut where it waits: for the next chunk of the engine's stream, and for the
-- engine's count of tokens. What happens while it waits is a signal.
use deepticket.Prelude.{
  String, Bool, true, false, Option, none, some, List, [], ◌∷◌, ◌++◌, if◌then◌else◌,
}
use deepticket.Prelude.Text.{◌<>◌, nonempty, join}
use deepticket.Json.{Fields, str, dict_of}
use deepticket.Env.{Env}
use deepticket.Exec.{
  Error, runtime_error, http_error, policy_approval_required, policy_denied, cancelled_error, Exec,
  Result, ok, err, pure, raise, gets, when, ◌>>=◌, ◌>>◌,
}
use deepticket.Investigation.Status.{
  RunStatus, running, waiting_approval, completed, failed, blocked, cancelled, chat, is_status,
}
use deepticket.Investigation.Models.{InvestigationRun, is_terminal}
use deepticket.Investigation.RunDocs.{get_run, is_given, text}
use deepticket.Investigation.Events.{RunEventStore}
use deepticket.Investigation.Store.{transition, set_oh_conversation_id}
use deepticket.Investigation.RunLifecycle.{AgentInput, begin_investigation_run}
use deepticket.Chat.Threads.{set_agent_run_status, set_agent_conversation_id}
use deepticket.Chat.Writing.{append_message}
use deepticket.Output.Confidence.{Confidence, compute_confidence}
use deepticket.Output.Chunks.{StreamChunk, blank, confidence_dict}
use deepticket.Orchestrator.Engine.{EngineWrite, guarded_write}
use deepticket.Orchestrator.Records.{store_stream}
use deepticket.Usage.Recording.{Llm, Fetched, record_chat_token_usage}
use deepticket.ChatRuns.State.{
  ChatRun, Job, sentinel, broadcast_item, update_run, broadcast, on_world, attempt, error_message,
}

-- What the coroutine keeps in its local variables, and `conversation_id` of the `_run_stream` that it reads,
-- whose `text_parts` are the `assistant_parts` of the chunks that it has yielded
pub record Locals : Type 0 where
  pub agent_input : AgentInput
  pub stream_conversation : Option String
  pub assistant_parts : List String
  pub activity_log : List Fields
  pub agent_conversation_id : Option String
  pub policy_denied_message : Option String

abbrev pub fresh_locals : AgentInput → Locals
fresh_locals agent_input = record {
  agent_input = agent_input;
  stream_conversation = agent_input.conversation_id;
  assistant_parts = [];
  activity_log = [];
  agent_conversation_id = agent_input.conversation_id;
  policy_denied_message = none;
}

-- Where the code goes on: with the next chunk, behind the loop, with the count of tokens, or out of the
-- function by `return`.
pub data Next : Type 0 where
  more : Locals → Next
  leave : Locals → Next
  usage : Locals → Next
  return : Next

-- Where the task waits
pub data Phase : Type 0 where
  scheduled : AgentInput → Phase
  streaming : Locals → Phase
  fetching : Locals → Phase
  ended : Result (Unit {0}) → Phase

-- What ends the wait: the event loop starts the task, the stream has a chunk or is exhausted, the tokens
-- are counted, or an exception is raised at the `await`; a cancellation of the task is `CancelledError`. While
-- the stream goes on, the engine writes to the stores.
pub data Signal : Type 0 where
  start : Signal
  next_chunk : StreamChunk → Signal
  written : EngineWrite → Signal
  exhausted : Signal
  fetched : Option Fetched → Signal
  raised : Error → Signal

-- `service.run_events`, and the model of `service.engine`
pub record Service : Type 0 where
  pub run_events : RunEventStore
  pub llm : Llm

abbrev pub or_text : Option String → Option String → Option String
or_text a b = if is_given a then a else b

abbrev pub kind_or_default : Option String → String
kind_or_default kind = if is_given kind then text kind else "default"

-- `if chunk.conversation_id and not conversation_id:`
abbrev pub first_given : Option String → Option String → Option String
first_given conversation_id given =
    if is_given conversation_id
    then conversation_id
    else if is_given given
    then given
    else conversation_id

-- The appends to `activity_log` and `assistant_parts`, `policy_denied_message`, and the stream's conversation
unfoldable pub noted : Locals → StreamChunk → Locals
noted l c = record l {
  stream_conversation = first_given l.stream_conversation c.conversation_id;
  activity_log =
      if is_given c.activity
      then l.activity_log
        ++ (dict_of (
              ("text", str (text c.activity))
              ∷ ("kind", str (kind_or_default c.activity_kind))
              ∷ [])
            ∷ [])
      else l.activity_log;
  assistant_parts =
      if nonempty c.delta then l.assistant_parts ++ (c.delta ∷ []) else l.assistant_parts;
  policy_denied_message =
      if c.policy_denied
      then or_text c.policy_message l.policy_denied_message
      else l.policy_denied_message;
}

abbrev pub given_dict : Option Confidence → Option Fields
given_dict none = none
given_dict (some c) = some (confidence_dict c)

abbrev pub error_chunk : String → StreamChunk
error_chunk message = record blank { activity = some message; activity_kind = some "error" }

module _ ⦃env : Env⦄ (service : Service) where
  -- `service.investigation_runs.transition(project_id, run.run_id, ...)` under `if run.run_id:`
  abbrev pub move_run : RunStatus → Option String → ChatRun → Exec Job (Unit {0})
  move_run to error_message run = when (is_given run.run_id) (
      on_world (
        transition run.project_id (text run.run_id) to error_message none (some service.run_events))
      >> pure tt)

  unfoldable pub move : RunStatus → Option String → Exec Job (Unit {0})
  move to error_message = do run ← gets (λ j. j.run); move_run to error_message run

  -- `service.chat_history.set_agent_run_status(project_id, uid, chat_id, ...)`
  unfoldable pub set_status : String → Option String → Exec Job (Unit {0})
  set_status status error = do
    run ← gets (λ j. j.run)
    on_world (set_agent_run_status run.project_id run.uid run.chat_id status error)

  -- The run of an approved call goes on.
  abbrev pub resume_run : String → String → Option InvestigationRun → Exec Job String
  resume_run project_id run_id none = raise (runtime_error ("InvestigationRun 不存在: " <> run_id))
  resume_run project_id run_id (some found) = do
    update_run (λ run. record run { run_id = some found.run_id })
    when (is_status found.status waiting_approval) (
        on_world (transition project_id found.run_id running none none (some service.run_events))
        >> pure tt)
    pure found.run_id

  unfoldable pub begin_run : AgentInput → Exec Job String
  begin_run agent_input = do
    run ← gets (λ j. j.run)
    if is_given agent_input.run_id
        then (do
          found ← on_world (get_run run.project_id (text agent_input.run_id))
          resume_run run.project_id (text agent_input.run_id) found)
        else (do
          begun ← on_world (
              begin_investigation_run service.run_events run.project_id run.uid chat agent_input
                (some run.chat_id) none none)
          update_run (λ run'. record run' { run_id = some begun.0.run_id })
          pure begun.0.run_id)

  -- `if loaded and loaded.status is WAITING_APPROVAL: ...; return`
  abbrev pub show_waiting : Option InvestigationRun → Exec Job Bool
  show_waiting none = pure false
  show_waiting (some loaded) =
      if is_status loaded.status waiting_approval
      then set_status "waiting_approval" loaded.error_message >> pure true
      else pure false

  abbrev pub run_is_waiting : ChatRun → Exec Job Bool
  run_is_waiting run =
      if is_given run.run_id
      then (do loaded ← on_world (get_run run.project_id (text run.run_id)); show_waiting loaded)
      else pure false

  unfoldable pub is_waiting : Exec Job Bool
  unfolding set_status
  is_waiting = do run ← gets (λ j. j.run); run_is_waiting run

  abbrev pub set_conversation : String → ChatRun → Exec Job (Unit {0})
  set_conversation conversation_id run = when (is_given run.run_id) (
      on_world (set_oh_conversation_id run.project_id (text run.run_id) conversation_id) >> pure tt)

  unfoldable pub take_conversation : Locals → StreamChunk → Exec Job Locals
  take_conversation l c =
      if is_given c.conversation_id
      then (do
        update_run (λ run. record run { agent_conversation_id = c.conversation_id })
        run ← gets (λ j. j.run)
        set_conversation (text c.conversation_id) run
        pure (record l { agent_conversation_id = c.conversation_id }))
      else pure l

  unfoldable pub on_chunk : Locals → StreamChunk → Exec Job Next
  on_chunk l c = do
    cancel_requested ← gets (λ j. j.run.cancel_requested)
    if cancel_requested then pure (leave l) else (do
      waiting ← is_waiting
      if waiting
          then pure return
          else (do l' ← take_conversation l c; broadcast c; pure (more (noted l' c))))

  -- The reply and its confidence go into the conversation.
  abbrev pub store_parts :
      Locals → String → Option Fields → ChatRun → List String → Exec Job (Unit {0})
  store_parts l reply confidence run [] = when (is_given l.agent_conversation_id) (
      on_world (
        set_agent_conversation_id run.project_id run.uid run.chat_id
          (text l.agent_conversation_id)))
  store_parts l reply confidence run (part ∷ parts) =
      on_world (
        append_message run.project_id run.uid run.chat_id (record {
          role = "assistant";
          content = reply;
          agent_conversation_id = l.agent_conversation_id;
          activities = l.activity_log;
          confidence = confidence;
          image_urls = [];
          run_id = run.run_id;
        }))
      >> pure tt

  unfoldable pub store_reply : Locals → String → Option Fields → Exec Job (Unit {0})
  store_reply l reply confidence = do
    run ← gets (λ j. j.run)
    store_parts l reply confidence run l.assistant_parts

  abbrev pub send_confidence : Option Fields → Exec Job (Unit {0})
  send_confidence none = pure tt
  send_confidence (some d) = broadcast (record blank { confidence = some d })

  unfoldable pub complete : Locals → Exec Job Next
  complete l = do move completed l.policy_denied_message; set_status "idle" none; pure return

  abbrev pub finish_loaded : Locals → Option InvestigationRun → Exec Job Next
  finish_loaded l none = complete l
  finish_loaded l (some loaded) =
      if is_status loaded.status waiting_approval
      then set_status "waiting_approval" loaded.error_message >> pure return
      else if is_terminal loaded
      then set_status "idle" none >> pure return
      else complete l

  abbrev pub finish_run : Locals → ChatRun → Exec Job Next
  finish_run l run =
      if is_given run.run_id
      then (do loaded ← on_world (get_run run.project_id (text run.run_id)); finish_loaded l loaded)
      else complete l

  -- From `if run.run_id:` behind the count of tokens to the end of the `try`
  unfoldable pub finish : Locals → Exec Job Next
  unfolding complete set_status
  finish l = do run ← gets (λ j. j.run); finish_run l run

  -- Behind the loop, to the wait for the count of tokens
  unfoldable pub after_stream : Locals → Exec Job Next
  after_stream l = do
    cancel_requested ← gets (λ j. j.run.cancel_requested)
    if cancel_requested then (do move cancelled none; set_status "idle" none; pure return) else (do
      let reply = join "" l.assistant_parts
      let confidence = given_dict (compute_confidence l.activity_log reply true true)
      send_confidence confidence
      store_reply l reply confidence
      if is_given l.agent_conversation_id then pure (usage l) else finish l)

  -- Both of `except httpx.HTTPError` and `except RuntimeError`, whose subclasses the policy errors are
  abbrev pub logged : Result (Unit {0}) → Result (Unit {0})
  logged (err (http_error m)) = ok tt
  logged (err (runtime_error m)) = ok tt
  logged (err (policy_approval_required m)) = ok tt
  logged (err (policy_denied m)) = ok tt
  logged r = r

  unfoldable pub record_usage : Locals → Result (Option Fetched) → Exec Job (Unit {0})
  record_usage l (err e) j = (logged (err e), j)
  record_usage l (ok counted) j =
      let (r, j') =
        on_world
          (record_chat_token_usage service.llm j.run.project_id j.run.uid j.run.chat_id
            (text l.agent_conversation_id) counted)
          j in
      (logged r, j')

  -- Each `except` of `_execute`; a cancellation is raised again.
  unfoldable pub handle : Error → Exec Job (Unit {0})
  handle (cancelled_error m) = do
    attempt (move cancelled none)
    set_status "idle" none
    raise (cancelled_error m)
  handle (policy_approval_required m) = do
    attempt (move waiting_approval (some m))
    set_status "waiting_approval" (some m)
    broadcast (error_chunk m)
  handle (policy_denied m) = do
    attempt (move blocked (some m))
    set_status "idle" (some m)
    broadcast (error_chunk m)
  handle e = do
    attempt (move failed (some (error_message e)))
    set_status "failed" (some (error_message e))
    broadcast (error_chunk (error_message e))

  -- `finally`, but for the removal from the manager's table
  unfoldable pub close : Job → Job
  unfolding broadcast_item
  close j = record j { run = broadcast_item sentinel (record j.run { done = true }) }

  abbrev pub closed : Result (Unit {0}) × Job → Phase × Job
  closed (r, j) = (ended r, close j)

  -- What follows a part of the `try`
  abbrev pub proceed : Result Next × Job → Phase × Job
  proceed (ok (more l), j) = (streaming l, j)
  proceed (ok (leave l), j) = (streaming l, j)
  proceed (ok (usage l), j) = (fetching l, j)
  proceed (ok return, j) = closed (ok tt, j)
  proceed (err e, j) = closed (handle e j)

  -- The loop's `break` goes on behind the loop.
  abbrev pub behind_loop : Next → Exec Job Next
  behind_loop (leave l) = after_stream l
  behind_loop n = pure n

  -- What is before the `try` is not guarded by it.
  abbrev pub enter : AgentInput → Result String × Job → Phase × Job
  enter agent_input (err e, j) = (ended (err e), j)
  enter agent_input (ok run_id, j) =
      proceed ((set_status "running" none >> pure (more (fresh_locals agent_input))) j)

  -- The rest of `_run_stream`, which runs when its stream has no further chunk
  abbrev pub store_records : Locals → Exec Job (Unit {0})
  store_records l = on_world (store_stream l.agent_input l.stream_conversation l.assistant_parts)

  -- The engine's input names the run of the task's object.
  abbrev pub input_for : Locals → ChatRun → AgentInput
  input_for l run = record l.agent_input { run_id = run.run_id; project_id = some run.project_id }

  abbrev pub write_for : Locals → EngineWrite → ChatRun → Exec Job (Unit {0})
  write_for l write run = on_world (guarded_write service.run_events (input_for l run) write)

  abbrev pub engine_wrote : Locals → EngineWrite → Exec Job (Unit {0})
  engine_wrote l write = do run ← gets (λ j. j.run); write_for l write run

  unfoldable pub step : Phase → Signal → Job → Phase × Job
  unfolding begin_run close
  step (scheduled agent_input) start j = enter agent_input (begin_run agent_input j)
  step (scheduled agent_input) (raised e) j = (ended (err e), j)
  step (streaming l) (next_chunk c) j = proceed ((on_chunk l c >>= behind_loop) j)
  step (streaming l) (written write) j = (streaming l, (engine_wrote l write j).1)
  step (streaming l) exhausted j = proceed ((store_records l >> after_stream l) j)
  step (streaming l) (raised e) j = proceed (err e, j)
  step (fetching l) (fetched counted) j = proceed ((record_usage l (ok counted) >> finish l) j)
  step (fetching l) (raised e) j = proceed ((record_usage l (err e) >> finish l) j)
  step phase signal j = (phase, j)

  -- The signals one after another
  unfoldable pub steps : Phase → List Signal → Job → Phase × Job
  steps phase [] j = (phase, j)
  steps phase (signal ∷ signals) j =
      let (phase', j') = step phase signal j in steps phase' signals j'

-- ===== src/ChatRuns/Manager.antt =====
-- `ChatRunManager`: the run objects, their tasks, and the table `_runs` from a chat's key to the run object
-- that it tracks. Objects are shared: the table and the tasks name them by their place in a list. The lock
-- is never held across an `await`, so each operation is cut only where the source waits.
pub mod Table
pub mod Tracking
use deepticket.Prelude.{
  ℕ, zero, suc, String, Bool, true, false, not, ◌&&◌, Option, none, some, List, [], ◌∷◌, ◌++◌, ◌==◌,
  if◌then◌else◌, length,
}
use deepticket.Prelude.Text.{◌<>◌, nonempty}
use deepticket.Env.{Env}
use deepticket.Exec.{
  Error, runtime_error, cancelled_error, Result, ok, err, Exec, pure, raise, gets, modify, require,
  when, ◌>>=◌, ◌>>◌,
}
use deepticket.World.{World, Action}
use deepticket.Investigation.Status.{waiting_approval, cancelled, blocked, is_status}
use deepticket.Investigation.Models.{InvestigationRun}
use deepticket.Investigation.RunDocs.{get_run, is_given, text}
use deepticket.Investigation.Store.{transition, get_active_run_for_chat}
use deepticket.Investigation.RunLifecycle.{AgentInput}
use deepticket.Investigation.Approvals.{
  ApprovalRequest, approved, rejected, get_pending_for_run, resolve, issue_tool_grant,
}
use deepticket.Chat.Threads.{set_agent_run_status}
use deepticket.Chat.Reading.{Thread, get_thread_summary, get_thread}
use deepticket.ChatRuns.State.{Queue, ChatRun, Job, on_world, attempt}
use deepticket.ChatRuns.Execution.{Phase, scheduled, ended, Signal, raised, Service, step}
use deepticket.ChatRuns.Manager.Table.{put, lookup, pop, entry_at, replace}

-- A run object; its task, which is there once it is created; and whether the task is to be cancelled
pub record Entry : Type 0 where
  pub run : ChatRun
  pub task : Option Phase
  pub cancelling : Bool

pub record Manager : Type 0 where
  pub world : World
  pub entries : List Entry
  pub runs : List (String × ℕ)

-- `_key`
abbrev pub key_of_chat : String → String → String → String
key_of_chat project_id uid chat_id = project_id <> ":" <> uid <> ":" <> chat_id

abbrev pub named : List Entry → Option ℕ → Option Entry
named entries none = none
named entries (some i) = entry_at entries i

-- `self._runs.get(key)`
unfoldable pub tracked : String → Manager → Option Entry
tracked key m = named m.entries (lookup m.runs key)

abbrev pub is_live : Option Entry → Bool
is_live none = false
is_live (some e) = not e.run.done

unfoldable pub is_running : String → String → String → Manager → Bool
unfolding tracked
is_running project_id uid chat_id m = is_live (tracked (key_of_chat project_id uid chat_id) m)

abbrev pub set_entry : ℕ → (Entry → Entry) → Exec Manager (Unit {0})
set_entry i f = modify (λ m. record m { entries = replace m.entries i f })

abbrev pub set_run : ℕ → (ChatRun → ChatRun) → Exec Manager (Unit {0})
set_run i f = set_entry i (λ e. record e { run = f e.run })

abbrev pub busy : Error
busy = runtime_error "该对话已有进行中的 Agent 任务，请稍候"

-- `_ChatRun(...)` under a new reference, and `self._runs[key] = run`
unfoldable pub register_run : String → ChatRun → Exec Manager ℕ
register_run key run m =
    let i = length m.entries in
    (
      ok i,
      record m {
        entries = m.entries ++ (record { run = run; task = none; cancelling = false } ∷ []);
        runs = put m.runs key i;
      },
    )

abbrev pub fresh_run : String → String → String → Option String → Option String → ChatRun
fresh_run project_id uid chat_id run_id conversation = record {
  project_id = project_id;
  uid = uid;
  chat_id = chat_id;
  run_id = run_id;
  agent_conversation_id = conversation;
  subscribers = [];
  cancel_requested = false;
  done = false;
}

-- `asyncio.create_task(self._execute(run, ...))`
unfoldable pub create_task : ℕ → AgentInput → Exec Manager (Unit {0})
create_task i agent_input = set_entry i (λ e. record e { task = some (scheduled agent_input) })

abbrev pub on_state : {A : Type 0} → Action A → Exec Manager A
on_state a m = let (r, w) = a m.world in (r, record m { world = w })

-- `queue = asyncio.Queue(maxsize=512); run.subscribers.append(queue)`, and the `finally` of `subscribe`
unfoldable pub subscribe : ℕ → ℕ → Exec Manager (Unit {0})
subscribe i ident = set_run i (λ run. record run {
  subscribers = run.subscribers ++ (record { ident = ident; items = [] } ∷ []);
})

abbrev pub without : ℕ → List Queue → List Queue
without ident queues =
    deepticket.Prelude.select (λ q. not (deepticket.Prelude.eqb q.ident ident)) queues

unfoldable pub unsubscribe : ℕ → ℕ → Exec Manager (Unit {0})
unsubscribe i ident = set_run i (λ run. record run { subscribers = without ident run.subscribers })

-- What `cancel_chat` has found before it waits for the engine: the run to cancel, if one is going on, and
-- the conversation to cancel
pub record Cancelling : Type 0 where
  pub target : Option ℕ
  pub conversation : Option String

abbrev pub conversation_of : Option Entry → Option String
conversation_of none = none
conversation_of (some e) = e.run.agent_conversation_id

abbrev pub or_given : Option String → Option String → Option String
or_given a b = if is_given a then a else b

-- What `cancel_chat` returns, with the engine's answer for the conversation
unfoldable pub cancel_answer : Cancelling → Bool → Bool
cancel_answer c answer = elim c.target [ none ↦ is_given c.conversation && answer | some i ↦ true ]

-- What `resume_after_approval` has done before it waits: the run is blocked, or a new object is registered
-- for it, and the task of a former object may have to be cancelled.
pub data Resumed : Type 0 where
  refused : Resumed
  resuming : ℕ → AgentInput → Option ℕ → Resumed

-- A task to be cancelled gets the cancellation in place of what it waits for.
abbrev pub signal_of : Bool → Signal → Signal
signal_of true signal = raised (cancelled_error "")
signal_of false signal = signal

-- The `finally` of the task that is done removes the chat's key, whichever object it names.
abbrev pub release : Bool → ChatRun → List (String × ℕ) → List (String × ℕ)
release was_done run runs =
    if run.done && not was_done
    then pop runs (key_of_chat run.project_id run.uid run.chat_id)
    else runs

module _ ⦃env : Env⦄ (service : Service) where
  -- What follows the question for a stored run of the chat that is not over
  abbrev pub start_new :
      String → String → String → AgentInput → Option InvestigationRun → Exec Manager ℕ
  start_new project_id uid chat_id agent_input (some active) = raise busy
  start_new project_id uid chat_id agent_input none = do
    i ←
        register_run (key_of_chat project_id uid chat_id)
          (fresh_run project_id uid chat_id none agent_input.conversation_id)
    create_task i agent_input
    pure i

  unfoldable pub start : String → String → String → AgentInput → Exec Manager ℕ
  unfolding register_run create_task
  start project_id uid chat_id agent_input = do
    existing ← gets (tracked (key_of_chat project_id uid chat_id))
    if is_live existing then raise busy else (do
      active ← on_state (get_active_run_for_chat project_id uid chat_id)
      start_new project_id uid chat_id agent_input active)

  -- The run is told to stop; its stored run is moved where the table allows it.
  abbrev pub cancel_entry :
      String → Option String → Option ℕ → Option Entry → Exec Manager Cancelling
  cancel_entry project_id conversation (some i) (some e) =
      if e.run.done
      then pure (record {
        target = none;
        conversation = or_given conversation e.run.agent_conversation_id;
      })
      else (do
        when (is_given e.run.run_id) (λ m.
            let (r, w) =
              transition project_id (text e.run.run_id) cancelled none none
                (some service.run_events) m.world in
            (deepticket.ChatRuns.State.skipped r, record m { world = w }))
        set_run i (λ run. record run { cancel_requested = true })
        pure (record {
          target = some i;
          conversation = or_given conversation e.run.agent_conversation_id;
        }))
  cancel_entry project_id conversation i e =
      pure (record { target = none; conversation = or_given conversation none })

  -- `cancel_chat`, to the wait for the engine
  unfoldable pub cancel_chat : String → String → String → Option String → Exec Manager Cancelling
  cancel_chat project_id uid chat_id conversation = do
    let key = key_of_chat project_id uid chat_id
    i ← gets (λ m. lookup m.runs key)
    existing ← gets (tracked key)
    cancel_entry project_id conversation i existing

  -- `if run.task is not None and not run.task.done(): run.task.cancel()`
  abbrev pub cancelled_entry : Entry → Entry
  cancelled_entry e = elim e.task [
    | none ↦ e
    | some (ended r) ↦ e
    | some phase ↦ record e { cancelling = true }
  ]

  unfoldable pub cancel_task : ℕ → Exec Manager (Unit {0})
  cancel_task i = set_entry i cancelled_entry

  abbrev pub deliver_phase : ℕ → Signal → Entry → Option Phase → Manager → Manager
  deliver_phase i signal e none m = m
  deliver_phase i signal e (some phase) m =
      let (phase', j) =
        step service phase (signal_of e.cancelling signal)
          (record { world = m.world; run = e.run }) in
      record {
        world = j.world;
        entries =
            replace m.entries i
              (λ e'. record { run = j.run; task = some phase'; cancelling = false });
        runs = release e.run.done j.run m.runs;
      }

  abbrev pub deliver_to : ℕ → Signal → Option Entry → Manager → Manager
  deliver_to i signal none m = m
  deliver_to i signal (some e) m = deliver_phase i signal e e.task m

  -- The event loop goes on with one task.
  unfoldable pub deliver : ℕ → Signal → Manager → Manager
  deliver i signal m = deliver_to i signal (entry_at m.entries i) m

  abbrev pub check_run : Option InvestigationRun → Exec Manager (Unit {0})
  check_run none = raise (runtime_error "Run 不存在")
  check_run (some run) =
      if is_status run.status waiting_approval then pure tt else raise (runtime_error "Run 不在待审批状态")

  abbrev pub reject_run :
      String → String → String → String → Option String → ApprovalRequest → Exec Manager Resumed
  reject_run project_id uid chat_id run_id reason pending = do
    on_state (resolve project_id pending.approval_id rejected uid reason)
    on_state (
        transition project_id run_id blocked
          (some (if is_given reason then text reason else "审批已拒绝")) none (some service.run_events))
    on_state (set_agent_run_status project_id uid chat_id "idle" none)
    pure refused

  abbrev pub stale_of : String → Option ℕ → Option Entry → Result (Option ℕ)
  stale_of run_id (some i) (some e) = if e.run.done then ok none else elim e.run.run_id [
    | none ↦ err busy
    | some r ↦ if r == run_id then ok (some i) else err busy
  ]
  stale_of run_id i e = ok none

  -- The object that the table tracks gives way to a new one for the same run.
  unfoldable pub replace_run : String → String → String → String → AgentInput → Exec Manager Resumed
  unfolding tracked register_run
  replace_run project_id uid chat_id run_id agent_input = do
    let key = key_of_chat project_id uid chat_id
    i ← gets (λ m. lookup m.runs key)
    existing ← gets (tracked key)
    stale ← (λ m. (stale_of run_id i existing, m))
    elim stale [
      | none ↦ pure tt
      | some old ↦
          set_run old (λ run. record run { cancel_requested = true })
          >> modify (λ m. record m { runs = pop m.runs key })
    ]
    new ←
        register_run key
          (fresh_run project_id uid chat_id (some run_id) agent_input.conversation_id)
    pure (resuming new agent_input stale)

  abbrev pub resume_input : String → String → Thread → AgentInput
  resume_input project_id run_id thread = record {
    conversation_id = thread.agent_conversation_id;
    source = "chat";
    ticket_id = none;
    run_id = some run_id;
    project_id = some project_id;
  }

  abbrev pub approve_run :
      String → String → String → String → Option String → ApprovalRequest → Exec Manager Resumed
  approve_run project_id uid chat_id run_id reason pending = do
    on_state (resolve project_id pending.approval_id approved uid reason)
    on_state (issue_tool_grant project_id run_id pending.tool_name pending.approval_id)
    summary ← on_state (get_thread_summary project_id uid chat_id)
    thread ← require summary (runtime_error ("聊天不存在: " <> chat_id))
    on_state (get_thread project_id uid chat_id)
    replace_run project_id uid chat_id run_id (resume_input project_id run_id thread)

  -- `resume_after_approval`, to the wait for the engine
  unfoldable pub resume_after_approval :
      String → String → String → String → Bool → Option String → Exec Manager Resumed
  resume_after_approval project_id uid chat_id run_id is_approved reason = do
    found ← on_state (get_run project_id run_id)
    check_run found
    waiting ← on_state (get_pending_for_run project_id run_id)
    pending ← require waiting (runtime_error "未找到待审批请求")
    if is_approved
        then approve_run project_id uid chat_id run_id reason pending
        else reject_run project_id uid chat_id run_id reason pending

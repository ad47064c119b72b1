-- ===== src/Lib.antt =====
-- DeepTicket answers tickets and chats with an agent that investigates logs, code and configuration by
-- tools. This library models what keeps the work in order: the runs with their life cycle and events, the
-- governance of tool calls with its approvals, the tasks of chats, the jobs that arrive from outside, the
-- conversations, users and settings, and the storage below them all.
--
-- How the parts interact. A client creates a run in the run store (deepticket/investigation/store.py),
-- which moves it along a transition table and reports each move to the event store (events.py). Before
-- each tool call the agent's process calls the hook (governance/pre_tool_use.py). It finds the run of the
-- conversation (governance/session_context.py) and asks the gate (governance/gate.py), which asks the
-- policy (policy/), uses a grant or makes a request for an approval (approvals.py), and records what it
-- decided as events. A held call makes the run wait (governance/approval_pause.py).
-- A chat's message starts a task (deepticket/chat_runs.py) that creates a run, reads the engine's stream,
-- hands its chunks to the chat's subscribers, stores the reply (layers/storage/chat_history.py) with the
-- tokens that were used, and settles the run; an approval starts another task for the same run. An event
-- from outside becomes a job in a queue (layers/ingress/queue.py); a worker gives it to the runner
-- (ingress_runner.py), which streams a ticket (chat_orchestrator.py), sends the reply out and stores what
-- became of the job. All of them keep their state in one storage (deepticket/layers/storage/local.py).
--
-- Files and source, paths below deepticket/:
--   Prelude, Json, Exec, Env   Python: texts, sorting, JSON values, exceptions, clocks and identifiers
--   Storage                    layers/storage/local.py and base.py: `LocalStorage`; json_index.py
--   World                      the state that the stores share: the storage and the drawn identifiers
--   Investigation.Status       investigation/models.py, transitions.py: statuses and their table
--   Investigation.Models       investigation/models.py: `InvestigationRun`
--   Investigation.RunDocs      investigation/store.py: reading and writing one run, `bump_event_stats`
--   Investigation.Store        investigation/store.py: the other methods of `InvestigationRunStore`
--   Investigation.Events       investigation/events.py: `RunEventStore`
--   Investigation.Evolution    the abstract machine that the stores of runs and events refine
--   Investigation.Approvals    investigation/approvals.py: `ApprovalRequestStore`
--   Investigation.Policy       investigation/policy/ and config/tool_governance.py
--   Investigation.Registry     investigation/registry/mcp_tools.py: the cached tools
--   Investigation.Gate         investigation/governance/gate.py: `ToolGovernanceGate`
--   Investigation.Governance   investigation/governance/: sessions, the pause and the hook
--   Investigation.RunLifecycle investigation/run_lifecycle.py
--   Auth                       auth/user_store.py and passwords.py
--   Chat                       layers/storage/chat_history.py: `ChatHistoryStore`
--   Usage                      layers/storage/token_usage.py, and `record_chat_token_usage` of service.py
--   ChatRuns.State             chat_runs.py: a run object and its subscribers
--   ChatRuns.Execution         chat_runs.py: `ChatRunManager._execute` as steps of a task
--   ChatRuns.Manager           chat_runs.py: the other methods of `ChatRunManager`
--   ChatRuns.Holds, Settling   what the steps of a task keep of its stored run
--   Orchestrator               chat_orchestrator.py: the history of a chat, the stream of a ticket, and the
--                              documents that a stream leaves (Records)
--   Orchestrator.Engine        layers/engine/openhands_engine.py: what `_push_event` writes to the stores
--   Ingress                    layers/ingress/ and ingress_runner.py; layers/output/outbound/registry.py
--   Projects                   projects/permissions.py: `ProjectPermissionStore`; merge.py, with the paths of
--                              nested dictionaries (Merge.Paths)
--   Input                      config/routing_schema.py and layers/input/classifier.py
--   Output                     layers/output/confidence.py and models.py
--   Observability              observability/metrics.py
--   Examples                   the definitions run on concrete inputs
-- Functions keep the names of the methods that they translate, without a leading underscore; a method
-- named `get` or `_key` is named for what it gets.
--
-- The model. A method is a function from the world to a result and the world after it; an exception is a
-- result beside the world, so that what was written before it stays written. Identifiers and clock
-- readings are values of arbitrary sequences, given by an `Env`; nothing is assumed of them, and where
-- fresh identifiers matter this is a hypothesis. Scores are whole milliseconds. JSON numbers are naturals.
-- Every loop is a recursion over a list, so no bound or fuel is chosen. A coroutine is cut where it waits:
-- a task is in a phase, a signal says what ends its wait, and a step runs it to its next wait. The chunks
-- of the engine, what it writes to the stores, its count of tokens and its exceptions are signals, or come
-- in a script. What a lock guards has no wait inside and is one function.
--
-- Not modelled: the Redis client, the OpenHands engine but for its writes (what the gate stores when the
-- engine itself asks it is not joined to a stream), HTTP routes, configuration loading, git, and the
-- web pages, which are input and output or calls of libraries; that file names are one-to-one with
-- storage keys; `run_chat_stream`, which joins a chat's history, its task and its subscription; the pydantic
-- records of projects.
-- The tasks of different chats share the stores, and calls of other clients come between the
-- steps as further functions on the manager.
pub mod Prelude
pub mod Json
pub mod Exec
pub mod Env
pub mod Storage
pub mod World
pub mod Auth
pub mod Usage
pub mod Orchestrator
pub mod Ingress
pub mod Chat
pub mod ChatRuns
pub mod Projects
pub mod Examples
pub mod Investigation
pub mod Input
pub mod Output
pub mod Observability

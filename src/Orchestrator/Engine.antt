-- ===== src/Orchestrator/Engine.antt =====
-- deepticket/layers/engine/openhands_engine.py: what the engine writes to the stores while its stream goes
-- on. Which events come, and which calls its gate holds, is given from outside.
use deepticket.Prelude.{String, ◌&&◌, Option, some, List, [], ◌∷◌}
use deepticket.Json.{Fields}
use deepticket.Env.{Env}
use deepticket.Exec.{Result, ok, pure, when, ◌>>◌}
use deepticket.World.{Action}
use deepticket.Investigation.RunDocs.{RunEventType, is_given, text}
use deepticket.Investigation.Events.{RunEventStore, append}
use deepticket.Investigation.RunLifecycle.{AgentInput}
use deepticket.Investigation.Governance.Pause.{handling, mark_run_waiting_approval}

-- An event of the agent that is one of the run's events, with its data and its identifier, and a call that
-- the gate holds for the operator, with the user, the conversation and the message.
pub data EngineWrite : Type 0 where
  mapped_event : RunEventType → Fields → Option String → EngineWrite
  held_call : String → Option String → String → EngineWrite

abbrev pub in_engine : {A : Type 0} → Result A → Result (Unit {0})
in_engine r = ok tt

module _ ⦃env : Env⦄ (events : RunEventStore) where
  -- An exception stays in the engine: what of it reaches the stream's reader is the stream's end.
  unfoldable pub engine_write : String → String → EngineWrite → Action (Unit {0})
  engine_write project_id run_id (mapped_event event_type payload oh_event_id) =
      handling in_engine (append events project_id run_id event_type payload oh_event_id)
  engine_write project_id run_id (held_call uid chat_id message) =
      handling in_engine
        (mark_run_waiting_approval project_id run_id uid chat_id message (some events))

  -- `if run_id and project_id and self.run_events is not None:`
  abbrev pub guarded_write : AgentInput → EngineWrite → Action (Unit {0})
  guarded_write agent_input write =
      when (is_given agent_input.run_id && is_given agent_input.project_id)
        (engine_write (text agent_input.project_id) (text agent_input.run_id) write)

  unfoldable pub engine_writes : AgentInput → List EngineWrite → Action (Unit {0})
  engine_writes agent_input [] = pure tt
  engine_writes agent_input (write ∷ writes) = do
    guarded_write agent_input write
    engine_writes agent_input writes

-- ===== src/ChatRuns/Holds/Engine.antt =====
-- What the engine writes leaves a begun run begun.
use deepticket.Prelude.{String, ◌≡◌, refl, Option, none, some, List, [], ◌∷◌}
use deepticket.Env.{Env}
use deepticket.Exec.{Result}
use deepticket.World.{Action}
use deepticket.Chat.Frames.{Keeps-set_agent_run_status}
use deepticket.Investigation.Status.{RunStatus, waiting_approval}
use deepticket.Investigation.Models.{InvestigationRun}
use deepticket.Investigation.Events.{RunEventStore}
use deepticket.Investigation.RunLifecycle.{AgentInput}
use deepticket.Investigation.Store.Transition.{get_run-Stored}
use deepticket.Investigation.Governance.Pause.{
  handling, pause_run, show_waiting, mark_found, mark_run_waiting_approval,
}
use deepticket.Orchestrator.Engine.{
  in_engine, EngineWrite, mapped_event, held_call, engine_write, guarded_write, engine_writes,
}
use deepticket.ChatRuns.Holds.{
  Begun, Leads, Leads-Keeps, Leads-when, Leads-bind, Leads-append, transition-Leads,
}

module _ ⦃env : Env⦄ (p r : String) where
  Leads-handling :
      {P Q : RunStatus → Type 0} {A B : Type 0} (f : Result A → Result B) (m : Action A)
      → Leads p r P Q m
      → Leads p r P Q (handling f m)
  Leads-handling f m h = record { at = h.at }

  ruleset leads_rules = (Leads-handling, Leads-when, Leads-bind)

  Leads-wait :
      (m : Option String) (events : Option RunEventStore)
      → Leads p r Begun Begun
          (deepticket.Investigation.Store.transition p r waiting_approval m none events)
  Leads-wait m events =
      transition-Leads p r waiting_approval m none events (λ s b v. refl) (λ s e b v. b)

  Leads-show_waiting :
      (uid : String) (chat_id : Option String) (message : String)
      → Leads p r Begun Begun (show_waiting p uid chat_id message)
  unfolding show_waiting
  Leads-show_waiting uid chat_id message =
      search (leads_rules, Leads-Keeps, Keeps-set_agent_run_status) depth 6

  Leads-mark_found :
      (uid : String) (chat_id : Option String) (message : String) (events : Option RunEventStore)
      (found : Option InvestigationRun)
      → Leads p r Begun Begun (mark_found p r uid chat_id message events found)
  unfolding mark_found pause_run
  Leads-mark_found uid chat_id message events none = record { at = λ w h. h }
  Leads-mark_found uid chat_id message events (some run) =
      search (leads_rules, Leads-wait, Leads-show_waiting) depth 6

  Leads-mark_run_waiting_approval :
      (uid : String) (chat_id : Option String) (message : String) (events : Option RunEventStore)
      → Leads p r Begun Begun (mark_run_waiting_approval p r uid chat_id message events)
  unfolding mark_run_waiting_approval
  Leads-mark_run_waiting_approval uid chat_id message events = record {
    at = λ w h.
        rw (get_run-Stored p r w h.run h.stored)
          ((Leads-mark_found uid chat_id message events (some h.run)).at w h);
  }

  Leads-engine_write :
      (events : RunEventStore) (write : EngineWrite)
      → Leads p r Begun Begun (engine_write events p r write)
  unfolding engine_write
  Leads-engine_write events (mapped_event t payload oh) =
      Leads-handling in_engine _ (Leads-append p r events t payload oh)
  Leads-engine_write events (held_call uid chat_id message) =
      Leads-handling in_engine _ (Leads-mark_run_waiting_approval uid chat_id message (some events))

  -- The engine works on the run.
  abbrev pub Named : AgentInput → Type 0
  Named agent_input = (agent_input.run_id ≡ some r) × (agent_input.project_id ≡ some p)

  pub Leads-guarded_write :
      (events : RunEventStore) (agent_input : AgentInput) (write : EngineWrite)
      → Named agent_input
      → Leads p r Begun Begun (guarded_write events agent_input write)
  Leads-guarded_write events agent_input write (e, q) =
      let written = Leads-engine_write events write in rw (e, q) (search (leads_rules, written))

  pub Leads-engine_writes :
      (events : RunEventStore) (agent_input : AgentInput) (writes : List EngineWrite)
      → Named agent_input
      → Leads p r Begun Begun (engine_writes events agent_input writes)
  unfolding engine_writes
  Leads-engine_writes events agent_input [] named = record { at = λ w h. h }
  Leads-engine_writes events agent_input (write ∷ writes) named =
      Leads-bind p r _ _ (Leads-guarded_write events agent_input write named)
        (λ u. Leads-engine_writes events agent_input writes named)

-- ===== src/Investigation/Evolution/History.antt =====
-- Any sequence of calls of the stores of runs and events, each of which may raise.
use deepticket.Prelude.{String, ◌≡◌, true, Option, none, List, [], ◌∷◌}
use deepticket.Json.{Fields}
use deepticket.Env.{Env}
use deepticket.Storage.Local.{get_json, empty}
use deepticket.Storage.Laws.{get_json-empty}
use deepticket.World.{World}
use deepticket.Investigation.Status.{RunStatus, RunSource, is_terminal_status}
use deepticket.Investigation.Models.{InvestigationRun}
use deepticket.Investigation.RunDocs.{ns_run, run_key, RunEventType, bump_event_stats}
use deepticket.Investigation.Events.{RunEventStore, append}
use deepticket.Investigation.Store.{
  create_run, transition, record_run_created_event, set_oh_conversation_id, fail_orphaned_runs,
}
use deepticket.Investigation.Evolution.{Evolves, here}
use deepticket.Investigation.Evolution.Rules.{Evolves-trans}
use deepticket.Investigation.Evolution.Operations.{
  Refines-bump_event_stats, Refines-append, Refines-transition, Refines-set_oh_conversation_id,
}
use deepticket.Investigation.Evolution.Recovery.{
  Refines-fail_orphaned_runs, Refines-record_run_created_event, create_run-Evolves,
}
use deepticket.Investigation.Evolution.Changes.{Changes, Evolves-Changes}
use deepticket.Investigation.Evolution.Laws.{
  Route-terminal, Stored, IsKeyed, Later, Evolves-IsKeyed, Evolves-Later,
}

-- A call of a method that writes.
pub data Call : Type 0 where
  create : String → String → RunSource → Option String → Option String → Option String → Call
  move : String → String → RunStatus → Option String → Option String → Option RunEventStore → Call
  bump : String → String → RunEventType → Call
  record_created : String → String → RunEventStore → Call
  set_conversation : String → String → String → Call
  append_event : RunEventStore → String → String → RunEventType → Fields → Option String → Call
  recover_runs : String → Call

module _ ⦃env : Env⦄ where
  -- The state after the call, whether it returns or raises.
  unfoldable pub perform : Call → World → World
  perform (create p uid source chat job ticket) w = (create_run p uid source chat job ticket w).1
  perform (move p r to m c events) w = (transition p r to m c events w).1
  perform (bump p r t) w = (bump_event_stats p r t w).1
  perform (record_created p r events) w = (record_run_created_event p r events w).1
  perform (set_conversation p r c) w = (set_oh_conversation_id p r c w).1
  perform (append_event events p r t payload oh) w = (append events p r t payload oh w).1
  perform (recover_runs reason) w = (fail_orphaned_runs reason w).1

  unfoldable pub perform_all : List Call → World → World
  unfolding perform
  perform_all [] w = w
  perform_all (c ∷ cs) w = perform_all cs (perform c w)

  -- The identifier that a creation draws is not in use.
  abbrev pub IsFresh : Call → World → Type 0
  IsFresh (create p uid source chat job ticket) w =
      get_json w.storage ns_run (run_key p (env.uuid4_hex w.uuids)) ≡ none
  IsFresh c w = Unit

  abbrev pub AllFresh : List Call → World → Type 0
  AllFresh [] w = Unit
  AllFresh (c ∷ cs) w = IsFresh c w × AllFresh cs (perform c w)

  perform-Evolves : (c : Call) (w : World) → IsFresh c w → Evolves w.storage (perform c w).storage
  unfolding perform
  perform-Evolves (create p uid source chat job ticket) w h =
      create_run-Evolves p uid source chat job ticket w h
  perform-Evolves (move p r to m c events) w h = (Refines-transition p r to m c events).at w
  perform-Evolves (bump p r t) w h = (Refines-bump_event_stats p r t).at w
  perform-Evolves (record_created p r events) w h =
      (Refines-record_run_created_event p r events).at w
  perform-Evolves (set_conversation p r c) w h = (Refines-set_oh_conversation_id p r c).at w
  perform-Evolves (append_event events p r t payload oh) w h =
      (Refines-append events p r t payload oh).at w
  perform-Evolves (recover_runs reason) w h = (Refines-fail_orphaned_runs reason).at w

  perform_all-Evolves :
      (cs : List Call) (w : World) → AllFresh cs w → Evolves w.storage (perform_all cs w).storage
  unfolding perform_all
  perform_all-Evolves [] w h = here
  perform_all-Evolves (c ∷ cs) w h =
      Evolves-trans (perform-Evolves c w h.0) (perform_all-Evolves cs (perform c w) h.1)

  -- From a storage whose run documents stand at their own keys, every sequence of calls that draws unused
  -- identifiers, each call returning or raising, changes the stored runs in steps of three kinds only: a
  -- run comes in as created under its key, which was not in use; the run at a key is replaced there by a
  -- later version of itself, with the same identifiers and user, no fewer events, and its old status or
  -- one that the table allows next; or nothing changes. The other keys stay as they are.
  pub perform_all-Changes :
      (cs : List Call) (w : World)
      → IsKeyed w.storage
      → AllFresh cs w
      → Changes w.storage (perform_all cs w).storage
  perform_all-Changes cs w v h = Evolves-Changes (perform_all-Evolves cs w h) v

  -- After any sequence of calls that draws unused identifiers, from a storage whose run documents stand
  -- at their own keys, a stored run is still stored under its key, with the same user, no fewer events,
  -- and a status that the transition table leads to from its old one.
  pub perform_all-Later :
      (cs : List Call) (w : World) (k : String) (run : InvestigationRun)
      → IsKeyed w.storage
      → AllFresh cs w
      → Stored k run w.storage
      → Later k run (perform_all cs w).storage
  perform_all-Later cs w k run v h st = Evolves-Later k run (perform_all-Evolves cs w h) v st

  -- A run at a terminal status keeps that status through any sequence of calls that draws unused
  -- identifiers, from a storage whose run documents stand at their own keys.
  pub perform_all_terminal :
      (cs : List Call) (w : World) (k : String) (run : InvestigationRun)
      → IsKeyed w.storage
      → AllFresh cs w
      → Stored k run w.storage
      → is_terminal_status run.status ≡ true
      → (run' : InvestigationRun) × Stored k run' (perform_all cs w).storage
        × (run'.status ≡ run.status)
  perform_all_terminal cs w k run v h st t =
      let l = perform_all-Later cs w k run v h st in (l.run', l.stored, Route-terminal l.route t)

  -- Any sequence of calls that draws unused identifiers keeps each run document at its run's key.
  pub perform_all-IsKeyed :
      (cs : List Call) (w : World)
      → IsKeyed w.storage
      → AllFresh cs w
      → IsKeyed (perform_all cs w).storage
  perform_all-IsKeyed cs w v h = Evolves-IsKeyed (perform_all-Evolves cs w h) v

  pub empty-IsKeyed : IsKeyed empty
  empty-IsKeyed = record { keyed = λ k run st. cc (get_json-empty ns_run k, st.at) }

-- ===== src/ChatRuns/Settling/Tasks.antt =====
-- A task of a chat run from its first wait to its end.
use deepticket.Prelude.{String, ◌≡◌, refl, ap, some, Bool, true, false, List, [], ◌∷◌, ◌++◌}
use deepticket.Prelude.Text.{nonempty}
use deepticket.Env.{Env}
use deepticket.Exec.{Error, Result, ok, err}
use deepticket.ChatRuns.State.{Job, broadcast_item}
use deepticket.ChatRuns.Execution.{
  Next, more, leave, usage, return, Phase, scheduled, streaming, fetching, ended, Signal, start,
  next_chunk, written, exhausted, Locals, fetched, raised, Service, handle, close, proceed,
  store_records, input_for, write_for, engine_wrote, step, steps,
}
use deepticket.Orchestrator.Records.Frames.{Keeps-store_stream}
use deepticket.Orchestrator.Engine.{EngineWrite}
use deepticket.ChatRuns.Holds.Engine.{Leads-guarded_write}
use deepticket.ChatRuns.Holds.{Settled, Begun}
use deepticket.ChatRuns.Settling.{Held, Takes, Takes-run, Takes-on_world, Takes-kept, Takes-handle}
use deepticket.ChatRuns.Settling.Body.{
  Post, Ends-bind, usage-Ends, after_stream-Ends, on_chunk-Ends, behind_loop-Ends,
}

-- The task waits behind the start of the `try`.
abbrev pub is_waiting_phase : Phase → Bool
is_waiting_phase (streaming l) = true
is_waiting_phase (fetching l) = true
is_waiting_phase _ = false

abbrev pub is_ended : Phase → Bool
is_ended (ended r) = true
is_ended _ = false

module _ ⦃env : Env⦄ (p r : String) where
  -- The task is over: its run is stored and settled, and its object is marked as done.
  pub record Finished (phase : Phase) (j : Job) : Type 0 where
    pub ended : is_ended phase ≡ true
    pub settled : Held p r Settled j
    pub done : j.run.done ≡ true

  -- The task goes on with its run begun, or is finished.
  pub data Outcome (last : Bool) : Phase → Job → Type 0 where
    waits :
        {phase : Phase} {j : Job}
        → last ≡ false
        → is_waiting_phase phase ≡ true
        → Held p r Begun j
        → Outcome last phase j
    finished : {phase : Phase} {j : Job} → Finished phase j → Outcome last phase j

  module _ (service : Service) (filled : nonempty r ≡ true) where
    close-Finished :
        (x : Result (Unit {0}) × Job)
        → Held p r Settled x.1
        → Finished (ended x.0) (close service x.1)
    unfolding close broadcast_item
    close-Finished (a, j) h = record {
      ended = refl;
      settled = record { holds = h.holds; run_id = h.run_id; project_id = h.project_id };
      done = refl;
    }

    proceed-Outcome :
        (last : Bool) (x : Result Next × Job)
        → Post p r last x.0 x.1
        → Outcome last (proceed service x).0 (proceed service x).1
    proceed-Outcome last (ok (more l), j) h = waits h.0 refl h.1
    proceed-Outcome last (ok (leave l), j) h = waits h.0 refl h.1
    proceed-Outcome last (ok (usage l), j) h = waits h.0 refl h.1
    proceed-Outcome last (ok return, j) h = finished (close-Finished (ok tt, j) h)
    proceed-Outcome last (err e, j) h =
        finished (close-Finished (handle service e j) ((Takes-handle p r service filled e).at j h))

    Takes-engine_wrote :
        (l : Locals) (write : EngineWrite) → Takes p r Begun Begun (engine_wrote service l write)
    Takes-engine_wrote l write = Takes-run p r (write_for service l write) (λ run e q.
        Takes-on_world p r _ (
          Leads-guarded_write p r service.run_events (input_for service l run) write
            (e, ap some q)))

    waiting-Outcome :
        (phase : Phase) (signal : Signal) (j : Job)
        → is_waiting_phase phase ≡ true
        → Held p r Begun j
        → Outcome false (step service phase signal j).0 (step service phase signal j).1
    unfolding step
    waiting-Outcome (scheduled input) signal j w h = cc
    waiting-Outcome (ended x) signal j w h = cc
    waiting-Outcome (streaming l) (next_chunk c) j w h =
        proceed-Outcome false _
          ((behind_loop-Ends p r service filled _ (on_chunk-Ends p r service filled l c)).at j h)
    waiting-Outcome (streaming l) (written write) j w h =
        waits refl refl ((Takes-engine_wrote l write).at j h)
    waiting-Outcome (streaming l) exhausted j w h = proceed-Outcome false _ (
        (Ends-bind p r false (store_records service l) _
            (Takes-kept p r _ (Keeps-store_stream l.agent_input _ _))
            (λ u. after_stream-Ends p r service filled l)).at
          j h)
    waiting-Outcome (streaming l) (raised e) j w h = proceed-Outcome false (err e, j) h
    waiting-Outcome (streaming l) start j w h = waits refl refl h
    waiting-Outcome (streaming l) (fetched counted) j w h = waits refl refl h
    waiting-Outcome (fetching l) (fetched counted) j w h =
        proceed-Outcome false _ ((usage-Ends p r false service filled l (ok counted)).at j h)
    waiting-Outcome (fetching l) (raised e) j w h =
        proceed-Outcome false _ ((usage-Ends p r false service filled l (err e)).at j h)
    waiting-Outcome (fetching l) start j w h = waits refl refl h
    waiting-Outcome (fetching l) (next_chunk c) j w h = waits refl refl h
    waiting-Outcome (fetching l) (written write) j w h = waits refl refl h
    waiting-Outcome (fetching l) exhausted j w h = waits refl refl h

    -- What is finished stays so.
    ended-Finished :
        (phase : Phase) (signal : Signal) (j : Job)
        → Finished phase j
        → Finished (step service phase signal j).0 (step service phase signal j).1
    unfolding step
    ended-Finished (ended x) signal j h = h
    ended-Finished (scheduled input) signal j h = cc h.ended
    ended-Finished (streaming l) signal j h = cc h.ended
    ended-Finished (fetching l) signal j h = cc h.ended

    step-Outcome :
        (phase : Phase) (signal : Signal) (j : Job)
        → Outcome false phase j
        → Outcome false (step service phase signal j).0 (step service phase signal j).1
    step-Outcome phase signal j (waits l w h) = waiting-Outcome phase signal j w h
    step-Outcome phase signal j (finished h) = finished (ended-Finished phase signal j h)

    only-Finished : (phase : Phase) (j : Job) → Outcome true phase j → Finished phase j
    only-Finished phase j (waits l w h) = cc l
    only-Finished phase j (finished h) = h

    waiting-Finished :
        (phase : Phase) (e : Error) (j : Job)
        → is_waiting_phase phase ≡ true
        → Held p r Begun j
        → Finished (step service phase (raised e) j).0 (step service phase (raised e) j).1
    unfolding step
    waiting-Finished (scheduled input) e j w h = cc
    waiting-Finished (ended x) e j w h = cc
    waiting-Finished (streaming l) e j w h = only-Finished _ _ (proceed-Outcome true (err e, j) h)
    waiting-Finished (fetching l) e j w h =
        only-Finished _ _
          (proceed-Outcome true _ ((usage-Ends p r true service filled l (err e)).at j h))

    outcome-Finished :
        (signals : List Signal) (phase : Phase) (e : Error) (j : Job)
        → Outcome false phase j
        → Finished
            (steps service phase (signals ++ (raised e ∷ [])) j).0
            (steps service phase (signals ++ (raised e ∷ [])) j).1
    unfolding steps
    outcome-Finished [] phase e j (waits l w h) = waiting-Finished phase e j w h
    outcome-Finished [] phase e j (finished h) = ended-Finished phase (raised e) j h
    outcome-Finished (signal ∷ signals) phase e j h =
        outcome-Finished signals _ e _ (step-Outcome phase signal j h)

    -- A task that has begun, whose run is stored as running, waiting for the operator or over, ends at the
    -- first exception at the latest, whatever signals came before: then the stored run is over or waits for
    -- the operator, and the task's object is marked as done.
    pub steps-Finished :
        (phase : Phase) (signals : List Signal) (e : Error) (j : Job)
        → is_waiting_phase phase ≡ true
        → Held p r Begun j
        → Finished
            (steps service phase (signals ++ (raised e ∷ [])) j).0
            (steps service phase (signals ++ (raised e ∷ [])) j).1
    steps-Finished phase signals e j w h = outcome-Finished signals phase e j (waits refl w h)

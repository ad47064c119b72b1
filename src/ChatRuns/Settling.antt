-- ===== src/ChatRuns/Settling.antt =====
-- However the engine's stream goes on and wherever an exception is raised, the task of a chat run ends only
-- with its stored run settled, and it ends at any exception.
pub mod Body
pub mod Tasks
use deepticket.Prelude.{
  String, ◌≡◌, refl, sym, ◌∙◌, subst, Bool, true, false, Option, none, some, inl, inr, List, [],
  ◌∷◌, ◌++◌, if◌then◌else◌, Bool-cases,
}
use deepticket.Prelude.Text.{nonempty, join}
use deepticket.Json.{Fields}
use deepticket.Env.{Env}
use deepticket.Exec.{
  Error, key_error, value_error, type_error, run_transition_error, runtime_error,
  policy_approval_required, policy_denied, cancelled_error, attribute_error, http_error, Result, ok,
  err, Exec, pure, raise, gets, when, continue, ◌>>=◌, ◌>>◌,
}
use deepticket.World.{World, Action}
use deepticket.World.Keeps.{Keeps, keeps_rules}
use deepticket.Investigation.Status.{
  RunStatus, running, waiting_approval, completed, failed, blocked, cancelled, is_status,
  is_terminal_status, validate_transition,
}
use deepticket.Investigation.Models.{InvestigationRun, is_terminal}
use deepticket.Investigation.RunDocs.{ns_run, get_run, is_given, text}
use deepticket.Investigation.Store.Transition.{get_run-Stored}
use deepticket.Chat.Frames.{
  Keeps-set_agent_run_status, Keeps-set_agent_conversation_id, Keeps-append_message,
}
use deepticket.Output.Chunks.{StreamChunk}
use deepticket.Usage.Recording.Frames.{Keeps-record_chat_token_usage}
use deepticket.ChatRuns.State.{
  Job, ChatRun, Item, sentinel, broadcast_item, update_run, broadcast, on_world, attempt,
}
use deepticket.ChatRuns.Execution.{
  Locals, Next, more, leave, usage, return, Phase, scheduled, streaming, fetching, ended, Signal,
  start, next_chunk, exhausted, fetched, raised, Service, move, move_run, run_is_waiting,
  set_conversation, finish_run, set_status, show_waiting, is_waiting, take_conversation, on_chunk,
  store_reply, send_confidence, complete, finish_loaded, finish, after_stream, record_usage, handle,
  close, closed, proceed, behind_loop, step,
}
use deepticket.ChatRuns.Holds.{
  is_settled, Settled, Begun, Settled→Begun, Holds, Leads, Leads-Keeps, Leads-bind,
  transition-Settled, Leads-set_oh_conversation_id,
}

module _ ⦃env : Env⦄ (p r : String) where
  -- The task's object names the run, which is stored at a status as stated.
  pub record Held (P : RunStatus → Type 0) (j : Job) : Type 0 where
    pub holds : Holds p r P j.world.storage
    pub run_id : j.run.run_id ≡ some r
    pub project_id : j.run.project_id ≡ p

  pub record Takes (P Q : RunStatus → Type 0) {A : Type 0} (m : Exec Job A) : Type 0 where
    pub at : (j : Job) → Held P j → Held Q (m j).1

  module _ {P : RunStatus → Type 0} where
    pub Takes-pure : {A : Type 0} (a : A) → Takes P P {A = A} (pure a)
    Takes-pure a = record { at = λ j h. h }

    pub Takes-raise : {A : Type 0} (e : Error) → Takes P P {A = A} (raise e)
    Takes-raise e = record { at = λ j h. h }

    pub Takes-gets : {A : Type 0} (f : Job → A) → Takes P P (gets f)
    Takes-gets f = record { at = λ j h. h }

    pub Takes-when : (b : Bool) (m : Exec Job (Unit {0})) → Takes P P m → Takes P P (when b m)
    Takes-when true m h = h
    Takes-when false m h = record { at = λ j x. x }

    pub Takes-broadcast : (c : StreamChunk) → Takes P P (broadcast c)
    unfolding broadcast_item
    Takes-broadcast c = record {
      at = λ j h. record { holds = h.holds; run_id = h.run_id; project_id = h.project_id };
    }

  module _ {P Q : RunStatus → Type 0} {A : Type 0} where
    pub Takes-on_world : (m : Action A) → Leads p r P Q m → Takes P Q (on_world m)
    unfolding on_world
    Takes-on_world m k = record {
      at = λ j h. record {
        holds = k.at j.world h.holds;
        run_id = h.run_id;
        project_id = h.project_id;
      };
    }

    pub Takes-attempt : (m : Exec Job A) → Takes P Q m → Takes P Q (attempt m)
    unfolding attempt
    Takes-attempt m k = record { at = k.at }

  pub Takes-kept :
      {P : RunStatus → Type 0} {A : Type 0} (m : Action A) → Keeps ns_run m → Takes P P (on_world m)
  Takes-kept m k = Takes-on_world m (Leads-Keeps p r m k)

  module _ {A B : Type 0} where
    pub continue-Takes :
        {Q : RunStatus → Type 0} (x : Result A × Job) (f : A → Exec Job B)
        → Held Q x.1
        → ((a : A) → Takes Q Q (f a))
        → Held Q (continue x f).1
    continue-Takes (ok a, j) f h k = (k a).at j h
    continue-Takes (err e, j) f h k = h

    pub Takes-bind :
        {P Q : RunStatus → Type 0} (m : Exec Job A) (f : A → Exec Job B)
        → Takes P Q m
        → ((a : A) → Takes Q Q (f a))
        → Takes P Q (m >>= f)
    Takes-bind m f h k = record { at = λ j x. continue-Takes (m j) f (h.at j x) k }

  -- Code that reads its object first knows which run that names.
  pub Takes-run :
      {P Q : RunStatus → Type 0} {A : Type 0} (f : ChatRun → Exec Job A)
      → ((run : ChatRun) → run.run_id ≡ some r → run.project_id ≡ p → Takes P Q (f run))
      → Takes P Q (gets (λ j. j.run) >>= f)
  Takes-run f k = record { at = λ j h. (k j.run h.run_id h.project_id).at j h }

  pub ruleset takes_rules = (
    Takes-pure, Takes-raise, Takes-gets, Takes-when, Takes-broadcast, Takes-kept, Takes-bind,
    Keeps-set_agent_run_status, Keeps-set_agent_conversation_id, Keeps-append_message,
  )

  module _ (service : Service) where
    pub Takes-set_status :
        {P : RunStatus → Type 0} (status : String) (error : Option String)
        → Takes P P (set_status service status error)
    unfolding set_status
    Takes-set_status status error = search takes_rules depth 6

    module _ (filled : nonempty r ≡ true) where
      pub Takes-move :
          (to : RunStatus) (message : Option String)
          → validate_transition running to ≡ ok tt
          → Takes Begun Settled (move service to message)
      unfolding move
      Takes-move to message t = Takes-run (move_run service to message) (λ run e q.
          rw (e, q, filled)
            (Takes-bind _ _
              (Takes-on_world _
                (transition-Settled p r to message none (some service.run_events) t))
              (λ _. Takes-pure tt)))

      pub Takes-handle : (e : Error) → Takes Begun Settled (handle service e)
      unfolding handle validate_transition
      Takes-handle (cancelled_error m) =
          Takes-bind _ _ (Takes-attempt _ (Takes-move cancelled none refl))
            (λ _. search (takes_rules, Takes-set_status) depth 6)
      Takes-handle (policy_approval_required m) =
          Takes-bind _ _ (Takes-attempt _ (Takes-move waiting_approval (some m) refl))
            (λ _. search (takes_rules, Takes-set_status) depth 6)
      Takes-handle (policy_denied m) =
          Takes-bind _ _ (Takes-attempt _ (Takes-move blocked (some m) refl))
            (λ _. search (takes_rules, Takes-set_status) depth 6)
      Takes-handle e =
          Takes-bind _ _ (Takes-attempt _ (Takes-move failed _ refl))
            (λ _. search (takes_rules, Takes-set_status) depth 6)

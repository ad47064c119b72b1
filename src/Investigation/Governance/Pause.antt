-- ===== src/Investigation/Governance/Pause.antt =====
-- deepticket/investigation/governance/approval_pause.py: a run waits for the operator, and its
-- conversation shows it.
use deepticket.Prelude.{String, not, ◌&&◌, Option, none, some}
use deepticket.Prelude.Text.{nonempty, clip}
use deepticket.Env.{Env}
use deepticket.Exec.{run_transition_error, key_error, Result, ok, err, pure, when, ◌>>=◌, ◌>>◌}
use deepticket.World.{Action}
use deepticket.Chat.Threads.{set_agent_run_status}
use deepticket.Investigation.Status.{waiting_approval, is_status}
use deepticket.Investigation.Models.{InvestigationRun}
use deepticket.Investigation.RunDocs.{get_run, is_given, text}
use deepticket.Investigation.Events.{RunEventStore}
use deepticket.Investigation.Store.{transition}

-- `except RunTransitionError: logger.warning(...)`
abbrev pub skip_transition : {A : Type 0} → Result A → Result (Unit {0})
skip_transition (ok a) = ok tt
skip_transition (err (run_transition_error m)) = ok tt
skip_transition (err e) = err e

-- `except KeyError: logger.debug(...)`
abbrev pub skip_key : {A : Type 0} → Result A → Result (Unit {0})
skip_key (ok a) = ok tt
skip_key (err (key_error m)) = ok tt
skip_key (err e) = err e

-- What is done to the world stays done, however the result is handled.
abbrev pub handling : {A B : Type 0} → (Result A → Result B) → Action A → Action B
handling f m w = let (r, w') = m w in (f r, w')

module _ ⦃env : Env⦄ where
  unfoldable pub pause_run :
      String → String → String → Option RunEventStore → InvestigationRun → Action (Unit {0})
  pause_run project_id run_id message event_store run =
      when (not (is_status run.status waiting_approval)) (
        handling skip_transition (
          transition project_id run_id waiting_approval (some (clip 500 message)) none event_store))

  unfoldable pub show_waiting : String → String → Option String → String → Action (Unit {0})
  show_waiting project_id uid chat_id message = when (is_given chat_id && nonempty uid) (
      handling skip_key (
        set_agent_run_status project_id uid (text chat_id) "waiting_approval"
          (some (clip 500 message))))

  -- `if run is None: return`, and what follows
  unfoldable pub mark_found :
      String
      → String
      → String
      → Option String
      → String
      → Option RunEventStore
      → Option InvestigationRun
      → Action (Unit {0})
  mark_found project_id run_id uid chat_id message event_store none = pure tt
  mark_found project_id run_id uid chat_id message event_store (some run) = do
    pause_run project_id run_id message event_store run
    show_waiting project_id uid chat_id message

  unfoldable pub mark_run_waiting_approval :
      String → String → String → Option String → String → Option RunEventStore → Action (Unit {0})
  mark_run_waiting_approval project_id run_id uid chat_id message event_store = do
    run ← get_run project_id run_id
    mark_found project_id run_id uid chat_id message event_store run

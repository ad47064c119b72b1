-- ===== src/Investigation/Store/Transition.antt =====
-- `transition` on each of its outcomes.
use deepticket.Prelude.{
  ◌||◌, inl, inr, Bool-cases, if◌then◌else◌, ◌==◌, suc, String, ◌≡◌, refl, ◌∙◌, Option, none, some,
  eq_refl, subst,
}
use deepticket.Prelude.Text.{◌<>◌, clip}
use deepticket.Env.{Env}
use deepticket.Exec.{ok, err, Error, key_error}
use deepticket.Storage.Local.{get_json}
use deepticket.World.{World}
use deepticket.Investigation.Status.{
  RunStatus, created, queued, running, waiting_approval, completed, failed, blocked, cancelled,
  is_status, is_terminal_status, validate_transition,
}
use deepticket.Investigation.Models.{InvestigationRun, to_dict}
use deepticket.Investigation.Models.RoundTrip.{without_blanks, from_dict-to_dict}
use deepticket.Investigation.RunDocs.{ns_run, run_key, get_run, save, is_given, text}
use deepticket.Investigation.RunDocs.Frames.{get_json-save, save_returns}
use deepticket.Investigation.Events.{RunEventStore}
use deepticket.Investigation.Store.{transition, moved, report}
use deepticket.Investigation.Evolution.{key_of}
use deepticket.Investigation.Evolution.Laws.{Stored, IsKeyed}

-- The times and the message of a run that reaches a status. A run is started once, when it first runs.
abbrev pub started_by : RunStatus → String → Option String → Option String
started_by to now (some t) = some t
started_by running now none = some now
started_by _ now none = none

abbrev pub finished_by : RunStatus → String → Option String → Option String
finished_by completed now old = some now
finished_by failed now old = some now
finished_by blocked now old = some now
finished_by cancelled now old = some now
finished_by _ now old = old

-- Without a message, what went wrong before is kept by a run that ends badly.
abbrev pub explained_by : RunStatus → Option String → Option String
explained_by failed old = old
explained_by blocked old = old
explained_by cancelled old = old
explained_by _ old = none

abbrev pub unless_blank : Option String → (String → Option String) → Option String → Option String
unless_blank none f other = other
unless_blank (some s) f other = if s == "" then other else f s

-- The run at a new status, field by field
abbrev pub at_status :
    InvestigationRun → RunStatus → String → Option String → Option String → InvestigationRun
at_status run to now message conversation = record {
  run_id = run.run_id;
  project_id = run.project_id;
  uid = run.uid;
  source = run.source;
  status = to;
  created_at = run.created_at;
  updated_at = now;
  chat_id = run.chat_id;
  ingress_job_id = run.ingress_job_id;
  ticket_id = run.ticket_id;
  oh_conversation_id = unless_blank conversation some run.oh_conversation_id;
  started_at = started_by to now run.started_at;
  finished_at = finished_by to now run.finished_at;
  error_message = unless_blank message (λ m. some (clip 500 m)) (explained_by to run.error_message);
  tool_call_count = run.tool_call_count;
  event_count = run.event_count;
}

started_lem :
    (to : RunStatus) (now : String) (old : Option String)
    → (elim old [ none ↦ if is_status to running then some now else none | some t ↦ some t ])
      ≡ started_by to now old
started_lem to now (some t) = refl
started_lem created now none = refl
started_lem queued now none = refl
started_lem running now none = refl
started_lem waiting_approval now none = refl
started_lem completed now none = refl
started_lem failed now none = refl
started_lem blocked now none = refl
started_lem cancelled now none = refl

finished_lem :
    (to : RunStatus) (now : String) (old : Option String)
    → (if is_terminal_status to then some now else old) ≡ finished_by to now old
finished_lem created now old = refl
finished_lem queued now old = refl
finished_lem running now old = refl
finished_lem waiting_approval now old = refl
finished_lem completed now old = refl
finished_lem failed now old = refl
finished_lem blocked now old = refl
finished_lem cancelled now old = refl

explained_lem :
    (to : RunStatus) (old : Option String)
    → (if is_status to failed || is_status to blocked || is_status to cancelled then old else none)
      ≡ explained_by to old
explained_lem created old = refl
explained_lem queued old = refl
explained_lem running old = refl
explained_lem waiting_approval old = refl
explained_lem completed old = refl
explained_lem failed old = refl
explained_lem blocked old = refl
explained_lem cancelled old = refl

unless_blank_lem :
    (f : String → Option String) (o other : Option String)
    → (if is_given o then f (text o) else other) ≡ unless_blank o f other
unless_blank_lem f none other = refl
unless_blank_lem f (some s) other = elim (Bool-cases (s == "")) [
  | inl e ↦ rw e refl
  | inr e ↦ rw e refl
]

given_lem :
    (o other : Option String) → (if is_given o then o else other) ≡ unless_blank o some other
given_lem none other = refl
given_lem (some s) other = unless_blank_lem some (some s) other

module _ ⦃env : Env⦄ where
  pub get_run-Stored :
      (p r : String) (w : World) (run : InvestigationRun)
      → Stored (run_key p r) run w.storage
      → get_run p r w ≡ (ok (some run), w)
  unfolding get_run
  get_run-Stored p r w run st = rw st.at (rw st.reads)

  pub moved_lem :
      (run : InvestigationRun) (to : RunStatus) (now : String) (m c : Option String)
      → moved run to now m c ≡ at_status run to now m c
  unfolding moved
  moved_lem run to now m c =
      rw
        (
          started_lem to now run.started_at,
          finished_lem to now run.finished_at,
          explained_lem to run.error_message,
          unless_blank_lem (λ s. some (clip 500 s)) m (explained_by to run.error_message),
          given_lem c run.oh_conversation_id,
        )
        refl

  moved-key_of :
      (run : InvestigationRun) (to : RunStatus) (now : String) (m c : Option String)
      → key_of (moved run to now m c) ≡ key_of run
  unfolding moved
  moved-key_of run to now m c = refl

  pub save-Stored :
      (run : InvestigationRun) (k : String) (w : World)
      → key_of run ≡ k
      → Stored k (without_blanks run) (save run w).1.storage
  save-Stored run k w e = record {
    doc = to_dict run;
    at =
        subst (λ j. get_json (save run w).1.storage ns_run j ≡ some (to_dict run)) e
          (rw (get_json-save run w ns_run (key_of run) refl refl) (rw eq_refl));
    reads = from_dict-to_dict run;
  }

  -- A transition that the table refuses raises that refusal and changes nothing, whatever the message,
  -- the conversation and the event store are.
  pub transition_refused :
      (p r : String) (to : RunStatus) (m c : Option String) (events : Option RunEventStore)
      (w : World) (run : InvestigationRun) (e : Error)
      → Stored (run_key p r) run w.storage
      → validate_transition run.status to ≡ err e
      → transition p r to m c events w ≡ (err e, w)
  unfolding transition
  transition_refused p r to m c events w run e st h = rw (get_run-Stored p r w run st) (rw h)

  -- A transition of a run that is not stored raises KeyError and changes nothing.
  pub transition_missing :
      (p r : String) (to : RunStatus) (m c : Option String) (events : Option RunEventStore)
      (w : World)
      → get_json w.storage ns_run (run_key p r) ≡ none
      → transition p r to m c events w ≡ (err (key_error ("investigation run not found: " <> r)), w)
  unfolding transition get_run
  transition_missing p r to m c events w h = rw h

  moved_allowed :
      (p r : String) (to : RunStatus) (m c : Option String) (w : World) (run : InvestigationRun)
      → IsKeyed w.storage
      → Stored (run_key p r) run w.storage
      → validate_transition run.status to ≡ ok tt
      → let run' = moved run to (env.utc_now_iso w.ticks) m c in
        ((transition p r to m c none w).0 ≡ ok run')
        × Stored (run_key p r) (without_blanks run') (transition p r to m c none w).1.storage
  unfolding transition report
  moved_allowed p r to m c w run v st h =
      let run' = moved run to (env.utc_now_iso w.ticks) m c in
      let w' = record w { ticks = suc w.ticks } in
      rw (get_run-Stored p r w run st) (
        rw h (
          rw (save_returns run' w') (
            refl,
            save-Stored run' (run_key p r) w' (moved-key_of run to _ m c ∙ v.keyed _ run st),
          )))

  -- An allowed transition without an event store returns the run with the new status, updated at the time
  -- read, and stores it so under the same key. It is finished at that time where the status is completed,
  -- failed, blocked or cancelled, and started then where it comes to run and was not started before. A
  -- message that is not empty is kept to 500 characters; without one the old message stays for a run that
  -- failed, is blocked or cancelled, and goes otherwise. A conversation that is not empty is taken over.
  -- All else stays.
  pub transition_allowed :
      (p r : String) (to : RunStatus) (m c : Option String) (w : World) (run : InvestigationRun)
      → IsKeyed w.storage
      → Stored (run_key p r) run w.storage
      → validate_transition run.status to ≡ ok tt
      → let run' = at_status run to (env.utc_now_iso w.ticks) m c in
        ((transition p r to m c none w).0 ≡ ok run')
        × Stored (run_key p r) (without_blanks run') (transition p r to m c none w).1.storage
  transition_allowed p r to m c w run v st h =
      subst
        (λ (run' : InvestigationRun).
          ((transition p r to m c none w).0 ≡ ok run')
          × Stored (run_key p r) (without_blanks run') (transition p r to m c none w).1.storage)
        (moved_lem run to (env.utc_now_iso w.ticks) m c) (moved_allowed p r to m c w run v st h)

-- ===== src/Investigation/Store.antt =====
-- deepticket/investigation/store.py: `InvestigationRunStore`, but for the reading and writing of one run
-- (RunDocs).
pub mod Transition
pub mod Orphans
use deepticket.Prelude.{
  ℕ, ◌+◌, ◌-◌, String, not, Option, none, some, List, [], ◌∷◌, ◌==◌, ◌||◌, if◌then◌else◌,
}
use deepticket.Prelude.Int.{pos}
use deepticket.Prelude.Text.{◌<>◌, clip}
use deepticket.Json.{Fields, end, field, str, dict_of, str_or_null}
use deepticket.Env.{Env}
use deepticket.Exec.{
  Error, Result, ok, err, key_error, run_transition_error, lift, gets, pure, require, when, ◌>>=◌,
  ◌>>◌,
}
use deepticket.Storage.Local.{get_json, list_keys, zrevrange}
use deepticket.World.{World, Action, uuid4, utc_now_iso}
use deepticket.Investigation.Status.{
  RunStatus, created, running, failed, blocked, cancelled, RunSource, value, source_value,
  is_status, is_terminal_status, validate_transition,
}
use deepticket.Investigation.Models.{InvestigationRun, from_dict, is_terminal}
use deepticket.Investigation.RunDocs.{
  ns_run, ns_runs_by_chat, chat_index_key, is_given, text, get_run, save, run_status_changed,
  run_completed, run_created,
}
use deepticket.Investigation.Events.{RunEventStore, append}

module _ ⦃env : Env⦄ where
  unfoldable pub create_run :
      String
      → String
      → RunSource
      → Option String
      → Option String
      → Option String
      → Action InvestigationRun
  create_run project_id uid source chat_id ingress_job_id ticket_id = do
    now ← utc_now_iso
    run_id ← uuid4
    let run : InvestigationRun = record {
      run_id = run_id;
      project_id = project_id;
      uid = uid;
      source = source;
      status = created;
      created_at = now;
      updated_at = now;
      chat_id = chat_id;
      ingress_job_id = ingress_job_id;
      ticket_id = ticket_id;
      oh_conversation_id = none;
      started_at = none;
      finished_at = none;
      error_message = none;
      tool_call_count = 0;
      event_count = 0;
    }
    save run
    pure run

  -- The assignments of `transition` to the run, in the source's order.
  unfoldable pub moved :
      InvestigationRun → RunStatus → String → Option String → Option String → InvestigationRun
  moved run to now error_message oh_conversation_id = record run {
    status = to;
    updated_at = now;
    started_at = elim run.started_at [
      | none ↦ if is_status to running then some now else none
      | some t ↦ some t
    ];
    finished_at = if is_terminal_status to then some now else run.finished_at;
    error_message =
        if is_given error_message
        then some (clip 500 (text error_message))
        else if is_status to failed || is_status to blocked || is_status to cancelled
        then run.error_message
        else none;
    oh_conversation_id =
        if is_given oh_conversation_id then oh_conversation_id else run.oh_conversation_id;
  }

  -- `if event_store is not None:` of `transition`
  unfoldable pub report :
      Option RunEventStore → String → String → RunStatus → RunStatus → Action (Unit {0})
  report none project_id run_id from to = pure tt
  report (some events) project_id run_id from to = do
    append events project_id run_id run_status_changed
        (dict_of (("from", str (value from)) ∷ ("to", str (value to)) ∷ [])) none
    when (is_terminal_status to) (do
      append events project_id run_id run_completed (dict_of (("status", str (value to)) ∷ [])) none
      pure tt)

  unfoldable pub transition :
      String
      → String
      → RunStatus
      → Option String
      → Option String
      → Option RunEventStore
      → Action InvestigationRun
  transition project_id run_id to error_message oh_conversation_id event_store = do
    found ← get_run project_id run_id
    run ← require found (key_error ("investigation run not found: " <> run_id))
    lift (validate_transition run.status to)
    now ← utc_now_iso
    let run' = moved run to now error_message oh_conversation_id
    save run'
    report event_store project_id run_id run.status to
    pure run'

  unfoldable pub record_run_created_event : String → String → RunEventStore → Action (Unit {0})
  record_run_created_event project_id run_id events = do
    found ← get_run project_id run_id
    elim found [
      | none ↦ pure tt
      | some run ↦ (do
        append events project_id run_id run_created
            (dict_of (
              ("source", str (source_value run.source))
              ∷ ("chat_id", str_or_null run.chat_id)
              ∷ ("ingress_job_id", str_or_null run.ingress_job_id)
              ∷ []))
            none
        pure tt)
    ]

  unfoldable pub set_oh_conversation_id : String → String → String → Action InvestigationRun
  set_oh_conversation_id project_id run_id oh_conversation_id = do
    found ← get_run project_id run_id
    run ← require found (key_error ("investigation run not found: " <> run_id))
    now ← utc_now_iso
    let run' : InvestigationRun = record run {
      oh_conversation_id = some oh_conversation_id;
      updated_at = now;
    }
    save run'
    pure run'

  -- `get_run` for each id, the missing ones left out
  pub runs_of : String → List String → Action (List InvestigationRun)
  runs_of project_id [] = pure []
  runs_of project_id (run_id ∷ ids) = do
    found ← get_run project_id run_id
    rest ← runs_of project_id ids
    pure (elim found [ none ↦ rest | some run ↦ run ∷ rest ])

  unfoldable pub list_runs_for_chat : String → String → ℕ → Action (List InvestigationRun)
  unfolding runs_of
  list_runs_for_chat project_id chat_id limit = do
    ids ← gets (λ w.
        zrevrange w.storage ns_runs_by_chat (chat_index_key project_id chat_id) (pos 0)
          (pos (limit - 1)))
    runs_of project_id ids

  unfoldable pub first_active : String → List InvestigationRun → Option InvestigationRun
  first_active uid [] = none
  first_active uid (run ∷ runs) =
      let rest = first_active uid runs in
      if not (run.uid == uid) then rest else if not (is_terminal run) then some run else rest

  unfoldable pub get_active_run_for_chat :
      String → String → String → Action (Option InvestigationRun)
  unfolding first_active
  get_active_run_for_chat project_id uid chat_id = do
    runs ← list_runs_for_chat project_id chat_id 50
    pure (first_active uid runs)

  -- `try: ... except RunTransitionError: continue`, with the number of runs that failed
  abbrev pub caught : Error → Result ℕ
  caught (run_transition_error m) = ok 0
  caught e = err e

  abbrev pub counted : Result InvestigationRun × World → Result ℕ × World
  counted (ok run, w) = (ok 1, w)
  counted (err e, w) = (caught e, w)

  -- The body of the loop of `fail_orphaned_runs`; `not doc` is also true of the empty dictionary.
  abbrev pub recover_run : String → Result InvestigationRun → Action ℕ
  recover_run reason (err e) = pure 0
  recover_run reason (ok run) =
      if is_terminal run
      then pure 0
      else (λ w. counted (transition run.project_id run.run_id failed (some reason) none none w))

  abbrev pub recover_doc : String → Option Fields → Action ℕ
  recover_doc reason none = pure 0
  recover_doc reason (some end) = pure 0
  recover_doc reason (some (field k v d)) = recover_run reason (from_dict (field k v d))

  unfoldable pub recover : String → String → Action ℕ
  recover reason key = do doc ← gets (λ w. get_json w.storage ns_run key); recover_doc reason doc

  unfoldable pub recover_all : String → List String → Action ℕ
  recover_all reason [] = pure 0
  recover_all reason (key ∷ keys) = do
    n ← recover reason key
    rest ← recover_all reason keys
    pure (n + rest)

  unfoldable pub fail_orphaned_runs : String → Action ℕ
  fail_orphaned_runs reason = do
    keys ← gets (λ w. list_keys w.storage ns_run)
    recover_all reason keys

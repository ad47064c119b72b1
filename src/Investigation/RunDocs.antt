-- ===== src/Investigation/RunDocs.antt =====
-- deepticket/investigation/store.py: how `InvestigationRunStore` reads and writes one run, and the
-- counters that events keep on it.
pub mod Frames
use deepticket.Prelude.{
  ℕ, suc, String, Bool, true, false, Option, none, some, List, [], ◌∷◌, ◌==◌, if◌then◌else◌, ◌≡◌,
}
use deepticket.Prelude.Text.{with_offset, ◌<>◌, nonempty}
use deepticket.Json.{Fields}
use deepticket.Env.{Env}
use deepticket.Exec.{Exec, Result, ok, err, lift, gets, pure, when, ◌>>=◌, ◌>>◌}
use deepticket.Storage.Local.{get_json, set_json, zadd}
use deepticket.World.{World, Action, on_storage, utc_now_iso, time_ms}
use deepticket.Investigation.Models.{InvestigationRun, to_dict, from_dict}

abbrev pub ns_run : String
ns_run = "inv_run"

abbrev pub ns_runs_by_user : String
ns_runs_by_user = "inv_runs"

abbrev pub ns_runs_by_chat : String
ns_runs_by_chat = "inv_runs_chat"

abbrev pub run_key : String → String → String
run_key project_id run_id = project_id <> ":" <> run_id

abbrev pub user_index_key : String → String → String
user_index_key project_id uid = project_id <> ":" <> uid

abbrev pub chat_index_key : String → String → String
chat_index_key project_id chat_id = project_id <> ":" <> chat_id

-- RunEventType of events.py
pub data RunEventType : Type 0 where
  run_created run_status_changed agent_message tool_call tool_result : RunEventType
  policy_decision error run_completed : RunEventType

abbrev pub is_tool_call : RunEventType → Bool
is_tool_call tool_call = true
is_tool_call _ = false

-- The test `if run.chat_id`.
abbrev pub is_given : Option String → Bool
is_given none = false
is_given (some s) = nonempty s

abbrev pub text : Option String → String
text none = ""
text (some s) = s

module _ ⦃env : Env⦄ where
  -- `_score_now`, `_score_from_iso`
  abbrev score_now : Action ℕ
  score_now = time_ms

  score_from_iso : String → Action ℕ
  score_from_iso value =
      if nonempty value
      then elim (env.iso_ms (with_offset value)) [ none ↦ score_now | some score ↦ pure score ]
      else score_now

  abbrev loaded : Result InvestigationRun → Result (Option InvestigationRun)
  loaded (ok run) = ok (some run)
  loaded (err e) = err e

  abbrev decode : Option Fields → Result (Option InvestigationRun)
  decode none = ok none
  decode (some doc) = loaded (from_dict doc)

  unfoldable pub get_run : String → String → Action (Option InvestigationRun)
  get_run project_id run_id = do
    doc ← gets (λ w. get_json w.storage ns_run (run_key project_id run_id))
    lift (decode doc)

  unfoldable pub save : InvestigationRun → Action (Unit {0})
  unfolding score_from_iso
  save run = do
    on_storage (λ s. set_json s ns_run (run_key run.project_id run.run_id) (to_dict run))
    score ← score_from_iso run.updated_at
    on_storage (λ s.
        zadd s ns_runs_by_user (user_index_key run.project_id run.uid) ((run.run_id, score) ∷ []))
    when (is_given run.chat_id) (
        on_storage (λ s.
          zadd s ns_runs_by_chat (chat_index_key run.project_id (text run.chat_id))
            ((run.run_id, score) ∷ [])))

  abbrev pub bumped : RunEventType → InvestigationRun → String → InvestigationRun
  bumped event_type run now = record run {
    event_count = suc run.event_count;
    tool_call_count =
        if is_tool_call event_type then suc run.tool_call_count else run.tool_call_count;
    updated_at = now;
  }

  unfoldable pub bump_event_stats : String → String → RunEventType → Action (Unit {0})
  bump_event_stats project_id run_id event_type = do
    found ← get_run project_id run_id
    elim found [
      | none ↦ pure tt
      | some run ↦ (do now ← utc_now_iso; save (bumped event_type run now))
    ]

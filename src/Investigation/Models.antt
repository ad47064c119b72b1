-- ===== src/Investigation/Models.antt =====
-- `InvestigationRun` of deepticket/investigation/models.py and its JSON form. `from_dict` reads with
-- `str`, `int` and `or`; an optional field that holds a true value of another type is read by `str` too.
pub mod RoundTrip
use deepticket.Prelude.{ℕ, String, Option, none, some, List, [], ◌∷◌, Bool}
use deepticket.Json.{
  Value, str, num, null, Fields, dict_of, get, truthy_or_none, or_default, str_or_null,
}
use deepticket.Env.{Env, str_of, int_of}
use deepticket.Exec.{Result, ok, err, key_error, value_error}
use deepticket.Exec.Pure.{◌>>=◌, from_option}
use deepticket.Investigation.Status.{
  RunStatus, RunSource, value, source_value, status_of, source_of, is_terminal_status,
}

pub record InvestigationRun : Type 0 where
  pub run_id : String
  pub project_id : String
  pub uid : String
  pub source : RunSource
  pub status : RunStatus
  pub created_at : String
  pub updated_at : String
  pub chat_id : Option String
  pub ingress_job_id : Option String
  pub ticket_id : Option String
  pub oh_conversation_id : Option String
  pub started_at : Option String
  pub finished_at : Option String
  pub error_message : Option String
  pub tool_call_count : ℕ
  pub event_count : ℕ

abbrev pub is_terminal : InvestigationRun → Bool
is_terminal run = is_terminal_status run.status

unfoldable pub to_dict : InvestigationRun → Fields
to_dict run = dict_of (
    ("run_id", str run.run_id)
    ∷ ("project_id", str run.project_id)
    ∷ ("uid", str run.uid)
    ∷ ("source", str (source_value run.source))
    ∷ ("status", str (value run.status))
    ∷ ("chat_id", str_or_null run.chat_id)
    ∷ ("ingress_job_id", str_or_null run.ingress_job_id)
    ∷ ("ticket_id", str_or_null run.ticket_id)
    ∷ ("oh_conversation_id", str_or_null run.oh_conversation_id)
    ∷ ("created_at", str run.created_at)
    ∷ ("updated_at", str run.updated_at)
    ∷ ("started_at", str_or_null run.started_at)
    ∷ ("finished_at", str_or_null run.finished_at)
    ∷ ("error_message", str_or_null run.error_message)
    ∷ ("tool_call_count", num run.tool_call_count)
    ∷ ("event_count", num run.event_count)
    ∷ [])

module _ ⦃env : Env⦄ where
  -- `str(data[k])`
  unfoldable pub text_at : Fields → String → Result String
  text_at d k = do v ← from_option (get d k) (key_error k); ok (str_of v)

  -- `data.get(k) or None`
  unfoldable pub optional_at : Fields → String → Option String
  optional_at d k = elim (truthy_or_none (get d k)) [ none ↦ none | some v ↦ some (str_of v) ]

  -- `int(data.get(k) or 0)`
  unfoldable pub count_at : Fields → String → Result ℕ
  count_at d k = from_option (int_of (or_default (get d k) (num 0))) (value_error k)

  unfoldable pub from_dict : Fields → Result InvestigationRun
  from_dict d = do
    run_id ← text_at d "run_id"
    project_id ← text_at d "project_id"
    uid ← text_at d "uid"
    source_text ← text_at d "source"
    source ← source_of source_text
    status_text ← text_at d "status"
    status ← status_of status_text
    created_at ← text_at d "created_at"
    updated_at ← text_at d "updated_at"
    tool_call_count ← count_at d "tool_call_count"
    event_count ← count_at d "event_count"
    ok (record {
      run_id = run_id;
      project_id = project_id;
      uid = uid;
      source = source;
      status = status;
      created_at = created_at;
      updated_at = updated_at;
      chat_id = optional_at d "chat_id";
      ingress_job_id = optional_at d "ingress_job_id";
      ticket_id = optional_at d "ticket_id";
      oh_conversation_id = optional_at d "oh_conversation_id";
      started_at = optional_at d "started_at";
      finished_at = optional_at d "finished_at";
      error_message = optional_at d "error_message";
      tool_call_count = tool_call_count;
      event_count = event_count;
    })

-- ===== src/Investigation/Models/RoundTrip.antt =====
-- Reading back what `to_dict` wrote: the same run, but for empty optional texts, which become `None`.
use deepticket.Prelude.{ℕ, zero, suc, String, Option, none, some, ◌≡◌, refl, arith, if◌then◌else◌}
use deepticket.Prelude.Text.{nonempty}
use deepticket.Json.{str, num, Fields, get, str_or_null}
use deepticket.Env.{Env}
use deepticket.Exec.{ok}
use deepticket.Investigation.Status.{value, source_value, status_of-value, source_of-source_value}
use deepticket.Investigation.Models.{
  InvestigationRun, to_dict, from_dict, text_at, optional_at, count_at,
}

-- `s or None`
abbrev pub or_none : Option String → Option String
or_none none = none
or_none (some s) = if nonempty s then some s else none

abbrev pub without_blanks : InvestigationRun → InvestigationRun
without_blanks run = record run {
  chat_id = or_none run.chat_id;
  ingress_job_id = or_none run.ingress_job_id;
  ticket_id = or_none run.ticket_id;
  oh_conversation_id = or_none run.oh_conversation_id;
  started_at = or_none run.started_at;
  finished_at = or_none run.finished_at;
  error_message = or_none run.error_message;
}

module _ ⦃env : Env⦄ (d : Fields) (k : String) where
  pub text_at-str : (s : String) → get d k ≡ some (str s) → text_at d k ≡ ok s
  unfolding text_at
  text_at-str s h = rw h

  pub count_at-num : (n : ℕ) → get d k ≡ some (num n) → count_at d k ≡ ok n
  unfolding count_at
  count_at-num zero h = rw h
  count_at-num (suc n) h = rw h

  pub optional_at-str_or_null :
      (o : Option String) → get d k ≡ some (str_or_null o) → optional_at d k ≡ or_none o
  unfolding optional_at
  optional_at-str_or_null none h = rw (h, optional_at)
  optional_at-str_or_null (some s) h = ground (arith, h)

module _ ⦃env : Env⦄ (run : InvestigationRun) where
  abbrev doc : Fields
  doc = to_dict run

  -- Reading back a written run gives the run, with each empty optional text replaced by `None`.
  pub from_dict-to_dict : from_dict (to_dict run) ≡ ok (without_blanks run)
  unfolding from_dict to_dict get
  from_dict-to_dict = rw (
    text_at-str doc "run_id" run.run_id refl,
    text_at-str doc "project_id" run.project_id refl,
    text_at-str doc "uid" run.uid refl,
    text_at-str doc "source" (source_value run.source) refl,
    source_of-source_value run.source,
    text_at-str doc "status" (value run.status) refl,
    status_of-value run.status,
    text_at-str doc "created_at" run.created_at refl,
    text_at-str doc "updated_at" run.updated_at refl,
    count_at-num doc "tool_call_count" run.tool_call_count refl,
    count_at-num doc "event_count" run.event_count refl,
    optional_at-str_or_null doc "chat_id" run.chat_id refl,
    optional_at-str_or_null doc "ingress_job_id" run.ingress_job_id refl,
    optional_at-str_or_null doc "ticket_id" run.ticket_id refl,
    optional_at-str_or_null doc "oh_conversation_id" run.oh_conversation_id refl,
    optional_at-str_or_null doc "started_at" run.started_at refl,
    optional_at-str_or_null doc "finished_at" run.finished_at refl,
    optional_at-str_or_null doc "error_message" run.error_message refl,
  )

-- ===== src/Investigation/Approvals/RoundTrip.antt =====
-- Reading back a written approval request.
use deepticket.Prelude.{String, ◌≡◌, refl, some, arith, eq_iff}
use deepticket.Json.{str, dict, Fields, end, field, get}
use deepticket.Env.{Env}
use deepticket.Exec.{ok}
use deepticket.Investigation.Models.RoundTrip.{or_none, text_at-str, optional_at-str_or_null}
use deepticket.Investigation.Approvals.{
  ApprovalStatus, pending, approved, rejected, approval_value, approval_status_of, ApprovalRequest,
  to_dict, from_dict, text_or_blank, dict_at,
}

approval_status_of-value :
    ⦃env : Env⦄ (s : ApprovalStatus) → approval_status_of (approval_value s) ≡ ok s
unfolding approval_status_of
approval_status_of-value pending = refl
approval_status_of-value approved = refl
approval_status_of-value rejected = refl

abbrev pub without_blanks : ApprovalRequest → ApprovalRequest
without_blanks request = record request {
  resolved_at = or_none request.resolved_at;
  resolved_by = or_none request.resolved_by;
  reason = or_none request.reason;
}

module _ ⦃env : Env⦄ (d : Fields) (k : String) where
  text_or_blank-str : (s : String) → get d k ≡ some (str s) → text_or_blank d k ≡ s
  unfolding text_or_blank
  text_or_blank-str s h = ground (arith, h, eq_iff s "")

  dict_at-dict : (a : Fields) → get d k ≡ some (dict a) → dict_at d k ≡ ok a
  unfolding dict_at
  dict_at-dict end h = rw (h, dict_at)
  dict_at-dict (field j v a) h = rw (h, dict_at)

module _ ⦃env : Env⦄ (request : ApprovalRequest) where
  abbrev doc : Fields
  doc = to_dict request

  -- Reading back a written request gives the request, with each empty optional text replaced by `None`.
  pub from_dict-to_dict-request : from_dict (to_dict request) ≡ ok (without_blanks request)
  unfolding from_dict to_dict get
  from_dict-to_dict-request = rw (
    text_at-str doc "approval_id" request.approval_id refl,
    text_at-str doc "project_id" request.project_id refl,
    text_at-str doc "run_id" request.run_id refl,
    text_at-str doc "tool_name" request.tool_name refl,
    dict_at-dict doc "arguments" request.arguments refl,
    text_at-str doc "status" (approval_value request.status) refl,
    approval_status_of-value request.status,
    text_at-str doc "created_at" request.created_at refl,
    text_or_blank-str doc "mcp_server" request.mcp_server refl,
    optional_at-str_or_null doc "resolved_at" request.resolved_at refl,
    optional_at-str_or_null doc "resolved_by" request.resolved_by refl,
    optional_at-str_or_null doc "reason" request.reason refl,
  )

-- ===== src/Investigation/Approvals.antt =====
-- deepticket/investigation/approvals.py: the requests that an operator decides, and the one-time grants.
pub mod Grants
pub mod Resolving
pub mod RoundTrip
use deepticket.Prelude.{
  ℕ, String, Bool, true, false, Option, none, some, List, [], ◌∷◌, ◌==◌, if◌then◌else◌,
}
use deepticket.Prelude.Int.{pos}
use deepticket.Prelude.Text.{◌<>◌, size}
use deepticket.Json.{
  Value, str, num, dict, null, Fields, end, dict_of, get, or_default, truthy_or_none, str_or_null,
}
use deepticket.Env.{Env, str_of}
use deepticket.Exec.{
  Result, ok, err, key_error, value_error, type_error, lift, gets, pure, raise, require, ◌>>=◌,
  ◌>>◌,
}
use deepticket.Exec.Pure
use deepticket.Storage.Local.{get_json, set_json, delete, zadd, zrevrange}
use deepticket.World.{World, Action, on_storage, uuid4, utc_now_iso}
use deepticket.Investigation.Models.{text_at, optional_at}

pub data ApprovalStatus : Type 0 where
  pending approved rejected : ApprovalStatus

abbrev pub approval_value : ApprovalStatus → String
approval_value pending = "pending"
approval_value approved = "approved"
approval_value rejected = "rejected"

module _ ⦃env : Env⦄ where
  -- `ApprovalStatus(s)`
  unfoldable pub approval_status_of : String → Result ApprovalStatus
  approval_status_of s =
      if s == "pending"
      then ok pending
      else if s == "approved"
      then ok approved
      else if s == "rejected"
      then ok rejected
      else err (value_error (env.repr (str s) <> " is not a valid ApprovalStatus"))

abbrev pub is_pending : ApprovalStatus → Bool
is_pending pending = true
is_pending _ = false

pub record ApprovalRequest : Type 0 where
  pub approval_id : String
  pub project_id : String
  pub run_id : String
  pub tool_name : String
  pub mcp_server : String
  pub arguments : Fields
  pub status : ApprovalStatus
  pub created_at : String
  pub resolved_at : Option String
  pub resolved_by : Option String
  pub reason : Option String

unfoldable pub to_dict : ApprovalRequest → Fields
to_dict request = dict_of (
    ("approval_id", str request.approval_id)
    ∷ ("project_id", str request.project_id)
    ∷ ("run_id", str request.run_id)
    ∷ ("tool_name", str request.tool_name)
    ∷ ("mcp_server", str request.mcp_server)
    ∷ ("arguments", dict request.arguments)
    ∷ ("status", str (approval_value request.status))
    ∷ ("created_at", str request.created_at)
    ∷ ("resolved_at", str_or_null request.resolved_at)
    ∷ ("resolved_by", str_or_null request.resolved_by)
    ∷ ("reason", str_or_null request.reason)
    ∷ [])

abbrev pub ns_approval : String
ns_approval = "inv_approval"

abbrev pub ns_approvals_by_run : String
ns_approvals_by_run = "inv_approvals_run"

abbrev pub ns_approval_grant : String
ns_approval_grant = "inv_approval_grant"

abbrev pub approval_key : String → String → String
approval_key project_id approval_id = project_id <> ":" <> approval_id

abbrev pub run_index_key : String → String → String
run_index_key project_id run_id = project_id <> ":" <> run_id

abbrev pub grant_key : String → String → String → String
grant_key project_id run_id tool_name = project_id <> ":" <> run_id <> ":" <> tool_name

module _ ⦃env : Env⦄ where
  -- `str(data.get(k) or "")`
  unfoldable pub text_or_blank : Fields → String → String
  text_or_blank d k = str_of (or_default (get d k) (str ""))

  -- `dict(data.get(k) or {})`; a value that is true and no dictionary is refused
  abbrev as_dict : Value → Result Fields
  as_dict (dict d) = ok d
  as_dict v = err (type_error "dict")

  unfoldable pub dict_at : Fields → String → Result Fields
  dict_at d k = as_dict (or_default (get d k) (dict end))

  unfoldable pub from_dict : Fields → Result ApprovalRequest
  from_dict d = Pure.◌>>=◌ (text_at d "approval_id") λ approval_id.
      Pure.◌>>=◌ (text_at d "project_id") λ project_id. Pure.◌>>=◌ (text_at d "run_id") λ run_id.
        Pure.◌>>=◌ (text_at d "tool_name") λ tool_name.
          Pure.◌>>=◌ (dict_at d "arguments") λ arguments.
            Pure.◌>>=◌ (text_at d "status") λ status_text.
              Pure.◌>>=◌ (approval_status_of status_text) λ status.
                Pure.◌>>=◌ (text_at d "created_at") λ created_at. ok (record {
                  approval_id = approval_id;
                  project_id = project_id;
                  run_id = run_id;
                  tool_name = tool_name;
                  mcp_server = text_or_blank d "mcp_server";
                  arguments = arguments;
                  status = status;
                  created_at = created_at;
                  resolved_at = optional_at d "resolved_at";
                  resolved_by = optional_at d "resolved_by";
                  reason = optional_at d "reason";
                })

  -- The score is the length of the creation time's text.
  unfoldable pub save : ApprovalRequest → Action (Unit {0})
  save request = do
    on_storage (λ s.
        set_json s ns_approval (approval_key request.project_id request.approval_id)
          (to_dict request))
    on_storage (λ s.
        zadd s ns_approvals_by_run (run_index_key request.project_id request.run_id)
          ((request.approval_id, size request.created_at) ∷ []))

  unfoldable pub create : String → String → String → String → Fields → Action ApprovalRequest
  create project_id run_id tool_name mcp_server arguments = do
    now ← utc_now_iso
    approval_id ← uuid4
    let request : ApprovalRequest = record {
      approval_id = approval_id;
      project_id = project_id;
      run_id = run_id;
      tool_name = tool_name;
      mcp_server = mcp_server;
      arguments = arguments;
      status = pending;
      created_at = now;
      resolved_at = none;
      resolved_by = none;
      reason = none;
    }
    save request
    pure request

  abbrev loaded : Result ApprovalRequest → Result (Option ApprovalRequest)
  loaded (ok request) = ok (some request)
  loaded (err e) = err e

  abbrev decode : Option Fields → Result (Option ApprovalRequest)
  decode none = ok none
  decode (some doc) = loaded (from_dict doc)

  unfoldable pub get_request : String → String → Action (Option ApprovalRequest)
  get_request project_id approval_id = do
    doc ← gets (λ w. get_json w.storage ns_approval (approval_key project_id approval_id))
    lift (decode doc)

  -- `if req and req.status is ApprovalStatus.PENDING: return req`, before the rest of the loop
  abbrev pub pending_or :
      Option ApprovalRequest → Action (Option ApprovalRequest) → Action (Option ApprovalRequest)
  pending_or none rest = rest
  pending_or (some request) rest = if is_pending request.status then pure (some request) else rest

  -- The loop of `get_pending_for_run`: it stops at the first pending request.
  unfoldable pub first_pending : String → List String → Action (Option ApprovalRequest)
  first_pending project_id [] = pure none
  first_pending project_id (approval_id ∷ ids) =
      let rest = first_pending project_id ids in
      get_request project_id approval_id >>= (λ found. pending_or found rest)

  unfoldable pub get_pending_for_run : String → String → Action (Option ApprovalRequest)
  unfolding first_pending
  get_pending_for_run project_id run_id = do
    ids ← gets (λ w.
        zrevrange w.storage ns_approvals_by_run (run_index_key project_id run_id) (pos 0) (pos 20))
    first_pending project_id ids

  abbrev pub resolved :
      ApprovalRequest → ApprovalStatus → String → String → Option String → ApprovalRequest
  resolved request status now resolved_by reason = record request {
    status = status;
    resolved_at = some now;
    resolved_by = some resolved_by;
    reason = reason;
  }

  unfoldable pub resolve :
      String → String → ApprovalStatus → String → Option String → Action ApprovalRequest
  resolve project_id approval_id status resolved_by reason = do
    found ← get_request project_id approval_id
    request ← require found (key_error ("approval not found: " <> approval_id))
    if is_pending request.status
        then (do
          now ← utc_now_iso
          let request' = resolved request status now resolved_by reason
          save request'
          pure request')
        else raise (value_error ("approval already resolved: " <> approval_value request.status))

  unfoldable pub issue_tool_grant : String → String → String → String → Action (Unit {0})
  issue_tool_grant project_id run_id tool_name approval_id = do
    now ← utc_now_iso
    on_storage (λ s. set_json s ns_approval_grant (grant_key project_id run_id tool_name) (
        dict_of (
          ("approval_id", str approval_id)
          ∷ ("run_id", str run_id)
          ∷ ("tool_name", str tool_name)
          ∷ ("issued_at", str now)
          ∷ [])))

  unfoldable pub consume_tool_grant : String → String → String → Action Bool
  consume_tool_grant project_id run_id tool_name = do
    let key = grant_key project_id run_id tool_name
    doc ← gets (λ w. get_json w.storage ns_approval_grant key)
    elim doc [
      | none ↦ pure false
      | some d ↦ (do on_storage (λ s. delete s ns_approval_grant key); pure true)
    ]

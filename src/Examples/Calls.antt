-- ===== src/Examples/Calls.antt =====
-- Tool calls: approvals, grants, the gate and the hook.
use deepticket.Prelude.{
  Bool, Option, none, some, ◌≡◌, refl, [], ◌∷◌, ◌++◌, true, false, not, ◌&&◌, if◌then◌else◌,
}
use deepticket.Prelude.Text.{strip}
use deepticket.Json.{Fields, end, str, dict_of}
use deepticket.Exec.{ok, err, value_error}
use deepticket.Storage.Local.{Storage, empty, get_json, set_json}
use deepticket.World.{World, start}
use deepticket.Investigation.Approvals.{
  ApprovalRequest, pending, approved, rejected, to_dict, from_dict, resolve, approval_key,
  ns_approval, issue_tool_grant, consume_tool_grant, text_or_blank,
}
use deepticket.Investigation.Approvals.RoundTrip.{without_blanks, from_dict-to_dict-request}
use deepticket.Investigation.Approvals.Grants.{granted, issue-consume_once}
use deepticket.Investigation.Approvals.Resolving.{HasRequest, resolve_pending, resolve_once}
use deepticket.Investigation.Policy.{
  lookup, ToolGovernanceConfig, GovernanceRule, deny, allow, mode_audit, default_rule, Strategy,
  PolicyEvaluation, ToolInvocationContext, with_tool_known, policy_engine, with_strategies,
  evaluate,
}
use deepticket.Investigation.Policy.Chain.{evaluate_first, evaluate-with_strategies}
use deepticket.Investigation.Policy.Precedence.{configured, configured_in-Scope, server, decide}
use deepticket.Investigation.Gate.{
  ToolGovernanceGate, ToolGovernanceResult, passed, denied, deny_message, grant_evaluation,
  is_known_tool, evaluate_context,
}
use deepticket.Investigation.Gate.Outcomes.{
  Outcome, grant_there, is_allow, evaluate_context-Outcome,
}
use deepticket.Investigation.Gate.Registered.{Registered}
use deepticket.Investigation.Gate.Spending.{
  evaluate_context-spends, evaluate_context_twice, same_grant,
}
use deepticket.Investigation.Governance.Sessions.{
  get_by_conversation, register, GovernanceSessionContext, or_text, or_none,
  get_by_conversation-register,
}
use deepticket.Investigation.Governance.Hook.{
  HookCall, evaluate_hook_event, call_of, caller_of, context_of, session_for, build_stack,
}
use deepticket.Investigation.Governance.Hook.Closed.{Permitted, evaluate_hook_event-Permitted}
use deepticket.Examples.Fixtures.{python, world_of}

abbrev request : ApprovalRequest
request = record {
  approval_id = "a";
  project_id = "p";
  run_id = "r";
  tool_name = "delete";
  mcp_server = "jira";
  arguments = end;
  status = pending;
  created_at = "t";
  resolved_at = none;
  resolved_by = none;
  reason = none;
}

abbrev asked : World
asked = world_of (set_json empty ns_approval (approval_key "p" "a") (to_dict request))

asked-HasRequest : HasRequest "p" "a" request asked.storage
unfolding get_json set_json empty
asked-HasRequest = record {
  doc = to_dict request;
  at = refl;
  reads = from_dict-to_dict-request request;
  project_id = refl;
  approval_id = refl;
}

from_dict-to_dict-request_example : from_dict (to_dict request) ≡ ok (without_blanks request)
from_dict-to_dict-request_example = from_dict-to_dict-request request

resolve_once_example :
    resolve "p" "a" rejected "bob" none (resolve "p" "a" approved "alice" none asked).1 ≡ (
      err (value_error "approval already resolved: approved"),
      (resolve "p" "a" approved "alice" none asked).1,
    )
resolve_once_example =
    resolve_once "p" "a" approved rejected "alice" "bob" none none asked request asked-HasRequest
      refl refl

abbrev decided : ApprovalRequest
decided = record request {
  status = approved;
  resolved_at = some "2026-01-02T03:04:05Z";
  resolved_by = some "alice";
  reason = none;
}

resolve_pending_example :
    ((resolve "p" "a" approved "alice" none asked).0 ≡ ok decided)
    × HasRequest "p" "a"
        (without_blanks decided)
        (resolve "p" "a" approved "alice" none asked).1.storage
resolve_pending_example =
    resolve_pending "p" "a" approved "alice" none asked request asked-HasRequest refl

abbrev issued : World
issued = (issue_tool_grant "p" "r" "delete" "a" start).1

issue-consume_once_example :
    ((consume_tool_grant "p" "r" "delete" issued).0 ≡ ok true)
    × ((consume_tool_grant "p" "r" "delete" (consume_tool_grant "p" "r" "delete" issued).1).0
        ≡ ok false)
issue-consume_once_example = issue-consume_once "p" "r" "delete" "a" "p" "r" "delete" start

abbrev config : ToolGovernanceConfig
config = record {
  global = default_rule;
  mcp = ("jira", record { default = deny; unknown_tool_mode = mode_audit }) ∷ [];
  tools = ("search", allow) ∷ [];
}

abbrev context : ToolInvocationContext
context = record {
  project_id = "p";
  mcp_server = "jira";
  tool_name = "delete";
  arguments = end;
  tool_known = true;
  run_id = "r";
  uid = "u";
  chat_id = none;
  oh_conversation_id = none;
  user_is_admin = false;
  extra = end;
}

abbrev gate : ToolGovernanceGate
gate = record {
  policy = policy_engine config [];
  events = none;
  approvals = true;
  registry = false;
}

abbrev silent : Strategy
silent ctx = none

abbrev refusing : Strategy
refusing ctx = some (record { decision = deny; reason = "no"; matched_rule = "test" })

evaluate_first_example :
    evaluate (policy_engine config ((silent ∷ []) ++ refusing ∷ [])) context
    ≡ record { decision = deny; reason = "no"; matched_rule = "test" }
evaluate_first_example =
    evaluate_first config (silent ∷ []) [] refusing context
      (record { decision = deny; reason = "no"; matched_rule = "test" }) (refl, tt) refl

configured_in-Scope_example : configured config context ≡ deny
unfolding decide lookup strip
configured_in-Scope_example =
    configured_in-Scope config context (record { default = deny; unknown_tool_mode = mode_audit })
      refl (server _ refl refl)

evaluate-with_strategies_example :
    (evaluate (with_strategies (policy_engine config []) (silent ∷ [])) context
      ≡ evaluate (policy_engine config []) context)
    × (evaluate (with_strategies (policy_engine config []) ((silent ∷ []) ++ refusing ∷ [])) context
        ≡ record { decision = deny; reason = "no"; matched_rule = "test" })
evaluate-with_strategies_example =
    evaluate-with_strategies (policy_engine config []) (silent ∷ []) [] refusing context
      (record { decision = deny; reason = "no"; matched_rule = "test" }) (refl, tt) refl

abbrev refusal : ToolGovernanceResult
refusal =
    denied (evaluate gate.policy context) (deny_message context (evaluate gate.policy context))

evaluate_context-Outcome_example :
    (known : Bool) × ((is_known_tool gate "p" "jira" "delete" start).0 ≡ ok known)
    × Outcome gate (with_tool_known context known) start refusal
unfolding evaluate_context is_known_tool deepticket.Investigation.Gate.use_grant consume_tool_grant
    get_json empty deepticket.Investigation.Gate.evaluate_by_policy
    deepticket.Investigation.Gate.audit deepticket.Investigation.Gate.enforce evaluate policy_engine
    deepticket.Investigation.Policy.yaml_strategy deepticket.Investigation.Policy.evaluate_chain
    lookup strip deepticket.Investigation.Policy.unless_known
    deepticket.Investigation.Gate.record_block_event
evaluate_context-Outcome_example = evaluate_context-Outcome gate context start refusal refl

evaluate_context-spends_example :
    granted "p" "r" "delete" (evaluate_context gate context issued).1.storage ≡ (
      if grant_there gate context issued && same_grant gate context issued "p" "r" "delete"
      then false
      else granted "p" "r" "delete" issued.storage)
unfolding is_known_tool
evaluate_context-spends_example =
    evaluate_context-spends gate context issued true "p" "r" "delete" refl

evaluate_context_twice_example :
    (passed grant_evaluation ≡ passed grant_evaluation)
    × ((known : Bool) × Registered gate context (evaluate_context gate context issued).1 known
        × (true ≡ not (is_allow (evaluate gate.policy (with_tool_known context known)).decision)))
unfolding evaluate_context is_known_tool deepticket.Investigation.Gate.use_grant consume_tool_grant
    get_json empty deepticket.Investigation.Gate.evaluate_by_policy
    deepticket.Investigation.Gate.audit deepticket.Investigation.Gate.enforce evaluate policy_engine
    deepticket.Investigation.Policy.yaml_strategy deepticket.Investigation.Policy.evaluate_chain
    lookup strip deepticket.Investigation.Policy.unless_known
    deepticket.Investigation.Gate.record_block_event issue_tool_grant set_json
    deepticket.Investigation.Gate.evaluate_granted deepticket.Storage.Local.delete
evaluate_context_twice_example =
    evaluate_context_twice gate context issued (passed grant_evaluation) refusal refl refl refl

get_by_conversation-register_example :
    (get_by_conversation "oh" (register "oh" "" "r" "u" (some "") true start).1).0
    ≡ ok (
        some (record {
          project_id = "default";
          run_id = "r";
          uid = "u";
          chat_id = none;
          user_is_admin = true;
        }))
get_by_conversation-register_example =
    get_by_conversation-register "oh" "" "r" "u" (some "") true start "oh"

abbrev event : Fields
event = dict_of (("tool_name", str "search") ∷ ("session_id", str "oh") ∷ [])

evaluate_hook_event-Permitted_example :
    (call : HookCall) × (session : Option GovernanceSessionContext) × (call_of
        (strip (text_or_blank event "tool_name"))
        event
      ≡ ok call)
    × ((session_for call.session_id start).0 ≡ ok session)
    × Permitted (build_stack config) (context_of call (caller_of call.metadata session)) start
unfolding strip text_or_blank deepticket.Json.get evaluate_hook_event
    deepticket.Investigation.Governance.Hook.evaluate_call call_of
    deepticket.Investigation.Governance.Hook.session_id_of
    deepticket.Investigation.Governance.Hook.parse_tool_arguments
    deepticket.Investigation.Governance.Hook.infer_mcp_server
    deepticket.Investigation.Governance.Hook.context_of session_for get_by_conversation
    deepticket.Investigation.Governance.Hook.answer caller_of get_json empty
    deepticket.Investigation.Governance.Sessions.text_or evaluate build_stack policy_engine
    deepticket.Investigation.Policy.yaml_strategy deepticket.Investigation.Policy.evaluate_chain
    lookup deepticket.Investigation.Policy.unless_known deepticket.Investigation.Models.optional_at
evaluate_hook_event-Permitted_example =
    evaluate_hook_event-Permitted config event start "" refl refl

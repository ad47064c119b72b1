-- ===== src/Investigation/Gate.antt =====
-- deepticket/investigation/governance/gate.py: `ToolGovernanceGate`.
pub mod Registered
pub mod Outcomes
pub mod Keeping
pub mod Spending
use deepticket.Prelude.{
  String, Bool, true, false, Option, none, some, List, [], ◌∷◌, if◌then◌else◌, ◌==◌, ◌&&◌, ◌||◌,
  not, any,
}
use deepticket.Prelude.Text.{◌<>◌, strip, nonempty}
use deepticket.Json.{Fields, end, str, dict_of}
use deepticket.Env.{Env}
use deepticket.Exec.{Result, ok, err, lift, gets, pure, when, ◌>>=◌, ◌>>◌}
use deepticket.World.{World, Action}
use deepticket.Investigation.RunDocs.{policy_decision, error}
use deepticket.Investigation.Events.{RunEventStore, append}
use deepticket.Investigation.Approvals.{
  ApprovalRequest, create, get_pending_for_run, consume_tool_grant,
}
use deepticket.Investigation.Policy.{
  PolicyDecision, allow, deny, require_approval, decision_value, PolicyEvaluation, PolicyEngine,
  ToolInvocationContext, with_tool_known, evaluate,
}
use deepticket.Investigation.Registry.{ToolDescriptor, get_tools}

pub record ToolGovernanceResult : Type 0 where
  pub evaluation : PolicyEvaluation
  pub blocked : Bool
  pub waiting_approval : Bool
  pub hard_block : Bool
  pub block_message : Option String
  pub approval_id : Option String

-- The collaborators that may be missing: the event store; whether there are approvals and a registry.
pub record ToolGovernanceGate : Type 0 where
  pub policy : PolicyEngine
  pub events : Option RunEventStore
  pub approvals : Bool
  pub registry : Bool

abbrev pub passed : PolicyEvaluation → ToolGovernanceResult
passed evaluation = record {
  evaluation = evaluation;
  blocked = false;
  waiting_approval = false;
  hard_block = false;
  block_message = none;
  approval_id = none;
}

abbrev pub grant_evaluation : PolicyEvaluation
grant_evaluation = record {
  decision = allow;
  reason = "one-time grant after operator approval";
  matched_rule = "approval.grant";
}

abbrev pub denied : PolicyEvaluation → String → ToolGovernanceResult
denied evaluation message = record {
  evaluation = evaluation;
  blocked = true;
  waiting_approval = false;
  hard_block = true;
  block_message = some message;
  approval_id = none;
}

abbrev pub held : PolicyEvaluation → String → Option String → ToolGovernanceResult
held evaluation message approval_id = record {
  evaluation = evaluation;
  blocked = true;
  waiting_approval = true;
  hard_block = true;
  block_message = some message;
  approval_id = approval_id;
}

abbrev pub deny_message : ToolInvocationContext → PolicyEvaluation → String
deny_message ctx evaluation =
    "Tool " <> ctx.tool_name <> " denied by policy (" <> evaluation.matched_rule <> ")"

abbrev pub approval_message : ToolInvocationContext → PolicyEvaluation → String
approval_message ctx evaluation =
    "Tool " <> ctx.tool_name <> " requires approval (" <> evaluation.matched_rule
    <> "); waiting for operator decision"

module _ ⦃env : Env⦄ where
  abbrev pub names_known : String → List ToolDescriptor → Bool
  names_known tool_name [] = true
  names_known tool_name (t ∷ ts) = any (λ item. item.name == tool_name) (t ∷ ts)

  unfoldable pub is_known_tool : ToolGovernanceGate → String → String → String → Action Bool
  is_known_tool gate project_id mcp_server tool_name =
      if not gate.registry || not (nonempty (strip mcp_server)) then pure true else (do
        tools ← (λ w. (get_tools w.storage project_id mcp_server, w))
        pure (names_known tool_name tools))

  -- The POLICY_DECISION event
  unfoldable pub audit :
      Option RunEventStore → ToolInvocationContext → PolicyEvaluation → Action (Unit {0})
  audit none ctx evaluation = pure tt
  audit (some events) ctx evaluation = do
    append events ctx.project_id ctx.run_id policy_decision
        (dict_of (
          ("tool", str ctx.tool_name)
          ∷ ("mcp_server", str ctx.mcp_server)
          ∷ ("decision", str (decision_value evaluation.decision))
          ∷ ("reason", str evaluation.reason)
          ∷ ("matched_rule", str evaluation.matched_rule)
          ∷ ("uid", str ctx.uid)
          ∷ []))
        none
    pure tt

  unfoldable pub record_block_event :
      Option RunEventStore → String → String → String → String → Action (Unit {0})
  record_block_event none project_id run_id message code = pure tt
  record_block_event (some events) project_id run_id message code = do
    append events project_id run_id error
        (dict_of (("code", str code) ∷ ("message", str message) ∷ [])) none
    pure tt

  -- `if ctx.run_id and self._approvals is not None and self._approvals.consume_tool_grant(...)`
  unfoldable pub use_grant : ToolGovernanceGate → ToolInvocationContext → Action Bool
  use_grant gate ctx =
      if nonempty ctx.run_id && gate.approvals
      then consume_tool_grant ctx.project_id ctx.run_id ctx.tool_name
      else pure false

  unfoldable pub new_request : ToolInvocationContext → Action (Option String)
  new_request ctx = do
    request ← create ctx.project_id ctx.run_id ctx.tool_name ctx.mcp_server ctx.arguments
    pure (some request.approval_id)

  -- The pending request of the run is used again if it is for the same tool.
  abbrev pub reuse_or_create :
      ToolInvocationContext → Option ApprovalRequest → Action (Option String)
  reuse_or_create ctx none = new_request ctx
  reuse_or_create ctx (some pending) =
      if pending.tool_name == ctx.tool_name
      then pure (some pending.approval_id)
      else new_request ctx

  unfoldable pub request_approval :
      ToolGovernanceGate → ToolInvocationContext → Action (Option String)
  unfolding new_request
  request_approval gate ctx =
      if gate.approvals && nonempty ctx.run_id
      then (do pending ← get_pending_for_run ctx.project_id ctx.run_id; reuse_or_create ctx pending)
      else pure none

  -- What follows the evaluation and its event, by the decision.
  unfoldable pub enforce :
      ToolGovernanceGate
      → ToolInvocationContext
      → PolicyEvaluation
      → PolicyDecision
      → Action ToolGovernanceResult
  enforce gate ctx evaluation allow = pure (passed evaluation)
  enforce gate ctx evaluation deny = do
    let message = deny_message ctx evaluation
    when (nonempty ctx.run_id)
        (record_block_event gate.events ctx.project_id ctx.run_id message "policy_denied")
    pure (denied evaluation message)
  enforce gate ctx evaluation require_approval = do
    let message = approval_message ctx evaluation
    approval_id ← request_approval gate ctx
    when (nonempty ctx.run_id)
        (record_block_event gate.events ctx.project_id ctx.run_id message "approval_required")
    pure (held evaluation message approval_id)

  unfoldable pub evaluate_by_policy :
      ToolGovernanceGate → ToolInvocationContext → Action ToolGovernanceResult
  evaluate_by_policy gate ctx = do
    let evaluation = evaluate gate.policy ctx
    when (nonempty ctx.run_id) (audit gate.events ctx evaluation)
    enforce gate ctx evaluation evaluation.decision

  unfoldable pub evaluate_granted :
      ToolGovernanceGate → ToolInvocationContext → Action ToolGovernanceResult
  evaluate_granted gate ctx = do
    audit gate.events ctx grant_evaluation
    pure (passed grant_evaluation)

  unfoldable pub evaluate_context :
      ToolGovernanceGate → ToolInvocationContext → Action ToolGovernanceResult
  evaluate_context gate given = do
    known ← is_known_tool gate given.project_id given.mcp_server given.tool_name
    let ctx = with_tool_known given known
    granted ← use_grant gate ctx
    if granted then evaluate_granted gate ctx else evaluate_by_policy gate ctx

  -- `evaluate_mcp_tool`, which builds the context
  unfoldable pub evaluate_mcp_tool :
      ToolGovernanceGate
      → String
      → String
      → String
      → String
      → Fields
      → String
      → Option String
      → Option String
      → Bool
      → Action ToolGovernanceResult
  evaluate_mcp_tool gate project_id run_id mcp_server tool_name arguments uid chat_id
        oh_conversation_id user_is_admin =
      evaluate_context gate (record {
        project_id = project_id;
        mcp_server = mcp_server;
        tool_name = tool_name;
        arguments = arguments;
        tool_known = true;
        run_id = run_id;
        uid = uid;
        chat_id = chat_id;
        oh_conversation_id = oh_conversation_id;
        user_is_admin = user_is_admin;
        extra = end;
      })

-- ===== src/Investigation/Governance/Hook.antt =====
-- deepticket/investigation/governance/pre_tool_use.py: the hook that answers whether a tool call may go on.
-- The tool governance configuration, which a file gives, is an argument.
pub mod Closed
use deepticket.Prelude.{
  String, Bool, true, false, not, ◌&&◌, Option, none, some, List, [], ◌∷◌, ◌==◌, if◌then◌else◌,
}
use deepticket.Prelude.Text.{◌<>◌, nonempty, strip, starts_with}
use deepticket.Json.{
  Value, null, bool, num, str, list, dict, Fields, end, get, or_default, truthy, truthy_or_none,
}
use deepticket.Env.{Env, str_of}
use deepticket.Exec.{Exec, Result, ok, err, attribute_error, lift, gets, pure, when, ◌>>=◌, ◌>>◌}
use deepticket.Exec.Pure
use deepticket.World.{World, Action}
use deepticket.Investigation.Models.{optional_at}
use deepticket.Investigation.Approvals.{text_or_blank}
use deepticket.Investigation.Policy.{
  PolicyDecision, allow, deny, require_approval, PolicyEvaluation, ToolGovernanceConfig,
  ToolInvocationContext, policy_engine, evaluate,
}
use deepticket.Investigation.Gate.{ToolGovernanceGate, ToolGovernanceResult, evaluate_mcp_tool}
use deepticket.Investigation.Governance.Sessions.{
  GovernanceSessionContext, get_by_conversation, text_or,
}
use deepticket.Investigation.Governance.Pause.{mark_run_waiting_approval}

abbrev pub falsy : Option Value → Bool
falsy none = true
falsy (some v) = not (truthy v)

-- `tool_input.get("data")`, as a dictionary or the whole input
abbrev pub data_or : Option Value → Fields → Fields
data_or (some (dict d)) whole = d
data_or _ whole = whole

-- A true input that is no dictionary has no `get`.
unfoldable pub parse_tool_arguments : Option Value → Result Fields
parse_tool_arguments none = ok end
parse_tool_arguments (some (dict d)) = ok (data_or (get d "data") d)
parse_tool_arguments (some v) = if truthy v then err (attribute_error "get") else ok end

-- `event.get("metadata") if isinstance(event.get("metadata"), dict) else {}`
abbrev pub metadata_of : Option Value → Fields
metadata_of (some (dict d)) = d
metadata_of _ = end

-- `.get("session_id")` of `event.get("metadata", {})`
abbrev pub session_in_metadata : Option Value → Result (Option Value)
session_in_metadata none = ok none
session_in_metadata (some (dict d)) = ok (get d "session_id")
session_in_metadata (some v) = err (attribute_error "get")

abbrev pub some_if : Bool → String → Option String
some_if b s = if b then some s else none

-- Who calls: from the conversation's session, or from the event's metadata.
pub record Caller : Type 0 where
  pub project_id : String
  pub run_id : String
  pub uid : String
  pub chat_id : Option String
  pub user_is_admin : Bool

-- The tool call that the event describes
pub record HookCall : Type 0 where
  pub tool_name : String
  pub session_id : String
  pub metadata : Fields
  pub arguments : Fields
  pub mcp_server : String

-- `_build_stack`
unfoldable pub build_stack : ToolGovernanceConfig → ToolGovernanceGate
build_stack config = record {
  policy = policy_engine config [];
  events = some (record { run_store = true });
  approvals = true;
  registry = true;
}

module _ ⦃env : Env⦄ where
  unfoldable pub infer_mcp_server : String → Fields → String
  infer_mcp_server tool_name metadata =
      let explicit = strip (
        str_of (
          or_default (get metadata "mcp_server")
            (or_default (get metadata "mcpServer") (str "")))) in
      if nonempty explicit
      then explicit
      else if starts_with tool_name "demo_"
      then "deepticket-demo"
      else "unknown"

  -- `str(event.get("session_id") or event.get("metadata", {}).get("session_id") or "").strip()`
  unfoldable pub session_id_of : Fields → Result String
  session_id_of event =
      if falsy (get event "session_id")
      then Pure.◌>>=◌ (session_in_metadata (get event "metadata"))
          (λ found. ok (strip (str_of (or_default found (str "")))))
      else ok (strip (text_or_blank event "session_id"))

  unfoldable pub call_of : String → Fields → Result HookCall
  call_of tool_name event = Pure.◌>>=◌ (session_id_of event) λ session_id.
      Pure.◌>>=◌ (parse_tool_arguments (get event "tool_input")) λ arguments. ok (record {
        tool_name = tool_name;
        session_id = session_id;
        metadata = metadata_of (get event "metadata");
        arguments = arguments;
        mcp_server = infer_mcp_server tool_name (metadata_of (get event "metadata"));
      })

  unfoldable pub caller_of : Fields → Option GovernanceSessionContext → Caller
  caller_of metadata (some session) = record {
    project_id = session.project_id;
    run_id = session.run_id;
    uid = session.uid;
    chat_id = session.chat_id;
    user_is_admin = session.user_is_admin;
  }
  caller_of metadata none = record {
    project_id = text_or metadata "project_id" "default";
    run_id = text_or metadata "run_id" "";
    uid = text_or metadata "uid" "unknown";
    chat_id = optional_at metadata "chat_id";
    user_is_admin = elim (get metadata "user_is_admin") [ none ↦ false | some v ↦ truthy v ];
  }

  -- The context of a call outside of any run
  unfoldable pub context_of : HookCall → Caller → ToolInvocationContext
  context_of call caller = record {
    project_id = caller.project_id;
    mcp_server = call.mcp_server;
    tool_name = call.tool_name;
    arguments = call.arguments;
    tool_known = true;
    run_id = caller.run_id;
    uid = caller.uid;
    chat_id = caller.chat_id;
    oh_conversation_id = some_if (nonempty call.session_id) call.session_id;
    user_is_admin = caller.user_is_admin;
    extra = end;
  }

  abbrev pub policy_answer : String → PolicyEvaluation → PolicyDecision → Bool × String
  policy_answer tool_name evaluation allow = (true, "")
  policy_answer tool_name evaluation _ =
      (false, "Tool " <> tool_name <> " blocked by policy (" <> evaluation.matched_rule <> ")")

  -- `str(result.block_message or "Tool blocked by policy")`
  abbrev pub message_of : Option String → String
  message_of none = "Tool blocked by policy"
  message_of (some m) = if nonempty m then m else "Tool blocked by policy"

  unfoldable pub gate_answer :
      ToolGovernanceGate → Caller → ToolGovernanceResult → Action (Bool × String)
  gate_answer gate caller result =
      let message = message_of result.block_message in
      if not result.blocked then pure (true, "") else (do
        when result.waiting_approval (
            mark_run_waiting_approval caller.project_id caller.run_id caller.uid caller.chat_id
              message gate.events)
        pure (false, message))

  unfoldable pub answer : ToolGovernanceGate → HookCall → Caller → Action (Bool × String)
  answer gate call caller =
      if not (nonempty caller.run_id)
      then (do
        let evaluation = evaluate gate.policy (context_of call caller)
        pure (policy_answer call.tool_name evaluation evaluation.decision))
      else (do
        result ←
            evaluate_mcp_tool gate caller.project_id caller.run_id call.mcp_server call.tool_name
              call.arguments caller.uid caller.chat_id
              (some_if (nonempty call.session_id) call.session_id) caller.user_is_admin
        gate_answer gate caller result)

  unfoldable pub session_for : String → Action (Option GovernanceSessionContext)
  session_for session_id = if nonempty session_id then get_by_conversation session_id else pure none

  unfoldable pub evaluate_call : ToolGovernanceConfig → String → Fields → Action (Bool × String)
  evaluate_call config tool_name event = do
    call ← lift (call_of tool_name event)
    session ← session_for call.session_id
    answer (build_stack config) call (caller_of call.metadata session)

  unfoldable pub evaluate_hook_event : ToolGovernanceConfig → Fields → Action (Bool × String)
  evaluate_hook_event config event =
      let tool_name = strip (text_or_blank event "tool_name") in
      if not (nonempty tool_name) then pure (true, "") else evaluate_call config tool_name event

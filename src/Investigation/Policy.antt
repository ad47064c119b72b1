-- ===== src/Investigation/Policy.antt =====
-- deepticket/config/tool_governance.py and deepticket/investigation/policy/: what decides a tool call.
-- A strategy is its `evaluate` method; one that is given from outside is an argument.
pub mod Precedence
pub mod Chain
use deepticket.Prelude.{
  String, Bool, true, false, not, Option, none, some, List, [], ◌∷◌, ◌++◌, ◌==◌, ◌&&◌,
  if◌then◌else◌,
}
use deepticket.Prelude.Text.{◌<>◌, nonempty, strip}
use deepticket.Json.{Fields}

pub data PolicyDecision : Type 0 where
  allow deny require_approval : PolicyDecision

abbrev pub decision_value : PolicyDecision → String
decision_value allow = "allow"
decision_value deny = "deny"
decision_value require_approval = "require_approval"

-- `UnknownToolMode`
pub data UnknownToolMode : Type 0 where
  mode_allow mode_audit mode_deny : UnknownToolMode

-- `McpGovernanceRule` and `GlobalGovernanceRule`, which have the same fields
pub record GovernanceRule : Type 0 where
  pub default : PolicyDecision
  pub unknown_tool_mode : UnknownToolMode

-- The dictionaries of the configuration, as lists with each key once. The value of a key of `tools` is
-- the `decision` of its `ToolPolicyRule`.
pub record ToolGovernanceConfig : Type 0 where
  pub global : GovernanceRule
  pub mcp : List (String × GovernanceRule)
  pub tools : List (String × PolicyDecision)

abbrev pub default_rule : GovernanceRule
default_rule = record { default = allow; unknown_tool_mode = mode_audit }

abbrev pub default_config : ToolGovernanceConfig
default_config = record { global = default_rule; mcp = []; tools = [] }

-- `d[k]` where `k in d`
unfoldable pub lookup {ℓ} : {V : Type ℓ} → String → List (String × V) → Option V
lookup k [] = none
lookup k ((j, v) ∷ rest) = if j == k then some v else lookup k rest

pub record PolicyEvaluation : Type 0 where
  pub decision : PolicyDecision
  pub reason : String
  pub matched_rule : String

pub record ToolInvocationContext : Type 0 where
  pub project_id : String
  pub mcp_server : String
  pub tool_name : String
  pub arguments : Fields
  pub tool_known : Bool
  pub run_id : String
  pub uid : String
  pub chat_id : Option String
  pub oh_conversation_id : Option String
  pub user_is_admin : Bool
  pub extra : Fields

-- `ctx.with_updates(tool_known=known)`
abbrev pub with_tool_known : ToolInvocationContext → Bool → ToolInvocationContext
with_tool_known ctx known = record ctx { tool_known = known }

abbrev pub Strategy : Type 0
Strategy = ToolInvocationContext → Option PolicyEvaluation

unfoldable pub unknown_tool_decision : UnknownToolMode → String → Option PolicyEvaluation
unknown_tool_decision mode_allow scope = none
unknown_tool_decision mode_deny scope = some (record {
  decision = deny;
  reason = "unknown tool blocked (" <> scope <> ")";
  matched_rule = "unknown_tool." <> scope;
})
unknown_tool_decision mode_audit scope = some (record {
  decision = allow;
  reason = "unknown tool audited (" <> scope <> ")";
  matched_rule = "unknown_tool.audit." <> scope;
})

-- `unknown = ... if unknown is not None: return unknown`, under `if not ctx.tool_known`
unfoldable pub unless_known : Bool → UnknownToolMode → String → PolicyEvaluation → PolicyEvaluation
unfolding unknown_tool_decision
unless_known true mode scope otherwise = otherwise
unless_known false mode scope otherwise = elim (unknown_tool_decision mode scope) [
  | none ↦ otherwise
  | some unknown ↦ unknown
]

abbrev pub tool_rule : String → PolicyDecision → PolicyEvaluation
tool_rule key decision = record {
  decision = decision;
  reason = "matched tools." <> key;
  matched_rule = "tools." <> key;
}

abbrev pub server_rule : Bool → String → GovernanceRule → PolicyEvaluation
server_rule known server rule = unless_known known rule.unknown_tool_mode server (record {
  decision = rule.default;
  reason = "matched mcp." <> server <> ".default";
  matched_rule = "mcp." <> server <> ".default";
})

abbrev pub global_rule : Bool → String → GovernanceRule → PolicyEvaluation
global_rule known server rule =
    unless_known known rule.unknown_tool_mode (if nonempty server then server else "global")
      (record {
        decision = rule.default;
        reason = "matched global.default";
        matched_rule = "global.default";
      })

abbrev pub by_server :
    ToolGovernanceConfig → Bool → String → Option GovernanceRule → PolicyEvaluation
by_server config known server none = global_rule known server config.global
by_server config known server (some rule) =
    if nonempty server
    then server_rule known server rule
    else global_rule known server config.global

abbrev pub by_tool :
    ToolGovernanceConfig → ToolInvocationContext → Option PolicyDecision → PolicyEvaluation
by_tool config ctx (some decision) = tool_rule (strip ctx.tool_name) decision
by_tool config ctx none =
    let server = strip ctx.mcp_server in
    by_server config ctx.tool_known server (lookup server config.mcp)

-- `YamlToolGovernanceStrategy(config).evaluate`
unfoldable pub yaml_strategy : ToolGovernanceConfig → Strategy
yaml_strategy config ctx = some (by_tool config ctx (lookup (strip ctx.tool_name) config.tools))

-- `ToolGovernanceEngine(strategies).evaluate`
abbrev pub default_allow : PolicyEvaluation
default_allow = record {
  decision = allow;
  reason = "no strategy matched; default allow";
  matched_rule = "default.allow";
}

unfoldable pub evaluate_chain : List Strategy → ToolInvocationContext → PolicyEvaluation
evaluate_chain [] ctx = default_allow
evaluate_chain (strategy ∷ rest) ctx =
    let next = evaluate_chain rest ctx in elim (strategy ctx) [ none ↦ next | some result ↦ result ]

-- `PolicyEngine`, which holds the chain of its `ToolGovernanceEngine`
pub record PolicyEngine : Type 0 where
  pub strategies : List Strategy

unfoldable pub policy_engine : ToolGovernanceConfig → List Strategy → PolicyEngine
policy_engine config extra_strategies = record {
  strategies = extra_strategies ++ yaml_strategy config ∷ [];
}

unfoldable pub with_strategies : PolicyEngine → List Strategy → PolicyEngine
with_strategies engine more = record { strategies = more ++ engine.strategies }

unfoldable pub evaluate : PolicyEngine → ToolInvocationContext → PolicyEvaluation
unfolding evaluate_chain
evaluate engine ctx = evaluate_chain engine.strategies ctx

-- policy/examples.py: `AdminBypassDeleteStrategy().evaluate`
unfoldable pub admin_bypass_delete : Strategy
admin_bypass_delete ctx =
    if ctx.tool_name == "demo_delete_resource" && ctx.user_is_admin
    then some (record {
      decision = allow;
      reason = "admin bypass for demo_delete_resource";
      matched_rule = "custom.admin_bypass_delete";
    })
    else none

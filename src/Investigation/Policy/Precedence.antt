-- ===== src/Investigation/Policy/Precedence.antt =====
-- Which of the configured rules decides.
use deepticket.Prelude.{String, ◌≡◌, refl, ap, ◌∙◌, Bool, true, false, Option, none, some, arith}
use deepticket.Prelude.Text.{strip, nonempty}
use deepticket.Investigation.Policy.{
  PolicyDecision, allow, deny, mode_allow, mode_audit, mode_deny, GovernanceRule,
  ToolGovernanceConfig, ToolInvocationContext, PolicyEvaluation, evaluate, policy_engine,
  yaml_strategy, lookup, unless_known, by_tool, by_server,
}
use deepticket.Prelude.{[]}
use deepticket.Investigation.Policy.Chain.{evaluate_configured}

-- The decision of the configured rules.
pub configured : ToolGovernanceConfig → ToolInvocationContext → PolicyDecision
configured config ctx = (evaluate (policy_engine config []) ctx).decision

configured-by_tool :
    (config : ToolGovernanceConfig) (ctx : ToolInvocationContext)
    → configured config ctx
      ≡ (by_tool config ctx (lookup (strip ctx.tool_name) config.tools)).decision
unfolding configured yaml_strategy
configured-by_tool config ctx =
    let same : evaluate (policy_engine config []) ctx
        ≡ by_tool config ctx (lookup (strip ctx.tool_name) config.tools) =
      cc (evaluate_configured config [] ctx tt) in
    ap (λ (e : PolicyEvaluation). e.decision) same

-- The rule for the unknown tools of the call's server: that server's, or the global one.
pub data Scope (config : ToolGovernanceConfig) (ctx : ToolInvocationContext)
    : GovernanceRule → Type 0 where
  server :
      (rule : GovernanceRule)
      → nonempty (strip ctx.mcp_server) ≡ true
      → lookup (strip ctx.mcp_server) config.mcp ≡ some rule
      → Scope config ctx rule
  no_server : nonempty (strip ctx.mcp_server) ≡ false → Scope config ctx config.global
  other_server : lookup (strip ctx.mcp_server) config.mcp ≡ none → Scope config ctx config.global

-- The decision that a rule stands for: its default, but for an unknown tool under `deny` or `audit`.
unfoldable pub decide : GovernanceRule → Bool → PolicyDecision
decide rule true = rule.default
decide rule false = elim rule.unknown_tool_mode [
  | mode_allow ↦ rule.default
  | mode_audit ↦ allow
  | mode_deny ↦ deny
]

unless-decide :
    (known : Bool) (rule : GovernanceRule) (scope : String) (e : PolicyEvaluation)
    → e.decision ≡ rule.default
    → (unless_known known rule.unknown_tool_mode scope e).decision ≡ decide rule known
unfolding unless_known decide
unless-decide known rule scope e h = ground arith

by_server-decide :
    (config : ToolGovernanceConfig) (ctx : ToolInvocationContext) (o : Option GovernanceRule)
    → nonempty (strip ctx.mcp_server) ≡ false
    → (by_server config ctx.tool_known (strip ctx.mcp_server) o).decision
      ≡ decide config.global ctx.tool_known
by_server-decide config ctx none n = unless-decide ctx.tool_known config.global _ _ refl
by_server-decide config ctx (some rule) n =
    rw n (unless-decide ctx.tool_known config.global _ _ refl)

-- A call with no entry for its tool is decided by the rule in scope: a known tool, or an unknown one
-- that the rule lets through, gets the rule's default; an unknown tool is denied under `deny`, and is
-- allowed under `audit` whatever the default is.
pub configured_in-Scope :
    (config : ToolGovernanceConfig) (ctx : ToolInvocationContext) (rule : GovernanceRule)
    → lookup (strip ctx.tool_name) config.tools ≡ none
    → Scope config ctx rule
    → configured config ctx ≡ decide rule ctx.tool_known
unfolding unless_known decide
configured_in-Scope config ctx rule h (server _ n f) =
    configured-by_tool config ctx ∙ rw h (rw f (rw n (unless-decide ctx.tool_known rule _ _ refl)))
configured_in-Scope config ctx rule h (no_server n) =
    configured-by_tool config ctx
    ∙ rw h (by_server-decide config ctx (lookup (strip ctx.mcp_server) config.mcp) n)
configured_in-Scope config ctx rule h (other_server f) =
    configured-by_tool config ctx
    ∙ rw h (rw f (unless-decide ctx.tool_known config.global _ _ refl))

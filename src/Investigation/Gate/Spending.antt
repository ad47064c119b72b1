-- ===== src/Investigation/Gate/Spending.antt =====
-- A grant passes one call of the gate: the call that it passes spends it.
use deepticket.Prelude.{
  String, ◌≡◌, refl, sym, ap, ap₂, ◌∙◌, inl, inr, Bool, true, false, ◌&&◌, not, if◌then◌else◌,
  Bool-cases, ◌==◌, eq_iff, eq_refl,
}
use deepticket.Prelude.Text.{nonempty}
use deepticket.Env.{Env}
use deepticket.Exec.{ok}
use deepticket.World.{World}
use deepticket.Investigation.Approvals.{grant_key}
use deepticket.Investigation.Approvals.Grants.{granted, is_some, granted-consume}
use deepticket.Investigation.Policy.{ToolInvocationContext, with_tool_known, evaluate}
use deepticket.Investigation.Gate.{
  ToolGovernanceGate, ToolGovernanceResult, grant_evaluation, passed, is_known_tool, use_grant,
  evaluate_by_policy, evaluate_granted, evaluate_context,
}
use deepticket.Investigation.Gate.Outcomes.{
  is_known_tool_pure, grant_there, Outcome, by_grant, allowed, refused, waiting,
  evaluate_context-Outcome, is_allow,
}
use deepticket.Investigation.Gate.Registered.{Registered, is_known_tool-Registered}
use deepticket.Investigation.Gate.Keeping.{
  KeepsGrants, after_continue, Keeps-evaluate_by_policy, Keeps-evaluate_granted,
}

and_false : (b : Bool) → (b && false) ≡ false
and_false true = refl
and_false false = refl

if-false : (b : Bool) → false ≡ (if b && true then false else b)
if-false true = refl
if-false false = refl

if-and_false : (b c : Bool) → c ≡ (if b && false then false else c)
if-and_false true c = refl
if-and_false false c = refl

module _ ⦃env : Env⦄ (gate : ToolGovernanceGate) where
  module _ (ctx : ToolInvocationContext) (w : World) (p r tool : String) where
    abbrev pub same_grant : Bool
    same_grant = grant_key ctx.project_id ctx.run_id ctx.tool_name == grant_key p r tool

    use_grant-spends :
        granted p r tool (use_grant gate ctx w).1.storage
        ≡ (if grant_there gate ctx w && same_grant then false else granted p r tool w.storage)
    unfolding use_grant
    use_grant-spends = elim (Bool-cases (nonempty ctx.run_id && gate.approvals)) [
      | inl e ↦ rw e (
          rw granted-consume (elim (Bool-cases same_grant) [
            | inl q ↦
                let same : grant_key ctx.project_id ctx.run_id ctx.tool_name ≡ grant_key p r tool =
                  (eq_iff _ _).0 q in
                rw (q, sym same)
                  (if-false (granted ctx.project_id ctx.run_id ctx.tool_name w.storage))
            | inr q ↦
                rw q (if-and_false (granted ctx.project_id ctx.run_id ctx.tool_name w.storage) _)
          ]))
      | inr e ↦ rw e refl
    ]

    Keeps-branch :
        (g : Bool)
        → KeepsGrants (if g then evaluate_granted gate ctx else evaluate_by_policy gate ctx)
    Keeps-branch true = Keeps-evaluate_granted gate ctx
    Keeps-branch false = Keeps-evaluate_by_policy gate ctx

  -- A call of which the registry can say whether its tool is known leaves the grants as they were, with
  -- one exception: where a grant of its tool in its run is there, it leaves none.
  pub evaluate_context-spends :
      (given : ToolInvocationContext) (w : World) (known : Bool) (p r tool : String)
      → (is_known_tool gate given.project_id given.mcp_server given.tool_name w).0 ≡ ok known
      → granted p r tool (evaluate_context gate given w).1.storage ≡ (
          if grant_there gate given w && same_grant given w p r tool
          then false
          else granted p r tool w.storage)
  unfolding evaluate_context
  evaluate_context-spends given w known p r tool h =
      let asked : is_known_tool gate given.project_id given.mcp_server given.tool_name w
          ≡ (ok known, w) =
        ap₂ (λ a b. (a, b)) h
          (is_known_tool_pure gate given.project_id given.mcp_server given.tool_name w) in
      let ctx = with_tool_known given known in
      let (g, w') = use_grant gate ctx w in
      rw asked (
        ap is_some (after_continue (grant_key p r tool) g w' _ (Keeps-branch ctx w p r tool))
        ∙ use_grant-spends ctx w p r tool)

  granted_passes :
      (ctx : ToolInvocationContext) (w : World) (r : ToolGovernanceResult)
      → grant_there gate ctx w ≡ true
      → Outcome gate ctx w r
      → r ≡ passed grant_evaluation
  granted_passes ctx w r h (by_grant g e) = e
  granted_passes ctx w r h (allowed g d e) = cc (h, g)
  granted_passes ctx w r h (refused g d e) = cc (h, g)
  granted_passes ctx w r h (waiting id g d e) = cc (h, g)

  pub ungranted_blocked :
      (ctx : ToolInvocationContext) (w : World) (r : ToolGovernanceResult)
      → grant_there gate ctx w ≡ false
      → Outcome gate ctx w r
      → r.blocked ≡ not (is_allow (evaluate gate.policy ctx).decision)
  ungranted_blocked ctx w r h (by_grant g e) = cc (h, g)
  ungranted_blocked ctx w r h (allowed g d e) = rw (d, e) refl
  ungranted_blocked ctx w r h (refused g d e) = rw (d, e) refl
  ungranted_blocked ctx w r h (waiting id g d e) = rw (d, e) refl

  spent :
      (given : ToolInvocationContext) (w : World) (known : Bool)
      → grant_there gate given w ≡ true
      → (is_known_tool gate given.project_id given.mcp_server given.tool_name w).0 ≡ ok known
      → grant_there gate given (evaluate_context gate given w).1 ≡ false
  spent given w known g h =
      let left =
        evaluate_context-spends given w known given.project_id given.run_id given.tool_name h in
      rw (left, g, eq_refl) (and_false (nonempty given.run_id && gate.approvals))

  -- Two calls of one tool in one run, where a grant for it is there and nothing happens between them: the
  -- grant passes the first, and the second, if the gate answers it, is blocked unless the policy allows
  -- it, the tool being known or unknown as the registry's listing then has it.
  pub evaluate_context_twice :
      (given : ToolInvocationContext) (w : World) (r r' : ToolGovernanceResult)
      → grant_there gate given w ≡ true
      → (evaluate_context gate given w).0 ≡ ok r
      → (evaluate_context gate given (evaluate_context gate given w).1).0 ≡ ok r'
      → (r ≡ passed grant_evaluation)
        × ((known : Bool) × Registered gate given (evaluate_context gate given w).1 known
            × (r'.blocked
                ≡ not (is_allow (evaluate gate.policy (with_tool_known given known)).decision)))
  evaluate_context_twice given w r r' g h h' =
      let (known, e, o) = evaluate_context-Outcome gate given w r h in
      let (known', e', o') =
        evaluate_context-Outcome gate given (evaluate_context gate given w).1 r' h' in
      (
        granted_passes (with_tool_known given known) w r g o,
        (
          known',
          is_known_tool-Registered gate given (evaluate_context gate given w).1 known' e',
          ungranted_blocked (with_tool_known given known') _ r' (spent given w known g e) o',
        ),
      )

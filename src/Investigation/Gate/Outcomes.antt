-- ===== src/Investigation/Gate/Outcomes.antt =====
-- What the gate lets through, and what it holds.
use deepticket.Prelude.{
  String, ◌≡◌, refl, inl, inr, Bool, true, false, Option, ◌&&◌, ◌||◌, not, if◌then◌else◌,
  Bool-cases,
}
use deepticket.Prelude.Text.{nonempty, strip}
use deepticket.Env.{Env}
use deepticket.Exec.{Result, ok, err, pure, when, continue, ◌>>=◌, ◌>>◌}
use deepticket.World.{World, Action}
use deepticket.Investigation.Approvals.Grants.{granted, consume-granted}
use deepticket.Investigation.Policy.{
  PolicyDecision, allow, deny, require_approval, PolicyEvaluation, ToolInvocationContext,
  with_tool_known, evaluate,
}
use deepticket.Investigation.Registry.{get_tools}
use deepticket.Investigation.Gate.{
  ToolGovernanceGate, ToolGovernanceResult, passed, denied, held, grant_evaluation, deny_message,
  approval_message, is_known_tool, names_known, audit, record_block_event, use_grant,
  request_approval, enforce, evaluate_by_policy, evaluate_granted, evaluate_context,
}

abbrev pub is_allow : PolicyDecision → Bool
is_allow allow = true
is_allow _ = false

module _ {A B : Type 0} where
  continue_returned :
      (r : Result A) (f : A → Action B) (w : World) (b : B)
      → (continue (r, w) f).0 ≡ ok b
      → (a : A) × (r ≡ ok a) × ((f a w).0 ≡ ok b)
  continue_returned (ok a) f w b h = (a, refl, h)
  continue_returned (err e) f w b h = cc h

  -- An action that returned a value has a first part that returned one.
  pub bind_returned :
      (m : Action A) (f : A → Action B) (w : World) (b : B)
      → ((m >>= f) w).0 ≡ ok b
      → (a : A) × ((m w).0 ≡ ok a) × ((f a (m w).1).0 ≡ ok b)
  bind_returned m f w b h = let (r, w') = m w in continue_returned r f w' b h

pub after_note :
    {A : Type 0} (m : Action (Unit {0})) (a : A) (w : World) (r : A)
    → ((m >> pure a) w).0 ≡ ok r
    → r ≡ a
after_note m a w r h = let (u, e, q) = bind_returned m (λ _. pure a) w r h in cc q

continue_pure :
    {A B : Type 0} (r : Result A) (f : A → Result B) (w : World)
    → (continue {S = World} (r, w) (λ a s. (f a, s))).1 ≡ w
continue_pure (ok a) f w = refl
continue_pure (err e) f w = refl

module _ ⦃env : Env⦄ (gate : ToolGovernanceGate) where
  -- The gate uses a grant of the tool in the run that is there.
  abbrev pub grant_there : ToolInvocationContext → World → Bool
  grant_there ctx w =
      nonempty ctx.run_id
      && gate.approvals
      && granted ctx.project_id ctx.run_id ctx.tool_name w.storage

  -- The four ways a call may be answered.
  pub data Outcome (ctx : ToolInvocationContext) (w : World) (r : ToolGovernanceResult)
      : Type 0 where
    by_grant : grant_there ctx w ≡ true → r ≡ passed grant_evaluation → Outcome ctx w r
    allowed :
        grant_there ctx w ≡ false
        → (evaluate gate.policy ctx).decision ≡ allow
        → r ≡ passed (evaluate gate.policy ctx)
        → Outcome ctx w r
    refused :
        grant_there ctx w ≡ false
        → (evaluate gate.policy ctx).decision ≡ deny
        → r ≡ denied (evaluate gate.policy ctx) (deny_message ctx (evaluate gate.policy ctx))
        → Outcome ctx w r
    waiting :
        (id : Option String)
        → grant_there ctx w ≡ false
        → (evaluate gate.policy ctx).decision ≡ require_approval
        → r ≡ held (evaluate gate.policy ctx) (approval_message ctx (evaluate gate.policy ctx)) id
        → Outcome ctx w r

  pub is_known_tool_pure :
      (p server tool : String) (w : World) → (is_known_tool gate p server tool w).1 ≡ w
  unfolding is_known_tool
  is_known_tool_pure p server tool w =
      elim (Bool-cases (not gate.registry || not (nonempty (strip server)))) [
        | inl e ↦ rw e refl
        | inr e ↦
            rw e (
              continue_pure (get_tools w.storage p server) (λ tools. ok (names_known tool tools)) w)
      ]

  pub use_grant-answers :
      (ctx : ToolInvocationContext) (w : World) → (use_grant gate ctx w).0 ≡ ok (grant_there ctx w)
  unfolding use_grant
  use_grant-answers ctx w = elim (Bool-cases (nonempty ctx.run_id && gate.approvals)) [
    | inl e ↦ rw e (consume-granted ctx.project_id ctx.run_id ctx.tool_name w)
    | inr e ↦ rw e refl
  ]

  Answer : ToolInvocationContext → PolicyEvaluation → PolicyDecision → ToolGovernanceResult → Type 0
  Answer ctx e allow r = r ≡ passed e
  Answer ctx e deny r = r ≡ denied e (deny_message ctx e)
  Answer ctx e require_approval r = (id : Option String) × (r ≡ held e (approval_message ctx e) id)

  abbrev noted : ToolInvocationContext → String → String → Action (Unit {0})
  noted ctx message code =
      when (nonempty ctx.run_id)
        (record_block_event gate.events ctx.project_id ctx.run_id message code)

  enforce-Answer :
      (ctx : ToolInvocationContext) (e : PolicyEvaluation) (d : PolicyDecision) (w : World)
      (r : ToolGovernanceResult)
      → (enforce gate ctx e d w).0 ≡ ok r
      → Answer ctx e d r
  unfolding enforce Answer
  enforce-Answer ctx e allow w r h = cc h
  enforce-Answer ctx e deny w r h =
      after_note (noted ctx (deny_message ctx e) "policy_denied") (denied e (deny_message ctx e)) w
        r h
  enforce-Answer ctx e require_approval w r h =
      let (id, a, h') = bind_returned (request_approval gate ctx) _ w r h in
      (
        id,
        after_note (noted ctx (approval_message ctx e) "approval_required")
            (held e (approval_message ctx e) id) (request_approval gate ctx w).1 r h',
      )

  decided :
      (ctx : ToolInvocationContext) (w : World) (r : ToolGovernanceResult) (d : PolicyDecision)
      → grant_there ctx w ≡ false
      → (evaluate gate.policy ctx).decision ≡ d
      → Answer ctx (evaluate gate.policy ctx) d r
      → Outcome ctx w r
  unfolding Answer
  decided ctx w r allow g e a = allowed g e a
  decided ctx w r deny g e a = refused g e a
  decided ctx w r require_approval g e a = waiting a.0 g e a.1

  branch-Outcome :
      (ctx : ToolInvocationContext) (w v : World) (r : ToolGovernanceResult) (g : Bool)
      → grant_there ctx w ≡ g
      → ((if g then evaluate_granted gate ctx else evaluate_by_policy gate ctx) v).0 ≡ ok r
      → Outcome ctx w r
  unfolding evaluate_granted evaluate_by_policy
  branch-Outcome ctx w v r true e h =
      by_grant e (after_note (audit gate.events ctx grant_evaluation) _ v r h)
  branch-Outcome ctx w v r false e h =
      let audited = when (nonempty ctx.run_id) (audit gate.events ctx (evaluate gate.policy ctx)) in
      let (u, a, h') = bind_returned audited _ v r h in
      decided ctx w r _ e refl (enforce-Answer ctx (evaluate gate.policy ctx) _ (audited v).1 r h')

  module _ (given : ToolInvocationContext) (w : World) where
    -- A call that the gate answers is answered in one of four ways. A grant of its tool in its run passes
    -- it, whatever the policy says. Without a grant the policy's decision on the call, with what the
    -- registry says of the tool, passes it, refuses it, or holds it for an approval.
    pub evaluate_context-Outcome :
        (r : ToolGovernanceResult)
        → (evaluate_context gate given w).0 ≡ ok r
        → (known : Bool) × ((is_known_tool gate given.project_id given.mcp_server given.tool_name
              w).0
            ≡ ok known)
          × Outcome (with_tool_known given known) w r
    unfolding evaluate_context
    evaluate_context-Outcome r h =
        let asked = is_known_tool gate given.project_id given.mcp_server given.tool_name in
        let (known, e, h') = bind_returned asked _ w r h in
        let (g, f, h'') =
          bind_returned (use_grant gate (with_tool_known given known)) _ (asked w).1 r h' in
        let answers = use_grant-answers (with_tool_known given known) (asked w).1 in
        let same = is_known_tool_pure given.project_id given.mcp_server given.tool_name w in
        let there : grant_there (with_tool_known given known) (asked w).1 ≡ g = cc (answers, f) in
        (known, e, branch-Outcome (with_tool_known given known) w _ r g (rw same at there) h'')

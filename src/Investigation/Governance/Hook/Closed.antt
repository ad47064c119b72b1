-- ===== src/Investigation/Governance/Hook/Closed.antt =====
-- The hook fails closed: what it lets through, a grant or the policy lets through.
use deepticket.Prelude.{String, ◌≡◌, refl, ap, inl, inr, Bool, true, false, not, Option, Bool-cases}
use deepticket.Prelude.Text.{nonempty, strip}
use deepticket.Json.{Fields}
use deepticket.Env.{Env}
use deepticket.Exec.{ok, lift, when}
use deepticket.World.{World}
use deepticket.Investigation.Approvals.{text_or_blank}
use deepticket.Investigation.Policy.{
  PolicyDecision, allow, deny, require_approval, PolicyEvaluation, ToolGovernanceConfig,
  ToolInvocationContext, with_tool_known, evaluate,
}
use deepticket.Investigation.Gate.{
  ToolGovernanceGate, ToolGovernanceResult, evaluate_context, evaluate_mcp_tool,
}
use deepticket.Investigation.Gate.Outcomes.{
  Outcome, allowed, refused, waiting, grant_there, evaluate_context-Outcome, bind_returned,
  after_note,
}
use deepticket.Investigation.Gate.Registered.{Registered, is_known_tool-Registered, blank}
use deepticket.Investigation.Governance.Sessions.{GovernanceSessionContext, get_by_conversation}
use deepticket.Investigation.Governance.Pause.{mark_run_waiting_approval}
use deepticket.Investigation.Governance.Hook.{
  HookCall, Caller, call_of, caller_of, context_of, policy_answer, message_of, gate_answer, answer,
  session_for, evaluate_call, evaluate_hook_event, build_stack,
}

module _ ⦃env : Env⦄ where
  -- A grant for the call is there; or the policy allows it, the tool being known or unknown as the
  -- registry's listing has it; or the call belongs to no run, and the policy allows it as one of a known
  -- tool.
  pub data Permitted (gate : ToolGovernanceGate) (ctx : ToolInvocationContext) (w : World)
      : Type 0 where
    by_grant : grant_there gate ctx w ≡ true → Permitted gate ctx w
    by_policy :
        (known : Bool)
        → Registered gate ctx w known
        → (evaluate gate.policy (with_tool_known ctx known)).decision ≡ allow
        → Permitted gate ctx w
    outside_runs :
        ctx.run_id ≡ ""
        → (evaluate gate.policy (with_tool_known ctx true)).decision ≡ allow
        → Permitted gate ctx w

  unblocked-Permitted :
      (gate : ToolGovernanceGate) (ctx : ToolInvocationContext) (known : Bool) (w : World)
      (r : ToolGovernanceResult)
      → r.blocked ≡ false
      → Registered gate ctx w known
      → Outcome gate (with_tool_known ctx known) w r
      → Permitted gate ctx w
  unblocked-Permitted gate ctx known w r h k (Outcome.by_grant g e) = by_grant g
  unblocked-Permitted gate ctx known w r h k (allowed g d e) = by_policy known k d
  unblocked-Permitted gate ctx known w r h k (refused g d e) = cc (rw e at h)
  unblocked-Permitted gate ctx known w r h k (waiting id g d e) = cc (rw e at h)

  policy_answer-allow :
      (tool m : String) (e : PolicyEvaluation) (d : PolicyDecision)
      → policy_answer tool e d ≡ (true, m)
      → d ≡ allow
  policy_answer-allow tool m e allow h = refl
  policy_answer-allow tool m e deny h = let q : false ≡ true = ap (λ x. x.0) h in cc q
  policy_answer-allow tool m e require_approval h = let q : false ≡ true = ap (λ x. x.0) h in cc q

  gate_answer-unblocked :
      (gate : ToolGovernanceGate) (caller : Caller) (r : ToolGovernanceResult) (w : World)
      (m : String)
      → (gate_answer gate caller r w).0 ≡ ok (true, m)
      → r.blocked ≡ false
  unfolding gate_answer
  gate_answer-unblocked gate caller r w m h = elim (Bool-cases r.blocked) [
    | inl e ↦
        let note = when r.waiting_approval (
          mark_run_waiting_approval caller.project_id caller.run_id caller.uid caller.chat_id
            (message_of r.block_message) gate.events) in
        let q = after_note note (false, message_of r.block_message) w (true, m) (rw e at h) in
        let f : true ≡ false = ap (λ x. x.0) q in cc f
    | inr e ↦ e
  ]

  answer-Permitted :
      (gate : ToolGovernanceGate) (call : HookCall) (caller : Caller) (w : World) (m : String)
      → (answer gate call caller w).0 ≡ ok (true, m)
      → Permitted gate (context_of call caller) w
  unfolding answer evaluate_mcp_tool context_of
  answer-Permitted gate call caller w m h = elim (Bool-cases (not (nonempty caller.run_id))) [
    | inl e ↦
        let evaluation = evaluate gate.policy (context_of call caller) in
        let q : policy_answer call.tool_name evaluation evaluation.decision ≡ (true, m) =
          cc (rw e at h) in
        outside_runs (blank caller.run_id e)
          (policy_answer-allow call.tool_name m evaluation evaluation.decision q)
    | inr e ↦
        let (r, f, g) =
          bind_returned (evaluate_context gate (context_of call caller)) _ w (true, m)
            (rw e at h) in
        let (known, k, o) = evaluate_context-Outcome gate (context_of call caller) w r f in
        unblocked-Permitted gate (context_of call caller) known w r
          (gate_answer-unblocked gate caller r _ m g)
          (is_known_tool-Registered gate (context_of call caller) w known k) o
  ]

  session_for_pure : (id : String) (w : World) → (session_for id w).1 ≡ w
  unfolding session_for get_by_conversation
  session_for_pure id w = elim (Bool-cases (nonempty id)) [ inl e ↦ rw e refl | inr e ↦ rw e refl ]

  -- Where `evaluate_hook_event` returns that the call of a named tool may go on, the event was readable, and
  -- for the call that it describes, on behalf of its conversation's session or else of its metadata, a
  -- grant is there, or the policy decides to allow it: with the tool known or unknown as the registry's
  -- listing of its server has it, or, for a call outside of any run, with the tool taken as known.
  pub evaluate_hook_event-Permitted :
      (config : ToolGovernanceConfig) (event : Fields) (w : World) (m : String)
      → nonempty (strip (text_or_blank event "tool_name")) ≡ true
      → (evaluate_hook_event config event w).0 ≡ ok (true, m)
      → (call : HookCall) × (session : Option GovernanceSessionContext) × (call_of
            (strip (text_or_blank event "tool_name"))
            event
          ≡ ok call)
        × ((session_for call.session_id w).0 ≡ ok session)
        × Permitted (build_stack config) (context_of call (caller_of call.metadata session)) w
  unfolding evaluate_hook_event evaluate_call
  evaluate_hook_event-Permitted config event w m named h =
      let tool = strip (text_or_blank event "tool_name") in
      let (call, e, h') = bind_returned (lift (call_of tool event)) _ w (true, m) (rw named at h) in
      let (session, f, h'') = bind_returned (session_for call.session_id) _ w (true, m) h' in
      let same = session_for_pure call.session_id w in
      let caller = caller_of call.metadata session in
      (call, session, e, f, answer-Permitted (build_stack config) call caller w m (rw same at h''))

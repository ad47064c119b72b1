-- ===== src/Investigation/Gate/Keeping.antt =====
-- The parts of the gate that leave every grant as it is.
use deepticket.Prelude.{
  ℕ, String, ◌≡◌, refl, inl, inr, Option, none, some, List, [], ◌∷◌, ◌&&◌, Bool-cases, ◌==◌,
}
use deepticket.Prelude.Text.{nonempty}
use deepticket.Json.{Fields}
use deepticket.Env.{Env}
use deepticket.Exec.{Result, ok, err, continue}
use deepticket.Storage.Local.{get_json, set_json, zadd}
use deepticket.Storage.Laws.{get_json-set_json, get_json-zadd}
use deepticket.World.{World, Action, on_storage}
use deepticket.World.Keeps.{Keeps, Keeps-pure, Keeps-bind, Keeps-on_storage, keeps_rules}
use deepticket.Investigation.Events.{RunEventStore}
use deepticket.Investigation.Events.Frames.{IsApart, Keeps-append}
use deepticket.Investigation.Approvals.{
  ApprovalRequest, ns_approval, ns_approvals_by_run, ns_approval_grant, is_pending, pending_or,
  get_request, first_pending, get_pending_for_run, create, save,
}
use deepticket.Investigation.Policy.{
  PolicyDecision, allow, deny, require_approval, PolicyEvaluation, ToolInvocationContext,
}
use deepticket.Investigation.Gate.{
  ToolGovernanceGate, audit, record_block_event, request_approval, new_request, reuse_or_create,
  enforce, evaluate_by_policy, evaluate_granted,
}

-- What keeps every grant.
abbrev pub KeepsGrants : {A : Type 0} → Action A → Type 0
KeepsGrants m = Keeps ns_approval_grant m

grants-IsApart : IsApart ns_approval_grant
grants-IsApart = record {
  run = refl;
  by_user = refl;
  by_chat = refl;
  event = refl;
  events = refl;
  seq = refl;
}

pub after_continue :
    {A B : Type 0} (k : String) (r : Result A) (w : World) (f : A → Action B)
    → ((a : A) → KeepsGrants (f a))
    → get_json (continue (r, w) f).1.storage ns_approval_grant k
      ≡ get_json w.storage ns_approval_grant k
after_continue k (ok a) w f h = (h a).at w k
after_continue k (err e) w f h = refl

module _ ⦃env : Env⦄ where
  Keeps-get_request : (p id : String) → KeepsGrants (get_request p id)
  unfolding get_request
  Keeps-get_request p id = search (keeps_rules) depth 6

  Keeps-pending_or :
      (found : Option ApprovalRequest) (rest : Action (Option ApprovalRequest))
      → KeepsGrants rest
      → KeepsGrants (pending_or found rest)
  Keeps-pending_or none rest h = h
  Keeps-pending_or (some request) rest h = elim (Bool-cases (is_pending request.status)) [
    | inl e ↦ rw e (Keeps-pure (some request))
    | inr e ↦ rw e h
  ]

  Keeps-first_pending : (p : String) (ids : List String) → KeepsGrants (first_pending p ids)
  unfolding first_pending
  Keeps-first_pending p [] = Keeps-pure none
  Keeps-first_pending p (id ∷ ids) =
      let rest = Keeps-first_pending p ids in
      Keeps-bind (get_request p id) _ (Keeps-get_request p id)
        (λ found. Keeps-pending_or found _ rest)

  kept_doc : (k : String) (d : Fields) → KeepsGrants (on_storage (λ s. set_json s ns_approval k d))
  kept_doc k d = Keeps-on_storage (λ s. set_json s ns_approval k d) (λ s j. simp get_json-set_json)

  kept_score :
      (k m : String) (v : ℕ)
      → KeepsGrants (on_storage (λ s. zadd s ns_approvals_by_run k ((m, v) ∷ [])))
  kept_score k m v =
      Keeps-on_storage (λ s. zadd s ns_approvals_by_run k ((m, v) ∷ [])) (λ s j. simp get_json-zadd)

  Keeps-create :
      (p r tool server : String) (arguments : Fields)
      → KeepsGrants (create p r tool server arguments)
  unfolding create save
  Keeps-create p r tool server arguments = search (keeps_rules, kept_doc, kept_score) depth 12

  Keeps-get_pending_for_run : (p r : String) → KeepsGrants (get_pending_for_run p r)
  unfolding get_pending_for_run
  Keeps-get_pending_for_run p r = search (keeps_rules, Keeps-first_pending) depth 6

  Keeps-new_request : (ctx : ToolInvocationContext) → KeepsGrants (new_request ctx)
  unfolding new_request
  Keeps-new_request ctx = search (keeps_rules, Keeps-create) depth 6

  Keeps-reuse_or_create :
      (ctx : ToolInvocationContext) (found : Option ApprovalRequest)
      → KeepsGrants (reuse_or_create ctx found)
  Keeps-reuse_or_create ctx none = Keeps-new_request ctx
  Keeps-reuse_or_create ctx (some pending) =
      elim (Bool-cases (pending.tool_name == ctx.tool_name)) [
        | inl e ↦ rw e (Keeps-pure (some pending.approval_id))
        | inr e ↦ rw e (Keeps-new_request ctx)
      ]

module _ ⦃env : Env⦄ (gate : ToolGovernanceGate) where
  Keeps-request_approval : (ctx : ToolInvocationContext) → KeepsGrants (request_approval gate ctx)
  unfolding request_approval
  Keeps-request_approval ctx = elim (Bool-cases (gate.approvals && nonempty ctx.run_id)) [
    | inl e ↦ rw e (search (keeps_rules, Keeps-get_pending_for_run, Keeps-reuse_or_create) depth 8)
    | inr e ↦ rw e (Keeps-pure none)
  ]

  Keeps-audit :
      (events : Option RunEventStore) (ctx : ToolInvocationContext) (e : PolicyEvaluation)
      → KeepsGrants (audit events ctx e)
  unfolding audit
  Keeps-audit none ctx e = search keeps_rules depth 4
  Keeps-audit (some events) ctx e = search (keeps_rules, Keeps-append, grants-IsApart) depth 6

  Keeps-record_block_event :
      (events : Option RunEventStore) (p r message code : String)
      → KeepsGrants (record_block_event events p r message code)
  unfolding record_block_event
  Keeps-record_block_event none p r message code = search keeps_rules depth 4
  Keeps-record_block_event (some events) p r message code =
      search (keeps_rules, Keeps-append, grants-IsApart) depth 6

  Keeps-enforce :
      (ctx : ToolInvocationContext) (e : PolicyEvaluation) (d : PolicyDecision)
      → KeepsGrants (enforce gate ctx e d)
  unfolding enforce
  Keeps-enforce ctx e allow = search keeps_rules depth 4
  Keeps-enforce ctx e deny = search (keeps_rules, Keeps-record_block_event) depth 6
  Keeps-enforce ctx e require_approval =
      search (keeps_rules, Keeps-record_block_event, Keeps-request_approval) depth 8

  pub Keeps-evaluate_by_policy :
      (ctx : ToolInvocationContext) → KeepsGrants (evaluate_by_policy gate ctx)
  unfolding evaluate_by_policy
  Keeps-evaluate_by_policy ctx = search (keeps_rules, Keeps-enforce, Keeps-audit) depth 8

  pub Keeps-evaluate_granted :
      (ctx : ToolInvocationContext) → KeepsGrants (evaluate_granted gate ctx)
  unfolding evaluate_granted
  Keeps-evaluate_granted ctx = search (keeps_rules, Keeps-audit) depth 8

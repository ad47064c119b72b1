-- ===== src/Investigation/Gate/Registered.antt =====
-- What the registry's listing of a server says of a tool, told apart from the gate's own test.
use deepticket.Prelude.{
  arith, subst, String, ◌≡◌, refl, inl, inr, Bool, true, false, not, List, [], ◌∷◌, All, any, ◌==◌,
  eq_iff, Bool-cases,
}
use deepticket.Prelude.Text.{nonempty, strip}
use deepticket.Env.{Env}
use deepticket.Exec.{Result, ok, err, continue}
use deepticket.World.{World}
use deepticket.Investigation.Policy.{ToolInvocationContext}
use deepticket.Investigation.Registry.{ToolDescriptor, get_tools}
use deepticket.Investigation.Gate.{ToolGovernanceGate, names_known, is_known_tool}

-- A tool of the list has the name.
pub data Lists (tool : String) : List ToolDescriptor → Type 0 where
  here : (t : ToolDescriptor) (ts : List ToolDescriptor) → t.name ≡ tool → Lists tool (t ∷ ts)
  there : (t : ToolDescriptor) (ts : List ToolDescriptor) → Lists tool ts → Lists tool (t ∷ ts)

abbrev pub Omits : String → List ToolDescriptor → Type 0
Omits tool ts = All (λ t. (t.name == tool) ≡ false) ts

pub blank : (s : String) → not (nonempty s) ≡ true → s ≡ ""
blank s h = ground (arith, h, eq_iff s "")

any-Lists :
    (tool : String) (ts : List ToolDescriptor) → any (λ t. t.name == tool) ts ≡ true → Lists tool ts
any-Lists tool [] h = cc h
any-Lists tool (t ∷ ts) h = elim (Bool-cases (t.name == tool)) [
  | inl e ↦ here t ts ((eq_iff t.name tool).0 e)
  | inr e ↦ there t ts (any-Lists tool ts (rw e at h))
]

any-Omits :
    (tool : String) (ts : List ToolDescriptor)
    → any (λ t. t.name == tool) ts ≡ false
    → Omits tool ts
any-Omits tool [] h = tt
any-Omits tool (t ∷ ts) h = elim (Bool-cases (t.name == tool)) [
  | inl e ↦ cc (rw e at h)
  | inr e ↦ (e, any-Omits tool ts (rw e at h))
]

module _ ⦃env : Env⦄ (gate : ToolGovernanceGate) (ctx : ToolInvocationContext) (w : World) where
  -- Whether the tool of a call is known. It is where there is no registry, where the call names no server,
  -- where nothing is listed for the server, and where the tool is listed for it. It is not where other
  -- tools only are listed.
  pub data Registered : Bool → Type 0 where
    no_registry : gate.registry ≡ false → Registered true
    no_server : strip ctx.mcp_server ≡ "" → Registered true
    no_listing : get_tools w.storage ctx.project_id ctx.mcp_server ≡ ok [] → Registered true
    listed :
        (tools : List ToolDescriptor)
        → get_tools w.storage ctx.project_id ctx.mcp_server ≡ ok tools
        → Lists ctx.tool_name tools
        → Registered true
    unlisted :
        (t : ToolDescriptor) (tools : List ToolDescriptor)
        → get_tools w.storage ctx.project_id ctx.mcp_server ≡ ok (t ∷ tools)
        → Omits ctx.tool_name (t ∷ tools)
        → Registered false

  listing-Registered :
      (r : Result (List ToolDescriptor)) (known : Bool)
      → get_tools w.storage ctx.project_id ctx.mcp_server ≡ r
      → (continue (r, w) (λ tools s. (ok (names_known ctx.tool_name tools), s))).0 ≡ ok known
      → Registered known
  listing-Registered (err e) known g h = cc h
  listing-Registered (ok []) known g h =
      let q : true ≡ known = cc h in subst Registered q (no_listing g)
  listing-Registered (ok (t ∷ ts)) known g h =
      elim (Bool-cases (any (λ item. item.name == ctx.tool_name) (t ∷ ts))) [
        | inl e ↦
            let q : true ≡ known = cc (e, h) in
            subst Registered q (listed (t ∷ ts) g (any-Lists ctx.tool_name (t ∷ ts) e))
        | inr e ↦
            let q : false ≡ known = cc (e, h) in
            subst Registered q (unlisted t ts g (any-Omits ctx.tool_name (t ∷ ts) e))
      ]

  pub is_known_tool-Registered :
      (known : Bool)
      → (is_known_tool gate ctx.project_id ctx.mcp_server ctx.tool_name w).0 ≡ ok known
      → Registered known
  unfolding is_known_tool
  is_known_tool-Registered known h = elim (Bool-cases (not gate.registry)) [
    | inl e ↦
        let q : true ≡ known = cc (rw e at h) in
        subst Registered q (no_registry (ground (arith, e)))
    | inr e ↦ elim (Bool-cases (not (nonempty (strip ctx.mcp_server)))) [
      | inl f ↦
          let q : true ≡ known = cc (rw (e, f) at h) in
          subst Registered q (no_server (blank (strip ctx.mcp_server) f))
      | inr f ↦ listing-Registered _ known refl (rw (e, f) at h)
    ]
  ]

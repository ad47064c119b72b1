-- ===== src/Investigation/Approvals/Grants.antt =====
-- A grant lets one call of one tool through.
use deepticket.Prelude.{
  String, ◌≡◌, refl, Bool, true, false, Option, none, some, ◌==◌, if◌then◌else◌, inl, inr,
  Option-cases, Bool-cases, eq_iff, eq_refl,
}
use deepticket.Json.{Fields}
use deepticket.Env.{Env}
use deepticket.Exec.{ok}
use deepticket.Storage.Local.{Storage, get_json}
use deepticket.Storage.Laws.{get_json-set_json, get_json-delete}
use deepticket.World.{World}
use deepticket.Investigation.Approvals.{
  grant_key, ns_approval_grant, issue_tool_grant, consume_tool_grant,
}

abbrev pub is_some : Option Fields → Bool
is_some none = false
is_some (some d) = true

-- A grant for the tool in the run is there.
abbrev pub granted : String → String → String → Storage → Bool
granted p r tool s = is_some (get_json s ns_approval_grant (grant_key p r tool))

is_some-if :
    (b : Bool) (d : Fields) (o : Option Fields)
    → is_some (if b then some d else o) ≡ (if b then true else is_some o)
is_some-if true d o = refl
is_some-if false d o = refl

is_some-if_none :
    (b : Bool) (o : Option Fields)
    → is_some (if b then none else o) ≡ (if b then false else is_some o)
is_some-if_none true o = refl
is_some-if_none false o = refl

module _ ⦃env : Env⦄ where
  -- Consuming a grant answers whether the grant was there.
  pub consume-granted :
      (p r tool : String) (w : World)
      → (consume_tool_grant p r tool w).0 ≡ ok (granted p r tool w.storage)
  unfolding consume_tool_grant
  consume-granted p r tool w =
      elim (Option-cases (get_json w.storage ns_approval_grant (grant_key p r tool))) [
        | inl e ↦ rw (e, consume_tool_grant)
        | inr (d, e) ↦ rw (e, consume_tool_grant)
      ]

  module _ (p r tool p' r' tool' : String) (w : World) where
    abbrev same_grant : Bool
    same_grant = grant_key p r tool == grant_key p' r' tool'

    -- After a consumption the grant is gone, and every other grant is as it was.
    pub granted-consume :
        granted p' r' tool' (consume_tool_grant p r tool w).1.storage
        ≡ (if same_grant then false else granted p' r' tool' w.storage)
    unfolding consume_tool_grant
    granted-consume =
        elim (Option-cases (get_json w.storage ns_approval_grant (grant_key p r tool))) [
          | inl e ↦
              rw (e, consume_tool_grant)
                (elim (Bool-cases same_grant) [
                  | inl q ↦
                      let k = (eq_iff _ _).0 q in
                      let none_there : get_json w.storage ns_approval_grant (grant_key p' r' tool')
                          ≡ none =
                        rw k at e in
                      rw q (rw none_there)
                  | inr q ↦ rw q
                ])
          | inr (d, e) ↦
              rw (e, consume_tool_grant) (rw get_json-delete (is_some-if_none same_grant _))
        ]

    -- After an issue the grant is there, and every other grant is as it was.
    pub granted-issue :
        (id : String)
        → granted p' r' tool' (issue_tool_grant p r tool id w).1.storage
          ≡ (if same_grant then true else granted p' r' tool' w.storage)
    unfolding issue_tool_grant
    granted-issue id = rw get_json-set_json (is_some-if same_grant _ _)

  -- An issued grant lets exactly one call of its tool in its run through: the first consumption answers
  -- True. After it, a consumption under the same grant key answers False, and one under another grant
  -- key answers as it would have without the issue.
  pub issue-consume_once :
      (p r tool id p' r' tool' : String) (w : World)
      → let issued = (issue_tool_grant p r tool id w).1 in
        let used = (consume_tool_grant p r tool issued).1 in
        ((consume_tool_grant p r tool issued).0 ≡ ok true)
        × ((consume_tool_grant p' r' tool' used).0
            ≡ ok (
                if grant_key p r tool == grant_key p' r' tool'
                then false
                else granted p' r' tool' w.storage))
  issue-consume_once p r tool id p' r' tool' w = (
    simp (consume-granted, granted-issue, eq_refl),
    simp (consume-granted, granted-consume, granted-issue)
        (elim (Bool-cases (grant_key p r tool == grant_key p' r' tool')) [
          | inl q ↦ rw q
          | inr q ↦ rw q
        ]),
  )

-- ===== src/Projects/Permissions/Members.antt =====
-- The members that were set are the members that are listed.
use deepticket.Prelude.{
  String, ◌≡◌, refl, ap, ◌∙◌, Bool, true, false, ◌&&◌, Option, some, List, [], ◌∷◌, ◌==◌,
  if◌then◌else◌, arith, eq_iff,
}
use deepticket.Prelude.Text.{nonempty, strip}
use deepticket.Json.{Fields, str, list, nil, dict_of, get, or_default}
use deepticket.Env.{Env}
use deepticket.Exec.{Exec, Result, ok, err, pure, continue, ◌>>◌}
use deepticket.Storage.Local.{Storage, get_json, set_json}
use deepticket.Storage.Laws.{get_json-set_json}
use deepticket.Investigation.Approvals.{text_or_blank}
use deepticket.Projects.Permissions.{
  ProjectMemberRecord, ns_members, or_empty, member_items, members_in, members_of, list_members,
  project_ids, save_ids, grant, revoke, grant_all, revoke_all, set_members, dropped,
}

-- The listing of the records: stripped, and without those that are blank.
abbrev pub listed : List ProjectMemberRecord → List ProjectMemberRecord
listed [] = []
listed (member ∷ members) =
    let rest = listed members in
    if nonempty (strip member.uid) && nonempty (strip member.username)
    then record { uid = strip member.uid; username = strip member.username } ∷ rest
    else rest

module _ ⦃env : Env⦄ where
  KeepsMembers : {A : Type 0} → Exec Storage A → Type 0
  KeepsMembers m =
      (s : Storage) (k : String) → get_json (m s).1 ns_members k ≡ get_json s ns_members k

  bind-KeepsMembers :
      {A B : Type 0} (r : Result A) (s t : Storage) (f : A → Exec Storage B) (k : String)
      → get_json s ns_members k ≡ get_json t ns_members k
      → ((a : A) → KeepsMembers (f a))
      → get_json (continue (r, s) f).1 ns_members k ≡ get_json t ns_members k
  unfolding KeepsMembers
  bind-KeepsMembers (ok a) s t f k h g = g a s k ∙ h
  bind-KeepsMembers (err e) s t f k h g = h

  save_ids-kept :
      (s : Storage) (uid : String) (ids : List String) (k : String)
      → get_json (save_ids s uid ids) ns_members k ≡ get_json s ns_members k
  unfolding save_ids
  save_ids-kept s uid ids k = simp get_json-set_json

  granted_ids-kept :
      (s : Storage) (uid p : String) (ids : List String) (b : Bool) (k : String)
      → get_json (if b then s else save_ids s uid ids) ns_members k ≡ get_json s ns_members k
  granted_ids-kept s uid p ids true k = refl
  granted_ids-kept s uid p ids false k = save_ids-kept s uid ids k

  grant-KeepsMembers : (uid p : String) → KeepsMembers (grant uid p)
  unfolding grant KeepsMembers
  grant-KeepsMembers uid p s k =
      bind-KeepsMembers (project_ids s uid) s s _ k refl (λ ids t j. granted_ids-kept t uid p _ _ j)

  revoke-KeepsMembers : (uid p : String) → KeepsMembers (revoke uid p)
  unfolding revoke KeepsMembers
  revoke-KeepsMembers uid p s k =
      bind-KeepsMembers (project_ids s uid) s s _ k refl (λ ids t j. save_ids-kept t uid _ j)

  grant_all-KeepsMembers :
      (p : String) (members : List ProjectMemberRecord) → KeepsMembers (grant_all p members)
  unfolding grant_all KeepsMembers
  grant_all-KeepsMembers p [] s k = refl
  grant_all-KeepsMembers p (member ∷ members) s k =
      let (r, t) = grant member.uid p s in
      bind-KeepsMembers r t s _ k (grant-KeepsMembers member.uid p s k)
        (λ u. grant_all-KeepsMembers p members)

  revoke_all-KeepsMembers : (p : String) (uids : List String) → KeepsMembers (revoke_all p uids)
  unfolding revoke_all KeepsMembers
  revoke_all-KeepsMembers p [] s k = refl
  revoke_all-KeepsMembers p (uid ∷ uids) s k =
      let (r, t) = revoke uid p s in
      bind-KeepsMembers r t s _ k (revoke-KeepsMembers uid p s k)
        (λ u. revoke_all-KeepsMembers p uids)

  finish-KeepsMembers :
      (p : String) (uids : List String) (members : List ProjectMemberRecord)
      → KeepsMembers (revoke_all p uids >> pure members)
  unfolding KeepsMembers
  finish-KeepsMembers p uids members s k =
      let (r, t) = revoke_all p uids s in
      bind-KeepsMembers r t s (λ u. pure members) k (revoke_all-KeepsMembers p uids s k)
        (λ u t' j. refl)

  text_or_blank-str : (d : Fields) (k s : String) → get d k ≡ some (str s) → text_or_blank d k ≡ s
  unfolding text_or_blank
  text_or_blank-str d k s h = ground (arith, h, eq_iff s "")

  members_of-member_items :
      (members : List ProjectMemberRecord) → members_of (member_items members) ≡ listed members
  unfolding get
  members_of-member_items [] = refl
  members_of-member_items (member ∷ members) =
      let d = dict_of (("uid", str member.uid) ∷ ("username", str member.username) ∷ []) in
      rw (
        text_or_blank-str d "uid" member.uid refl,
        text_or_blank-str d "username" member.username refl,
        members_of-member_items members,
      )

  -- What a listing reads
  read_members : Option Fields → Result (List ProjectMemberRecord)
  read_members o = members_in (or_default (get (or_empty o) "members") (list nil))

  read_written :
      (members : List ProjectMemberRecord)
      → read_members (some (dict_of (("members", list (member_items members)) ∷ [])))
        ≡ ok (listed members)
  unfolding read_members get
  read_written [] = refl
  read_written (member ∷ members) = ap ok (members_of-member_items (member ∷ members))

  read_if :
      (b : Bool) (members : List ProjectMemberRecord) (o : Option Fields)
      → read_members
          (if b then some (dict_of (("members", list (member_items members)) ∷ [])) else o)
        ≡ (if b then ok (listed members) else read_members o)
  read_if true members o = read_written members
  read_if false members o = refl

  -- Where the members of a project can be read, setting them, even if a grant or a revocation then raises,
  -- makes the listing of that project the given members, with stripped names and without those that are
  -- blank, and leaves the listing of every other project as it was.
  pub list_members-set_members :
      (p p' : String) (members previous : List ProjectMemberRecord) (s : Storage)
      → list_members s p ≡ ok previous
      → list_members (set_members p members s).1 p'
        ≡ (if p == p' then ok (listed members) else list_members s p')
  unfolding list_members set_members read_members KeepsMembers
  list_members-set_members p p' members previous s h =
      let doc = dict_of (("members", list (member_items members)) ∷ []) in
      let s₁ = set_json s ns_members p doc in
      let (r, s₂) = grant_all p members s₁ in
      let kept =
        bind-KeepsMembers r s₂ s₁ _ p' (grant_all-KeepsMembers p members s₁ p')
          (λ u. finish-KeepsMembers p (dropped previous members) members) in
      rw h (
        ap read_members (kept ∙ get_json-set_json s ns_members p ns_members p' doc)
        ∙ read_if (p == p') members (get_json s ns_members p'))

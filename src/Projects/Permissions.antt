-- ===== src/Projects/Permissions.antt =====
-- deepticket/projects/permissions.py: `ProjectPermissionStore`. Each method reads and writes the storage
-- only.
pub mod Members
use Prim.Native.String
use deepticket.Prelude.{
  String, Bool, true, false, not, ◌&&◌, Option, none, some, List, [], ◌∷◌, ◌++◌, map, ◌==◌,
  if◌then◌else◌, any, select,
}
use deepticket.Prelude.Sort.{sort}
use deepticket.Prelude.Text.{nonempty, strip}
use deepticket.Json.{
  Value, null, bool, num, str, list, dict, Items, nil, cons, Fields, end, field, dict_of, get,
  or_default,
}
use deepticket.Env.{Env, str_of}
use deepticket.Exec.{Exec, Result, ok, err, type_error, pure, modify, ◌>>=◌, ◌>>◌}
use deepticket.Exec.Pure
use deepticket.Storage.Local.{Storage, get_json, set_json, text_before}
use deepticket.Investigation.Approvals.{text_or_blank}

abbrev pub ns_members : String
ns_members = "project_members"

abbrev pub ns_user_projects : String
ns_user_projects = "user_projects"

pub record ProjectMemberRecord : Type 0 where
  pub uid : String
  pub username : String

-- `_DEFAULT_PROJECT_ID` of projects/store.py
abbrev pub default_project_id : String
default_project_id = "default"

-- `get_json(...) or {}`
abbrev pub or_empty : Option Fields → Fields
or_empty none = end
or_empty (some d) = d

abbrev pub characters : String → List String
characters String.[] = []
characters (String.◌∷◌ c s) = String.◌∷◌ c "" ∷ characters s

abbrev pub keys_of : Fields → List String
keys_of end = []
keys_of (field k v d) = k ∷ keys_of d

abbrev pub member_item : ProjectMemberRecord → Value
member_item item = dict (dict_of (("uid", str item.uid) ∷ ("username", str item.username) ∷ []))

abbrev pub member_items : List ProjectMemberRecord → Items
member_items [] = nil
member_items (item ∷ members) = cons (member_item item) (member_items members)

abbrev pub id_items : List String → Items
id_items [] = nil
id_items (id ∷ ids) = cons (str id) (id_items ids)

module _ ⦃env : Env⦄ where
  abbrev pub member_of : Fields → List ProjectMemberRecord → List ProjectMemberRecord
  member_of item rest =
      let uid = strip (text_or_blank item "uid") in
      let username = strip (text_or_blank item "username") in
      if nonempty uid && nonempty username
      then record { uid = uid; username = username } ∷ rest
      else rest

  -- The loop: what is no dictionary is skipped.
  abbrev pub members_of : Items → List ProjectMemberRecord
  members_of nil = []
  members_of (cons (dict item) items) = member_of item (members_of items)
  members_of (cons _ items) = members_of items

  abbrev pub members_in : Value → Result (List ProjectMemberRecord)
  members_in (list items) = ok (members_of items)
  members_in (str s) = ok []
  members_in (dict d) = ok []
  members_in v = err (type_error "not iterable")

  unfoldable pub list_members : Storage → String → Result (List ProjectMemberRecord)
  list_members s project_id =
      members_in
        (or_default (get (or_empty (get_json s ns_members project_id)) "members") (list nil))

  abbrev pub texts_of : Items → List String
  texts_of nil = []
  texts_of (cons v items) = str_of v ∷ texts_of items

  -- `[str(item) for item in v]`
  abbrev pub ids_in : Value → Result (List String)
  ids_in (list items) = ok (texts_of items)
  ids_in (str s) = ok (characters s)
  ids_in (dict d) = ok (keys_of d)
  ids_in v = err (type_error "not iterable")

  unfoldable pub project_ids : Storage → String → Result (List String)
  project_ids s uid =
      ids_in
        (or_default (get (or_empty (get_json s ns_user_projects uid)) "project_ids") (list nil))

  unfoldable pub save_ids : Storage → String → List String → Storage
  save_ids s uid ids =
      set_json s ns_user_projects uid
        (dict_of (("project_ids", list (id_items (sort text_before ids))) ∷ []))

  abbrev pub granted_ids : Storage → String → String → List String → Storage
  granted_ids s uid project_id ids =
      if any (λ id. id == project_id) ids then s else save_ids s uid (ids ++ project_id ∷ [])

  unfoldable pub grant : String → String → Exec Storage (Unit {0})
  grant uid project_id = do
    ids ← (λ s. (project_ids s uid, s))
    modify (λ s. granted_ids s uid project_id ids)

  unfoldable pub revoke : String → String → Exec Storage (Unit {0})
  revoke uid project_id = do
    ids ← (λ s. (project_ids s uid, s))
    modify (λ s. save_ids s uid (select (λ id. not (id == project_id)) ids))

  -- `sorted({...})`: each text once
  abbrev pub distinct : List String → List String
  distinct [] = []
  distinct (id ∷ ids) =
      let rest = distinct ids in if any (λ j. j == id) rest then rest else id ∷ rest

  unfoldable pub list_project_ids_for_user : Storage → String → Result (List String)
  list_project_ids_for_user s uid =
      Pure.◌>>=◌ (project_ids s uid)
        λ ids. ok (sort text_before (distinct (select (λ id. nonempty (strip id)) ids)))

  unfoldable pub user_has_access : Storage → String → String → Result Bool
  user_has_access s uid project_id =
      Pure.◌>>=◌ (list_project_ids_for_user s uid) λ ids. ok (any (λ id. id == project_id) ids)

  -- The loop of grants; an error ends it.
  unfoldable pub grant_all : String → List ProjectMemberRecord → Exec Storage (Unit {0})
  grant_all project_id [] = pure tt
  grant_all project_id (member ∷ members) =
      grant member.uid project_id >>= λ u. grant_all project_id members

  unfoldable pub revoke_all : String → List String → Exec Storage (Unit {0})
  revoke_all project_id [] = pure tt
  revoke_all project_id (uid ∷ uids) = revoke uid project_id >>= λ u. revoke_all project_id uids

  abbrev pub dropped : List ProjectMemberRecord → List ProjectMemberRecord → List String
  dropped previous members = distinct (
      map (λ item. item.uid)
        (select (λ item. not (any (λ member. member.uid == item.uid) members)) previous))

  -- The order of the revocations, that of a set, does not matter: each is of another user.
  unfoldable pub set_members :
      String → List ProjectMemberRecord → Exec Storage (List ProjectMemberRecord)
  set_members project_id members = do
    previous ← (λ s. (list_members s project_id, s))
    modify (λ s.
        set_json s ns_members project_id (dict_of (("members", list (member_items members)) ∷ [])))
    grant_all project_id members
    revoke_all project_id (dropped previous members)
    pure members

  abbrev pub ensure_in : String → String → List ProjectMemberRecord → Exec Storage (Unit {0})
  ensure_in uid username members =
      if any (λ item. item.uid == uid) members then grant uid default_project_id else (do
        set_members default_project_id (members ++ record { uid = uid; username = username } ∷ [])
        pure tt)

  unfoldable pub ensure_default_access : String → String → Exec Storage (Unit {0})
  ensure_default_access uid username = do
    members ← (λ s. (list_members s default_project_id, s))
    ensure_in uid username members

-- ===== src/Auth/Users.antt =====
-- deepticket/auth/user_store.py: `UserStore`. A document's values are read as texts.
pub mod Sessions
use deepticket.Prelude.{
  ℕ, ◌+◌, ◌*◌, String, Bool, true, false, not, ◌&&◌, ◌||◌, Option, none, some, List, [], ◌∷◌, ◌==◌,
  if◌then◌else◌, ltb, leb,
}
use deepticket.Prelude.Text.{◌<>◌, nonempty, strip, size}
use deepticket.Json.{Value, str, bool, Fields, end, field, get, dict_of, truthy}
use deepticket.Env.{Env, str_of}
use deepticket.Exec.{
  Result, ok, err, value_error, key_error, type_error, raise, gets, lift, pure, ◌>>=◌, ◌>>◌,
}
use deepticket.Exec.Pure
use deepticket.Storage.Local.{get_json, set_json, delete}
use deepticket.World.{Action, on_storage, uuid4, utc_now_iso, time_ms, token_urlsafe}
use deepticket.Auth.Passwords.{hash_password, verify_password}

abbrev pub ns_users : String
ns_users = "users"

abbrev pub ns_users_by_name : String
ns_users_by_name = "users_by_name"

abbrev pub ns_auth_tokens : String
ns_auth_tokens = "auth_tokens"

-- 30 days in milliseconds
abbrev pub token_ttl : ℕ
token_ttl = 30 * 86400000

pub record AuthUser : Type 0 where
  pub uid : String
  pub username : String

-- `if not doc`: `None` and the empty dictionary
abbrev pub given : Option Fields → Option Fields
given none = none
given (some end) = none
given (some (field k v d)) = some (field k v d)

abbrev pub is_some : Option Fields → Bool
is_some none = false
is_some (some d) = true

abbrev pub is_long_enough : String → Bool
is_long_enough name = leb 3 (size name) && leb (size name) 32

module _ ⦃env : Env⦄ where
  -- `doc[k]`
  abbrev pub text_at : Fields → String → Result String
  text_at doc k =
      Pure.◌>>=◌ (Pure.from_option (get doc k) (key_error (env.repr (str k)))) (λ v. ok (str_of v))

  abbrev pub find : String → String → Action (Option Fields)
  find ns k = gets (λ w. given (get_json w.storage ns k))

  -- `AuthUser(uid=doc["uid"], username=doc["username"])`
  unfoldable pub user_of : Fields → Result AuthUser
  user_of doc = Pure.◌>>=◌ (text_at doc "uid") (λ uid.
      Pure.◌>>=◌ (text_at doc "username")
        (λ username. ok (record { uid = uid; username = username })))

  -- The two documents of a new user; `extra` is what the document holds beside.
  unfoldable pub add_user : String → String → String → List (String × Value) → Action AuthUser
  add_user name lookup_key password extra = do
    uid ← uuid4
    hashed ← hash_password password
    now ← utc_now_iso
    on_storage (λ s. set_json s ns_users uid (
        dict_of (
          ("uid", str uid)
          ∷ ("username", str name)
          ∷ ("salt", str hashed.0)
          ∷ ("password_hash", str hashed.1)
          ∷ ("created_at", str now)
          ∷ extra)))
    on_storage (λ s. set_json s ns_users_by_name lookup_key (dict_of (("uid", str uid) ∷ [])))
    pure (record { uid = uid; username = name })

  abbrev pub register_named : String → String → Option Fields → Action AuthUser
  register_named name password none = add_user name (env.lower name) password []
  register_named name password (some doc) = raise (value_error "用户名已被占用")

  unfoldable pub register : String → String → Action AuthUser
  register username password =
      let name = strip username in
      if not (is_long_enough name)
      then raise (value_error "用户名长度需在 3-32 个字符之间")
      else if ltb (size password) 6
      then raise (value_error "密码至少 6 个字符")
      else (do taken ← find ns_users_by_name (env.lower name); register_named name password taken)

  abbrev pub refused : {A : Type 0} → Action A
  refused = raise (value_error "用户名或密码错误")

  -- The token's document, for a user whose password was verified
  unfoldable pub issue_token : AuthUser → Action (AuthUser × String)
  issue_token user = do
    token ← token_urlsafe
    now_ms ← time_ms
    now ← utc_now_iso
    on_storage (λ s. set_json s ns_auth_tokens token (
        dict_of (
          ("uid", str user.uid)
          ∷ ("username", str user.username)
          ∷ ("created_at", str now)
          ∷ ("expires_at", str (env.iso_of_ms (now_ms + token_ttl)))
          ∷ [])))
    pure (user, token)

  abbrev pub login_user : String → Option Fields → Action (AuthUser × String)
  login_user password none = refused
  login_user password (some user_doc) = do
    salt ← lift (text_at user_doc "salt")
    password_hash ← lift (text_at user_doc "password_hash")
    if verify_password password salt password_hash
        then (do user ← lift (user_of user_doc); issue_token user)
        else refused

  abbrev pub login_named : String → Option Fields → Action (AuthUser × String)
  login_named password none = refused
  login_named password (some lookup) = do
    uid ← lift (text_at lookup "uid")
    user_doc ← find ns_users uid
    login_user password user_doc

  unfoldable pub login : String → String → Action (AuthUser × String)
  login username password = do
    lookup ← find ns_users_by_name (env.lower (strip username))
    login_named password lookup

  -- Whether the token's time is over; a text that is no time never ends.
  abbrev pub is_past : Option ℕ → Action Bool
  is_past none = pure false
  is_past (some expiry) = do now ← time_ms; pure (leb expiry now)

  abbrev pub is_expired : Option Value → Action Bool
  is_expired none = pure false
  is_expired (some (str s)) = if nonempty s then is_past (env.iso_ms s) else pure false
  is_expired (some v) =
      if truthy v then raise (type_error "fromisoformat: argument must be str") else pure false

  abbrev pub user_found : Option Fields → Result (Option AuthUser)
  user_found none = ok none
  user_found (some doc) = Pure.◌>>=◌ (user_of doc) (λ user. ok (some user))

  abbrev pub resolve_found : String → Option Fields → Action (Option AuthUser)
  resolve_found token none = pure none
  resolve_found token (some doc) = do
    expired ← is_expired (get doc "expires_at")
    if expired then (do on_storage (λ s. delete s ns_auth_tokens token); pure none) else (do
      uid ← lift (text_at doc "uid")
      user_doc ← find ns_users uid
      lift (user_found user_doc))

  unfoldable pub resolve_token : String → Action (Option AuthUser)
  resolve_token token =
      if not (nonempty (strip token))
      then pure none
      else (do doc ← find ns_auth_tokens (strip token); resolve_found (strip token) doc)

  unfoldable pub logout : String → Action (Unit {0})
  logout token = on_storage (λ s. delete s ns_auth_tokens (strip token))

  unfoldable pub get_user : String → Action (Option AuthUser)
  get_user uid = do doc ← find ns_users uid; lift (user_found doc)

  abbrev pub bootstrap_named : String → String → Option Fields → Action (Option AuthUser)
  bootstrap_named name password none = do
    user ← add_user name (env.lower name) password (("bootstrap", bool true) ∷ [])
    pure (some user)
  bootstrap_named name password (some existing) = do
    uid ← lift (text_at existing "uid")
    get_user uid

  unfoldable pub ensure_bootstrap_user : String → String → Action (Option AuthUser)
  ensure_bootstrap_user username password = do
    existing ← find ns_users_by_name (env.lower (strip username))
    bootstrap_named (strip username) password existing

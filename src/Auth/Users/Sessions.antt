-- ===== src/Auth/Users/Sessions.antt =====
-- The life of a session: a user is registered, logs in, is found by the token, and logs out.
use deepticket.Prelude.{
  ℕ, suc, ◌+◌, String, ◌≡◌, refl, true, false, none, some, [], ◌∷◌, eq_refl, ltb, leb,
}
use deepticket.Prelude.Text.{strip, size, nonempty}
use deepticket.Json.{str, get, dict_of}
use deepticket.Env.{Env}
use deepticket.Exec.{ok}
use deepticket.Storage.Local.{get_json, set_json}
use deepticket.Storage.Laws.{get_json-set_json, get_json-delete}
use deepticket.World.{World}
use deepticket.Auth.Passwords.{hash_password, verify_password}
use deepticket.Auth.Users.{
  ns_users, ns_users_by_name, ns_auth_tokens, token_ttl, AuthUser, is_long_enough, user_of,
  add_user, issue_token, register, login, resolve_token, logout,
}

module _ ⦃env : Env⦄ (username password : String) (w : World) where
  abbrev pub registered : AuthUser
  registered = record { uid = env.uuid4_hex w.uuids; username = strip username }

  abbrev pub token : String
  token = env.token_urlsafe (suc (suc w.uuids))

  abbrev after_register : World
  after_register = record {
    storage =
        set_json
          (set_json w.storage ns_users (env.uuid4_hex w.uuids) (
            dict_of (
              ("uid", str (env.uuid4_hex w.uuids))
              ∷ ("username", str (strip username))
              ∷ ("salt", str (env.token_hex (suc w.uuids)))
              ∷ ("password_hash", str (env.pbkdf2 password (env.token_hex (suc w.uuids))))
              ∷ ("created_at", str (env.utc_now_iso w.ticks))
              ∷ [])))
          ns_users_by_name (env.lower (strip username))
          (dict_of (("uid", str (env.uuid4_hex w.uuids)) ∷ []));
    uuids = suc (suc w.uuids);
    ticks = suc w.ticks;
  }

  abbrev pub expires_at : String
  expires_at = env.iso_of_ms (env.time_ms (suc w.ticks) + token_ttl)

  abbrev after_login : World
  after_login = record {
    storage = set_json after_register.storage ns_auth_tokens token (
        dict_of (
          ("uid", str (env.uuid4_hex w.uuids))
          ∷ ("username", str (strip username))
          ∷ ("created_at", str (env.utc_now_iso (suc (suc w.ticks))))
          ∷ ("expires_at", str expires_at)
          ∷ []));
    uuids = suc (suc (suc w.uuids));
    ticks = suc (suc (suc w.ticks));
  }

  register_lem :
      is_long_enough (strip username) ≡ true
      → ltb (size password) 6 ≡ false
      → get_json w.storage ns_users_by_name (env.lower (strip username)) ≡ none
      → register username password w ≡ (ok registered, after_register)
  unfolding register add_user hash_password
  register_lem long strong free = rw (long, strong, free) refl

  login_lem : login username password after_register ≡ (ok (registered, token), after_login)
  unfolding login issue_token user_of verify_password get
  login_lem = simp (get_json-set_json, eq_refl)

  resolve_lem :
      (expiry : ℕ)
      → strip token ≡ token
      → nonempty token ≡ true
      → nonempty expires_at ≡ true
      → env.iso_ms expires_at ≡ some expiry
      → leb expiry (env.time_ms (suc (suc (suc w.ticks)))) ≡ false
      → (resolve_token token after_login).0 ≡ ok (some registered)
  unfolding resolve_token user_of get
  resolve_lem expiry bare filled dated parsed fresh =
      rw (bare, filled)
        (rw (get_json-set_json, eq_refl)
          (rw (dated, parsed, fresh) (simp (get_json-set_json, eq_refl))))

  logout_lem :
      strip token ≡ token
      → nonempty token ≡ true
      → (resolve_token token (logout token after_login).1).0 ≡ ok none
  unfolding resolve_token logout
  logout_lem bare filled = rw (bare, filled) (simp (get_json-delete, eq_refl))

module _ ⦃env : Env⦄ (username password : String) (w : World) where
  -- A name of 3 to 32 characters that nobody has is registered with a password of at least 6; then its user
  -- logs in with the password; the token, a text without outer spaces whose time of expiry is read and not
  -- yet reached, resolves to the same user, and after the logout to nobody.
  pub resolve_token-login :
      (expiry : ℕ)
      → is_long_enough (strip username) ≡ true
      → ltb (size password) 6 ≡ false
      → get_json w.storage ns_users_by_name (env.lower (strip username)) ≡ none
      → strip (token username password w) ≡ token username password w
      → nonempty (token username password w) ≡ true
      → nonempty (expires_at username password w) ≡ true
      → env.iso_ms (expires_at username password w) ≡ some expiry
      → leb expiry (env.time_ms (suc (suc (suc w.ticks)))) ≡ false
      → let user = registered username password w in
        let (created, w₁) = register username password w in
        let (entered, w₂) = login username password w₁ in
        let t = token username password w in
        (created ≡ ok user)
        × (entered ≡ ok (user, t))
        × ((resolve_token t w₂).0 ≡ ok (some user))
        × ((resolve_token t (logout t w₂).1).0 ≡ ok none)
  resolve_token-login expiry long strong free bare filled dated parsed fresh =
      rw (register_lem username password w long strong free, login_lem username password w)
        (
          refl,
          refl,
          resolve_lem username password w expiry bare filled dated parsed fresh,
          logout_lem username password w bare filled,
        )

-- ===== src/Investigation/Governance/Sessions.antt =====
-- deepticket/investigation/governance/session_context.py: from a conversation to its run and user.
use deepticket.Prelude.{
  String, ◌≡◌, refl, ap, Bool, true, false, Option, none, some, [], ◌∷◌, ◌==◌, if◌then◌else◌, inl,
  inr, Bool-cases, arith, eq_iff,
}
use deepticket.Prelude.Text.{◌<>◌, nonempty}
use deepticket.Json.{Fields, end, field, str, dict_of, get, or_default, put}
use deepticket.Env.{Env, str_of}
use deepticket.Exec.{ok, gets, when, ◌>>=◌, ◌>>◌}
use deepticket.Storage.Local.{get_json, set_json}
use deepticket.Storage.Laws.{get_json-set_json}
use deepticket.World.{World, Action, on_storage, utc_now_iso}
use deepticket.Investigation.Models.{optional_at}

abbrev pub ns_gov_session : String
ns_gov_session = "gov_session"

abbrev pub ns_gov_run : String
ns_gov_run = "gov_run"

pub record GovernanceSessionContext : Type 0 where
  pub project_id : String
  pub run_id : String
  pub uid : String
  pub chat_id : Option String
  pub user_is_admin : Bool

abbrev text_or_empty : Option String → String
text_or_empty none = ""
text_or_empty (some s) = s

module _ ⦃env : Env⦄ where
  -- `to_dict`, with the time it reads
  unfoldable pub session_dict : GovernanceSessionContext → String → Fields
  session_dict ctx updated_at = dict_of (
      ("project_id", str ctx.project_id)
      ∷ ("run_id", str ctx.run_id)
      ∷ ("uid", str ctx.uid)
      ∷ ("chat_id", str (text_or_empty ctx.chat_id))
      ∷ ("user_is_admin", str (if ctx.user_is_admin then "1" else "0"))
      ∷ ("updated_at", str updated_at)
      ∷ [])

  -- `str(data.get(k) or default)`
  unfoldable pub text_or : Fields → String → String → String
  text_or d k default = str_of (or_default (get d k) (str default))

  -- The values of the dictionary are texts.
  unfoldable pub session_of : Fields → GovernanceSessionContext
  session_of d = record {
    project_id = text_or d "project_id" "default";
    run_id = text_or d "run_id" "";
    uid = text_or d "uid" "unknown";
    chat_id = optional_at d "chat_id";
    user_is_admin = text_or d "user_is_admin" "0" == "1";
  }

  unfoldable pub register :
      String → String → String → String → Option String → Bool → Action (Unit {0})
  register oh_conversation_id project_id run_id uid chat_id user_is_admin = do
    now ← utc_now_iso
    let doc =
        session_dict
          (record {
            project_id = project_id;
            run_id = run_id;
            uid = uid;
            chat_id = chat_id;
            user_is_admin = user_is_admin;
          })
          now
    on_storage (λ s. set_json s ns_gov_session oh_conversation_id doc)
    when (nonempty run_id) (
        on_storage (λ s.
          set_json s ns_gov_run (project_id <> ":" <> run_id)
            (put doc "oh_conversation_id" (str oh_conversation_id))))

  -- `if not doc: return None`
  abbrev pub session_in : Option Fields → Option GovernanceSessionContext
  session_in none = none
  session_in (some end) = none
  session_in (some (field k v d)) = some (session_of (field k v d))

  unfoldable pub get_by_conversation : String → Action (Option GovernanceSessionContext)
  get_by_conversation oh_conversation_id =
      gets (λ w. session_in (get_json w.storage ns_gov_session oh_conversation_id))

  unfoldable pub get_by_run : String → String → Action (Option GovernanceSessionContext)
  get_by_run project_id run_id =
      gets (λ w. session_in (get_json w.storage ns_gov_run (project_id <> ":" <> run_id)))

  -- The blank texts that reading replaces.
  abbrev pub or_text : String → String → String
  or_text s default = if nonempty s then s else default

  abbrev pub or_none : Option String → Option String
  or_none none = none
  or_none (some s) = if nonempty s then some s else none

  text_or-str :
      (d : Fields) (k s default : String)
      → get d k ≡ some (str s)
      → text_or d k default ≡ or_text s default
  unfolding text_or
  text_or-str d k s default h = ground (arith, h)

  optional_at-text :
      (d : Fields) (k : String) (o : Option String)
      → get d k ≡ some (str (text_or_empty o))
      → optional_at d k ≡ or_none o
  unfolding optional_at
  optional_at-text d k none h = rw (h, optional_at) refl
  optional_at-text d k (some s) h = ground (arith, h)

  or_text-same : (s : String) → or_text s "" ≡ s
  or_text-same s = ground (arith, eq_iff s "")

  flag : (b : Bool) → (or_text (if b then "1" else "0") "0" == "1") ≡ b
  flag true = refl
  flag false = refl

  module _ (ctx : GovernanceSessionContext) (now : String) where
    abbrev doc : Fields
    doc = session_dict ctx now

    session_of-session_dict : session_of doc ≡ record {
      project_id = or_text ctx.project_id "default";
      run_id = ctx.run_id;
      uid = or_text ctx.uid "unknown";
      chat_id = or_none ctx.chat_id;
      user_is_admin = ctx.user_is_admin;
    }
    unfolding session_of session_dict get
    session_of-session_dict = rw (
      text_or-str doc "project_id" ctx.project_id "default" refl,
      text_or-str doc "run_id" ctx.run_id "" refl,
      text_or-str doc "uid" ctx.uid "unknown" refl,
      text_or-str doc "user_is_admin" (if ctx.user_is_admin then "1" else "0") "0" refl,
      optional_at-text doc "chat_id" ctx.chat_id refl,
      or_text-same ctx.run_id,
      flag ctx.user_is_admin,
    )

    found_session :
        (b : Bool) (old : Option Fields)
        → ok (session_in (if b then some doc else old)) ≡ (
            if b
            then ok (
                some (record {
                  project_id = or_text ctx.project_id "default";
                  run_id = ctx.run_id;
                  uid = or_text ctx.uid "unknown";
                  chat_id = or_none ctx.chat_id;
                  user_is_admin = ctx.user_is_admin;
                }))
            else ok (session_in old))
    unfolding session_dict
    found_session true old = ap (λ c. ok (some c)) session_of-session_dict
    found_session false old = refl

  -- After a registration, a lookup by its conversation gives the registered run and flag, with the project
  -- `default` and the user `unknown` where these were blank, and no chat where it was blank; and a lookup by
  -- any other conversation gives what it gave before.
  pub get_by_conversation-register :
      (oh p r uid : String) (chat : Option String) (admin : Bool) (w : World) (other : String)
      → (get_by_conversation other (register oh p r uid chat admin w).1).0 ≡ (
          if oh == other
          then ok (
              some (record {
                project_id = or_text p "default";
                run_id = r;
                uid = or_text uid "unknown";
                chat_id = or_none chat;
                user_is_admin = admin;
              }))
          else (get_by_conversation other w).0)
  unfolding get_by_conversation register
  get_by_conversation-register oh p r uid chat admin w other =
      let ctx : GovernanceSessionContext = record {
        project_id = p;
        run_id = r;
        uid = uid;
        chat_id = chat;
        user_is_admin = admin;
      } in
      let now = env.utc_now_iso w.ticks in
      elim (Bool-cases (nonempty r)) [
        | inl e ↦ rw e (simp get_json-set_json (found_session ctx now (oh == other) _))
        | inr e ↦ rw e (simp get_json-set_json (found_session ctx now (oh == other) _))
      ]

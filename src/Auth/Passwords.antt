-- ===== src/Auth/Passwords.antt =====
-- deepticket/auth/passwords.py: a salted digest of a password. The digest is the library's.
use deepticket.Prelude.{String, Bool, ◌==◌}
use deepticket.Env.{Env}
use deepticket.Exec.{pure, ◌>>=◌}
use deepticket.World.{Action, token_hex}

module _ ⦃env : Env⦄ where
  unfoldable pub hash_password : String → Action (String × String)
  hash_password password = do salt ← token_hex; pure (salt, env.pbkdf2 password salt)

  unfoldable pub verify_password : String → String → String → Bool
  verify_password password salt password_hash = env.pbkdf2 password salt == password_hash

-- ===== src/Exec/Pure.antt =====
-- Code that may raise and has no state.
use deepticket.Prelude.{Option, none, some}
use deepticket.Exec.Defs.{Error, Result, ok, err}

infixl 5 ◌>>=◌
abbrev pub ◌>>=◌ {ℓ κ} : {A : Type ℓ} {B : Type κ} → Result A → (A → Result B) → Result B
ok a >>= f = f a
err e >>= f = err e

-- `None` as an error
abbrev pub from_option {ℓ} : {A : Type ℓ} → Option A → Error → Result A
from_option none e = err e
from_option (some a) e = ok a

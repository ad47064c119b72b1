-- ===== src/Investigation/Evolution/Rules.antt =====
-- Rules for code: which actions evolve the runs only by the machine's steps.
use deepticket.Prelude.{String, ◌≡◌, Bool, true, false, Option, none, some}
use deepticket.Env.{Env}
use deepticket.Exec.{Result, ok, err, Error, pure, lift, gets, when, require, continue, ◌>>=◌}
use deepticket.Storage.Local.{Storage, get_json}
use deepticket.World.{World, Action, on_storage, uuid4, utc_now_iso}
use deepticket.Investigation.RunDocs.{ns_run}
use deepticket.Investigation.Evolution.{Step, quiet, Evolves, here, next}

module _ ⦃env : Env⦄ where
  pub Evolves-trans : {s t u : Storage} → Evolves s t → Evolves t u → Evolves s u
  Evolves-trans a here = a
  Evolves-trans a (next b st) = next (Evolves-trans a b) st

  pub Evolves-one : {s t : Storage} → Step s t → Evolves s t
  Evolves-one st = next here st

  pub record Refines {A : Type 0} (m : Action A) : Type 0 where
    pub at : (w : World) → Evolves w.storage (m w).1.storage

  module _ {A : Type 0} where
    pub Refines-pure : (a : A) → Refines (pure a)
    Refines-pure a = record { at = λ w. here }

    pub Refines-lift : (r : Result A) → Refines {A = A} (lift r)
    Refines-lift r = record { at = λ w. here }

    pub Refines-gets : (f : World → A) → Refines (gets f)
    Refines-gets f = record { at = λ w. here }

    pub Refines-require : (o : Option A) (e : Error) → Refines (require o e)
    Refines-require none e = record { at = λ w. here }
    Refines-require (some a) e = record { at = λ w. here }

  pub Refines-uuid4 : Refines uuid4
  Refines-uuid4 = record { at = λ w. here }

  pub Refines-utc_now_iso : Refines utc_now_iso
  Refines-utc_now_iso = record { at = λ w. here }

  -- A write that no reader of runs sees.
  pub Refines-on_storage :
      (f : Storage → Storage)
      → ((s : Storage) (k : String) → get_json (f s) ns_run k ≡ get_json s ns_run k)
      → Refines (on_storage f)
  Refines-on_storage f h = record { at = λ w. Evolves-one (quiet (h w.storage)) }

  pub Refines-when : (b : Bool) (m : Action (Unit {0})) → Refines m → Refines (when b m)
  Refines-when true m h = h
  Refines-when false m h = record { at = λ w. here }

  module _ {A B : Type 0} where
    pub continue-Evolves :
        (s : Storage) (r : Result A) (w : World) (f : A → Action B)
        → Evolves s w.storage
        → ((a : A) → Refines (f a))
        → Evolves s (continue (r, w) f).1.storage
    continue-Evolves s (ok a) w f h k = Evolves-trans h ((k a).at w)
    continue-Evolves s (err e) w f h k = h

    pub Refines-bind :
        (m : Action A) (f : A → Action B)
        → Refines m
        → ((a : A) → Refines (f a))
        → Refines (m >>= f)
    Refines-bind m f h k = record {
      at = λ w. let (r, w') = m w in continue-Evolves w.storage r w' f (h.at w) k;
    }

pub ruleset refines_rules = (
  Refines-pure, Refines-lift, Refines-gets, Refines-require, Refines-uuid4, Refines-utc_now_iso,
  Refines-when, Refines-bind,
)

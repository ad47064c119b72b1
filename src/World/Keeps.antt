-- ===== src/World/Keeps.antt =====
-- Rules for code: which actions leave the documents of a namespace as they are.
use deepticket.Prelude.{String, ◌≡◌, refl, ◌∙◌, Bool, true, false, Option, none, some}
use deepticket.Env.{Env}
use deepticket.Exec.{Result, ok, err, Error, pure, lift, gets, when, require, continue, ◌>>=◌}
use deepticket.Storage.Local.{Storage, get_json}
use deepticket.World.{World, Action, on_storage, uuid4, utc_now_iso}

abbrev pub Same : String → Storage → Storage → Type 0
Same ns s t = (k : String) → get_json t ns k ≡ get_json s ns k

pub record Keeps (ns : String) {A : Type 0} (m : Action A) : Type 0 where
  pub at : (w : World) → Same ns w.storage (m w).1.storage

module _ {ns : String} where
  module _ {A : Type 0} where
    pub Keeps-pure : (a : A) → Keeps ns (pure a)
    Keeps-pure a = record { at = λ w k. refl }

    pub Keeps-lift : (r : Result A) → Keeps ns {A = A} (lift r)
    Keeps-lift r = record { at = λ w k. refl }

    pub Keeps-gets : (f : World → A) → Keeps ns (gets f)
    Keeps-gets f = record { at = λ w k. refl }

    pub Keeps-require : (o : Option A) (e : Error) → Keeps ns (require o e)
    Keeps-require none e = record { at = λ w k. refl }
    Keeps-require (some a) e = record { at = λ w k. refl }

  pub Keeps-uuid4 : ⦃env : Env⦄ → Keeps ns uuid4
  Keeps-uuid4 = record { at = λ w k. refl }

  pub Keeps-utc_now_iso : ⦃env : Env⦄ → Keeps ns utc_now_iso
  Keeps-utc_now_iso = record { at = λ w k. refl }

  pub Keeps-on_storage :
      (f : Storage → Storage) → ((s : Storage) → Same ns s (f s)) → Keeps ns (on_storage f)
  Keeps-on_storage f h = record { at = λ w. h w.storage }

  pub Keeps-when : (b : Bool) (m : Action (Unit {0})) → Keeps ns m → Keeps ns (when b m)
  Keeps-when true m h = h
  Keeps-when false m h = record { at = λ w k. refl }

  module _ {A B : Type 0} where
    continue-Same :
        (s : Storage) (r : Result A) (w : World) (f : A → Action B)
        → Same ns s w.storage
        → ((a : A) → Keeps ns (f a))
        → Same ns s (continue (r, w) f).1.storage
    continue-Same s (ok a) w f h k j = (k a).at w j ∙ h j
    continue-Same s (err e) w f h k j = h j

    pub Keeps-bind :
        (m : Action A) (f : A → Action B)
        → Keeps ns m
        → ((a : A) → Keeps ns (f a))
        → Keeps ns (m >>= f)
    Keeps-bind m f h k = record {
      at = λ w. let (r, w') = m w in continue-Same w.storage r w' f (h.at w) k;
    }

pub ruleset keeps_rules = (
  Keeps-pure, Keeps-lift, Keeps-gets, Keeps-require, Keeps-uuid4, Keeps-utc_now_iso, Keeps-when,
  Keeps-bind,
)

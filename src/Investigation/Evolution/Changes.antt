-- ===== src/Investigation/Evolution/Changes.antt =====
-- What becomes of the stored runs, key by key, where each document stands at its run's key.
use deepticket.Prelude.{String, ◌≡◌, subst, ◌∙◌, none, some, ◌==◌, if◌then◌else◌}
use deepticket.Env.{Env}
use deepticket.Storage.Local.{Storage, get_json}
use deepticket.Investigation.Status.{created}
use deepticket.Investigation.Models.{InvestigationRun, to_dict}
use deepticket.Investigation.RunDocs.{ns_run}
use deepticket.Investigation.Evolution.{
  key_of, Follows, Step, quiet, insert, update, Evolves, here, next,
}
use deepticket.Investigation.Evolution.Laws.{Stored, IsKeyed, Evolves-IsKeyed, Follows-key_of}

-- `t` is `s` with the run's document at the key, as far as runs are concerned.
abbrev pub PutAt : String → InvestigationRun → Storage → Storage → Type 0
PutAt k run s t =
    (j : String)
    → get_json t ns_run j ≡ (if k == j then some (to_dict run) else get_json s ns_run j)

module _ ⦃env : Env⦄ where
  -- No run changes; a created run comes in at its key, which was not in use; or the run at a key gives way
  -- to a later version of itself at the same key.
  pub data Change (s t : Storage) : Type 0 where
    unchanged : ((k : String) → get_json t ns_run k ≡ get_json s ns_run k) → Change s t
    added :
        (run : InvestigationRun)
        → run.status ≡ created
        → get_json s ns_run (key_of run) ≡ none
        → PutAt (key_of run) run s t
        → Change s t
    replaced :
        (k : String) (run run' : InvestigationRun)
        → Stored k run s
        → key_of run' ≡ k
        → Follows run run'
        → PutAt k run' s t
        → Change s t

  pub data Changes (s : Storage) : Storage → Type 0 where
    none_yet : Changes s s
    then_one : {t u : Storage} → Changes s t → Change t u → Changes s u

  Step-Change : {s t : Storage} → Step s t → IsKeyed s → Change s t
  Step-Change (quiet h) v = unchanged h
  Step-Change (insert run c fresh w) v = added run c fresh w
  Step-Change {s} {t} (update k doc run run' at reads f w) v =
      let st : Stored k run s = record { doc = doc; at = at; reads = reads } in
      let same : key_of run' ≡ k = Follows-key_of f ∙ v.keyed k run st in
      replaced k run run' st same f (subst (λ i. PutAt i run' s t) same w)

  pub Evolves-Changes : {s t : Storage} → Evolves s t → IsKeyed s → Changes s t
  Evolves-Changes here v = none_yet
  Evolves-Changes (next e step) v =
      then_one (Evolves-Changes e v) (Step-Change step (Evolves-IsKeyed e v))

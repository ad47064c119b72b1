-- ===== src/Investigation/Evolution.antt =====
-- The runs' documents as an abstract machine: what the stored runs of deepticket/investigation/store.py
-- may become, whatever operation is called.
pub mod Rules
pub mod Operations
pub mod Recovery
pub mod Laws
pub mod Changes
pub mod History
use deepticket.Prelude.{String, ◌≡◌, ◌⊎◌, Option, none, some, ◌==◌, if◌then◌else◌, ◌≤◌}
use deepticket.Json.{Fields}
use deepticket.Env.{Env}
use deepticket.Exec.{ok}
use deepticket.Storage.Local.{Storage, get_json}
use deepticket.Investigation.Status.{RunStatus, created, validate_transition}
use deepticket.Investigation.Models.{InvestigationRun, to_dict, from_dict}
use deepticket.Investigation.RunDocs.{ns_run, run_key}

abbrev pub key_of : InvestigationRun → String
key_of run = run_key run.project_id run.run_id

-- A status stays, or moves as the transition table allows.
abbrev pub Moves : RunStatus → RunStatus → Type 0
Moves a b = (a ≡ b) ⊎ (validate_transition a b ≡ ok tt)

-- `t` is `s` with the document of `run` written, as far as runs are concerned.
abbrev pub Written : InvestigationRun → Storage → Storage → Type 0
Written run s t =
    (k : String)
    → get_json t ns_run k ≡ (if key_of run == k then some (to_dict run) else get_json s ns_run k)

-- `run'` is a later version of `run`: the same run, at an allowed status, with no fewer events.
pub record Follows (run run' : InvestigationRun) : Type 0 where
  pub run_id : run'.run_id ≡ run.run_id
  pub project_id : run'.project_id ≡ run.project_id
  pub uid : run'.uid ≡ run.uid
  pub moves : Moves run.status run'.status
  pub events : run.event_count ≤ run'.event_count

module _ ⦃env : Env⦄ where
  pub data Step (s t : Storage) : Type 0 where
    quiet : ((k : String) → get_json t ns_run k ≡ get_json s ns_run k) → Step s t
    insert :
        (run : InvestigationRun)
        → run.status ≡ created
        → get_json s ns_run (key_of run) ≡ none
        → Written run s t
        → Step s t
    update :
        (k : String) (doc : Fields) (run run' : InvestigationRun)
        → get_json s ns_run k ≡ some doc
        → from_dict doc ≡ ok run
        → Follows run run'
        → Written run' s t
        → Step s t

  pub data Evolves (s : Storage) : Storage → Type 0 where
    here : Evolves s s
    next : {t u : Storage} → Evolves s t → Step t u → Evolves s u

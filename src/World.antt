-- ===== src/World.antt =====
-- The state that the stores share: the storage, and how many identifiers and clock readings were taken.
pub mod Keeps
pub mod Frames
use deepticket.Prelude.{ℕ, suc, String}
use deepticket.Env.{Env}
use deepticket.Exec.{Exec, ok}
use deepticket.Storage.Local.{Storage, empty}

pub record World : Type 0 where
  pub storage : Storage
  pub uuids : ℕ
  pub ticks : ℕ

abbrev pub start : World
start = record { storage = empty; uuids = 0; ticks = 0 }

abbrev pub Action : Type 0 → Type 0
Action A = Exec World A

abbrev pub on_storage : (Storage → Storage) → Action (Unit {0})
on_storage f w = (ok tt, record w { storage = f w.storage })

module _ ⦃env : Env⦄ where
  abbrev pub uuid4 : Action String
  uuid4 w = (ok (env.uuid4_hex w.uuids), record w { uuids = suc w.uuids })

  abbrev pub utc_now_iso : Action String
  utc_now_iso w = (ok (env.utc_now_iso w.ticks), record w { ticks = suc w.ticks })

  abbrev pub time_ms : Action ℕ
  time_ms w = (ok (env.time_ms w.ticks), record w { ticks = suc w.ticks })

  -- `secrets.token_hex(16)` and `secrets.token_urlsafe(32)`
  abbrev pub token_hex : Action String
  token_hex w = (ok (env.token_hex w.uuids), record w { uuids = suc w.uuids })

  abbrev pub token_urlsafe : Action String
  token_urlsafe w = (ok (env.token_urlsafe w.uuids), record w { uuids = suc w.uuids })

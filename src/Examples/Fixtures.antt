-- ===== src/Examples/Fixtures.antt =====
-- Concrete values of Python's runtime, a run in the storage, and a gate.
use deepticket.Prelude.{ℕ, zero, suc, String, none, some, refl, inr, arith}
use deepticket.Json.{dict, end}
use deepticket.Env.{Env}
use deepticket.Storage.Local.{Storage, empty, get_json, set_json}
use deepticket.Storage.Laws.{get_json-set_json, get_json-empty}
use deepticket.World.{World}
use deepticket.Investigation.Status.{RunStatus, created, running, chat, validate_transition}
use deepticket.Investigation.Models.{InvestigationRun, to_dict}
use deepticket.Investigation.Models.RoundTrip.{from_dict-to_dict}
use deepticket.Investigation.RunDocs.{ns_run, run_key}
use deepticket.Investigation.Evolution.{Evolves, here, next, insert, update}
use deepticket.Investigation.Evolution.Laws.{Stored, IsKeyed, Evolves-IsKeyed}
use deepticket.Investigation.Evolution.History.{empty-IsKeyed}

abbrev pub name_of : ℕ → String
name_of zero = "0a"
name_of (suc zero) = "1b"
name_of (suc (suc n)) = "2c"

instance abbrev pub python : Env
python = record {
  repr = λ v. "?";
  int_of_str = λ s. none;
  uuid4_hex = name_of;
  utc_now_iso = λ n. "2026-01-02T03:04:05Z";
  time_ms = λ n. n;
  iso_ms = λ s. none;
  iso_of_ms = λ n. "2026-02-01T03:04:05+00:00";
  local_ms = λ s. none;
  lower = λ s. s;
  token_hex = λ n. "5a";
  token_urlsafe = name_of;
  pbkdf2 = λ password salt. password;
  json_dumps = λ v. "{}";
  json_loads = λ s. some (dict end);
}

abbrev pub run_at : RunStatus → InvestigationRun
run_at status = record {
  run_id = "r";
  project_id = "p";
  uid = "u";
  source = chat;
  status = status;
  created_at = "t";
  updated_at = "t";
  chat_id = some "c";
  ingress_job_id = none;
  ticket_id = none;
  oh_conversation_id = none;
  started_at = none;
  finished_at = none;
  error_message = none;
  tool_call_count = 0;
  event_count = 0;
}

abbrev pub key : String
key = run_key "p" "r"

abbrev pub with_created : Storage
with_created = set_json empty ns_run key (to_dict (run_at created))

abbrev pub with_running : Storage
with_running = set_json with_created ns_run key (to_dict (run_at running))

abbrev pub world_of : Storage → World
world_of s = record { storage = s; uuids = 0; ticks = 0 }

pub created-Stored : Stored key (run_at created) with_created
unfolding set_json get_json empty
created-Stored = record {
  doc = to_dict (run_at created);
  at = refl;
  reads = from_dict-to_dict (run_at created);
}

pub running-Stored : Stored key (run_at running) with_running
unfolding set_json get_json empty
running-Stored = record {
  doc = to_dict (run_at running);
  at = refl;
  reads = from_dict-to_dict (run_at running);
}

created-Evolves : Evolves empty with_created
created-Evolves = next here (
    insert (run_at created) refl (get_json-empty ns_run key)
      (λ k. get_json-set_json empty ns_run key ns_run k (to_dict (run_at created))))

running-Evolves : Evolves empty with_running
unfolding validate_transition
running-Evolves = next created-Evolves (
    update key created-Stored.doc (run_at created) (run_at running) created-Stored.at
      created-Stored.reads
      (record {
        run_id = refl;
        project_id = refl;
        uid = refl;
        moves = inr refl;
        events = omega arith;
      })
      (λ k. get_json-set_json with_created ns_run key ns_run k (to_dict (run_at running))))

pub created-IsKeyed : IsKeyed with_created
created-IsKeyed = Evolves-IsKeyed created-Evolves empty-IsKeyed

pub running-IsKeyed : IsKeyed with_running
running-IsKeyed = Evolves-IsKeyed running-Evolves empty-IsKeyed

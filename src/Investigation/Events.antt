-- ===== src/Investigation/Events.antt =====
-- deepticket/investigation/events.py: the append-only event stream of a run.
pub mod Frames
pub mod Listing
use deepticket.Prelude.{
  ℕ, zero, String, Bool, true, false, Option, none, some, List, [], ◌∷◌, if◌then◌else◌, leb, ltb,
  take, min, max,
}
use deepticket.Prelude.Int.{pos, negsuc}
use deepticket.Prelude.Sort.{sort}
use deepticket.Prelude.Text.{◌<>◌}
use deepticket.Json.{Fields, end, field, str, num, dict, dict_of, str_or_null}
use deepticket.Env.{Env}
use deepticket.Exec.{Result, ok, err, value_error, lift, gets, pure, when, ◌>>=◌, ◌>>◌}
use deepticket.Exec.Pure
use deepticket.Storage.Local.{Storage, get_json, set_json, incr, zadd, zrange}
use deepticket.World.{World, Action, on_storage, uuid4, utc_now_iso}
use deepticket.Investigation.Models.{count_at}
use deepticket.Investigation.RunDocs.{
  RunEventType, run_created, run_status_changed, agent_message, tool_call, tool_result,
  policy_decision, error, run_completed, bump_event_stats,
}

abbrev pub ns_run_event : String
ns_run_event = "inv_run_event"

abbrev pub ns_run_events : String
ns_run_events = "inv_run_events"

abbrev pub ns_run_seq : String
ns_run_seq = "inv_run_seq"

abbrev pub event_value : RunEventType → String
event_value run_created = "run_created"
event_value run_status_changed = "run_status_changed"
event_value agent_message = "agent_message"
event_value tool_call = "tool_call"
event_value tool_result = "tool_result"
event_value policy_decision = "policy_decision"
event_value error = "error"
event_value run_completed = "run_completed"

abbrev pub event_key : String → String → String
event_key project_id event_id = project_id <> ":" <> event_id

abbrev pub run_index_key : String → String → String
run_index_key project_id run_id = project_id <> ":" <> run_id

abbrev pub seq_key : String → String → String
seq_key project_id run_id = project_id <> ":" <> run_id

-- `run_store` says whether the event store was given the run store whose counters it keeps.
pub record RunEventStore : Type 0 where
  pub run_store : Bool

module _ ⦃env : Env⦄ where
  abbrev taken : Option ℕ → Storage → Action ℕ
  taken none after w = (err (value_error "value"), w)
  taken (some seq) after w = (ok seq, record w { storage = after })

  abbrev pub next_seq : String → String → Action ℕ
  next_seq project_id run_id w =
      let (value, after) = incr w.storage ns_run_seq (seq_key project_id run_id) 1 in
      taken value after w

  abbrev pub event_doc :
      String → String → String → ℕ → RunEventType → String → Fields → Option String → Fields
  event_doc event_id run_id project_id seq event_type timestamp payload oh_event_id = dict_of (
      ("event_id", str event_id)
      ∷ ("run_id", str run_id)
      ∷ ("project_id", str project_id)
      ∷ ("seq", num seq)
      ∷ ("type", str (event_value event_type))
      ∷ ("timestamp", str timestamp)
      ∷ ("payload", dict payload)
      ∷ ("oh_event_id", str_or_null oh_event_id)
      ∷ [])

  unfoldable pub append :
      RunEventStore → String → String → RunEventType → Fields → Option String → Action Fields
  append store project_id run_id event_type payload oh_event_id = do
    seq ← next_seq project_id run_id
    event_id ← uuid4
    now ← utc_now_iso
    let doc = event_doc event_id run_id project_id seq event_type now payload oh_event_id
    on_storage (λ s. set_json s ns_run_event (event_key project_id event_id) doc)
    on_storage (λ s. zadd s ns_run_events (run_index_key project_id run_id) ((event_id, seq) ∷ []))
    when store.run_store (bump_event_stats project_id run_id event_type)
    pure doc

  -- `int(doc.get("seq") or 0)` as a sort key
  abbrev pub seq_of : Fields → ℕ
  seq_of doc = elim (count_at doc "seq") [ ok n ↦ n | err e ↦ 0 ]

  -- `if seq <= after_seq: continue`
  abbrev pub kept : ℕ → Fields → List Fields → Result ℕ → Result (List Fields)
  kept after_seq doc rest (err e) = err e
  kept after_seq doc rest (ok seq) = if leb seq after_seq then ok rest else ok (doc ∷ rest)

  -- One document of the loop of `list_events`: `None` and the empty dictionary are skipped.
  abbrev pub listed : ℕ → Option Fields → List Fields → Result (List Fields)
  listed after_seq none rest = ok rest
  listed after_seq (some end) rest = ok rest
  listed after_seq (some (field k v d)) rest =
      kept after_seq (field k v d) rest (count_at (field k v d) "seq")

  -- The loop, from the last event to the first.
  unfoldable pub collect : Storage → String → ℕ → List String → Result (List Fields)
  collect s project_id after_seq [] = ok []
  collect s project_id after_seq (event_id ∷ ids) =
      let doc = get_json s ns_run_event (event_key project_id event_id) in
      Pure.◌>>=◌ (collect s project_id after_seq ids) (λ rest. listed after_seq doc rest)

  abbrev pub by_seq : Fields → Fields → Bool
  by_seq a b = leb (seq_of a) (seq_of b)

  unfoldable pub list_events : String → String → ℕ → ℕ → Action (List Fields)
  unfolding collect
  list_events project_id run_id after_seq limit = do
    ids ←
        gets
          (λ w. zrange w.storage ns_run_events (run_index_key project_id run_id) (pos 0) (negsuc 0))
    s ← gets (λ w. w.storage)
    events ← lift (collect s project_id after_seq ids)
    pure (take (max 1 (min limit 500)) (sort by_seq events))

-- ===== src/ChatRuns/State.antt =====
-- A chat run with its subscribers, and the code that runs on it: an action on the shared state and the one
-- run object that the task holds.
use deepticket.Prelude.{
  ℕ, String, Bool, Option, List, [], ◌∷◌, ◌++◌, map, if◌then◌else◌, ltb, length,
}
use deepticket.Json.{str}
use deepticket.Env.{Env}
use deepticket.Exec.{
  Error, key_error, value_error, type_error, run_transition_error, runtime_error,
  policy_approval_required, policy_denied, cancelled_error, attribute_error, http_error, Exec,
  Result, ok, err, modify,
}
use deepticket.World.{World, Action}
use deepticket.Output.Chunks.{StreamChunk}

pub data Item : Type 0 where
  chunk : StreamChunk → Item
  sentinel : Item

-- A subscriber's queue. Queues are compared by identity, so each has its own number.
pub record Queue : Type 0 where
  pub ident : ℕ
  pub items : List Item

-- `asyncio.Queue(maxsize=512)`
abbrev pub maxsize : ℕ
maxsize = 512

pub record ChatRun : Type 0 where
  pub project_id : String
  pub uid : String
  pub chat_id : String
  pub run_id : Option String
  pub agent_conversation_id : Option String
  pub subscribers : List Queue
  pub cancel_requested : Bool
  pub done : Bool

pub record Job : Type 0 where
  pub world : World
  pub run : ChatRun

-- `queue.put_nowait(item)`; a full queue drops the item.
abbrev pub put_nowait : Item → Queue → Queue
put_nowait item q =
    if ltb (length q.items) maxsize then record q { items = q.items ++ (item ∷ []) } else q

unfoldable pub broadcast_item : Item → ChatRun → ChatRun
broadcast_item item run = record run { subscribers = map (put_nowait item) run.subscribers }

abbrev pub update_run : (ChatRun → ChatRun) → Exec Job (Unit {0})
update_run f = modify (λ j. record j { run = f j.run })

-- `_broadcast`
abbrev pub broadcast : StreamChunk → Exec Job (Unit {0})
broadcast c = update_run (broadcast_item (chunk c))

module _ {A : Type 0} where
  unfoldable pub on_world : Action A → Exec Job A
  on_world m j = let (r, w) = m j.world in (r, record j { world = w })

  -- `try: ... except RunTransitionError: logger.warning(...)`
  abbrev pub skipped : Result A → Result (Unit {0})
  skipped (ok a) = ok tt
  skipped (err (run_transition_error m)) = ok tt
  skipped (err e) = err e

  unfoldable pub attempt : Exec Job A → Exec Job (Unit {0})
  attempt m j = let (r, j') = m j in (skipped r, j')

-- `str(exc)`
abbrev pub error_message : ⦃env : Env⦄ → Error → String
error_message ⦃env⦄ (key_error m) = env.repr (str m)
error_message (value_error m) = m
error_message (type_error m) = m
error_message (run_transition_error m) = m
error_message (runtime_error m) = m
error_message (policy_approval_required m) = m
error_message (policy_denied m) = m
error_message (cancelled_error m) = m
error_message (attribute_error m) = m
error_message (http_error m) = m

-- ===== src/Investigation/Status.antt =====
-- `RunStatus` and `RunSource` of deepticket/investigation/models.py, and the transition table of
-- deepticket/investigation/transitions.py.
use deepticket.Prelude.{String, Bool, List, [], ◌∷◌, ◌==◌, ◌&&◌, any, if◌then◌else◌, ◌≡◌, refl}
use deepticket.Prelude.Text.{◌<>◌}
use deepticket.Json.{str}
use deepticket.Env.{Env}
use deepticket.Exec.{Result, ok, err, value_error, run_transition_error}

pub data RunStatus : Type 0 where
  created queued running waiting_approval completed failed blocked cancelled : RunStatus

-- the members' `.value`
abbrev pub value : RunStatus → String
value created = "created"
value queued = "queued"
value running = "running"
value waiting_approval = "waiting_approval"
value completed = "completed"
value failed = "failed"
value blocked = "blocked"
value cancelled = "cancelled"

module _ ⦃env : Env⦄ where
  -- `RunStatus(s)`
  unfoldable pub status_of : String → Result RunStatus
  status_of s =
      if s == "created"
      then ok created
      else if s == "queued"
      then ok queued
      else if s == "running"
      then ok running
      else if s == "waiting_approval"
      then ok waiting_approval
      else if s == "completed"
      then ok completed
      else if s == "failed"
      then ok failed
      else if s == "blocked"
      then ok blocked
      else if s == "cancelled"
      then ok cancelled
      else err (value_error (env.repr (str s) <> " is not a valid RunStatus"))

-- Members of a `StrEnum` are equal when their values are.
abbrev pub is_status : RunStatus → RunStatus → Bool
is_status a b = value a == value b

pub data RunSource : Type 0 where
  chat ingress ticket : RunSource

abbrev pub source_value : RunSource → String
source_value chat = "chat"
source_value ingress = "ingress"
source_value ticket = "ticket"

module _ ⦃env : Env⦄ where
  -- `RunSource(s)`
  unfoldable pub source_of : String → Result RunSource
  source_of s =
      if s == "chat"
      then ok chat
      else if s == "ingress"
      then ok ingress
      else if s == "ticket"
      then ok ticket
      else err (value_error (env.repr (str s) <> " is not a valid RunSource"))

abbrev pub terminal_run_statuses : List RunStatus
terminal_run_statuses = completed ∷ failed ∷ blocked ∷ cancelled ∷ []

abbrev pub is_terminal_status : RunStatus → Bool
is_terminal_status s = any (is_status s) terminal_run_statuses

abbrev pub allowed_run_transitions : List (RunStatus × RunStatus)
allowed_run_transitions =
    (created, queued)
    ∷ (created, running)
    ∷ (created, cancelled)
    ∷ (queued, running)
    ∷ (queued, cancelled)
    ∷ (running, waiting_approval)
    ∷ (running, completed)
    ∷ (running, failed)
    ∷ (running, blocked)
    ∷ (running, cancelled)
    ∷ (waiting_approval, running)
    ∷ (waiting_approval, failed)
    ∷ (waiting_approval, blocked)
    ∷ (waiting_approval, cancelled)
    ∷ []

abbrev is_allowed : RunStatus → RunStatus → Bool
is_allowed from to =
    any (λ pair. is_status from pair.0 && is_status to pair.1) allowed_run_transitions

unfoldable pub validate_transition : RunStatus → RunStatus → Result (Unit {0})
validate_transition from to =
    if is_terminal_status from
    then err (
        run_transition_error
          ("run already terminal (" <> value from <> "); cannot transition to " <> value to))
    else if is_allowed from to
    then ok tt
    else err (run_transition_error ("transition not allowed: " <> value from <> " -> " <> value to))

pub status_of-value : ⦃env : Env⦄ (s : RunStatus) → status_of (value s) ≡ ok s
unfolding status_of
status_of-value created = refl
status_of-value queued = refl
status_of-value running = refl
status_of-value waiting_approval = refl
status_of-value completed = refl
status_of-value failed = refl
status_of-value blocked = refl
status_of-value cancelled = refl

pub source_of-source_value : ⦃env : Env⦄ (s : RunSource) → source_of (source_value s) ≡ ok s
unfolding source_of
source_of-source_value chat = refl
source_of-source_value ingress = refl
source_of-source_value ticket = refl

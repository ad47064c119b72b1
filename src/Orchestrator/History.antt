-- ===== src/Orchestrator/History.antt =====
-- `ChatOrchestrator._history_from_thread`: what the agent is told of the conversation so far.
pub mod Current
use deepticket.Prelude.{
  String, Bool, ◌&&◌, ◌||◌, Option, none, some, List, [], ◌∷◌, ◌==◌, if◌then◌else◌,
}
use deepticket.Prelude.Text.{nonempty, strip, split, join}
use deepticket.Chat.Messages.{Message}
use deepticket.Chat.Reading.{Thread}

pub record Turn : Type 0 where
  pub role : String
  pub content : String

abbrev pub is_told : String → String → Bool
is_told role content = (role == "user" || role == "assistant") && nonempty content

unfoldable pub turns : List Message → List Turn
turns [] = []
turns (msg ∷ msgs) =
    let content = strip msg.content in
    let rest = turns msgs in
    if is_told msg.role content then record { role = msg.role; content = content } ∷ rest else rest

-- `" ".join(s.split())`
abbrev pub normal : String → String
normal s = join " " (split s)

abbrev pub is_current : String → Turn → Bool
is_current current last = last.role == "user" && normal last.content == normal current

-- `history[:-1]`, where the last turn is the user's current message
unfoldable pub without_current : String → List Turn → List Turn
without_current current [] = []
without_current current (turn ∷ []) = if is_current current turn then [] else turn ∷ []
without_current current (turn ∷ next ∷ rest) = turn ∷ without_current current (next ∷ rest)

unfoldable pub history_from_thread : Option Thread → String → List Turn
unfolding turns without_current
history_from_thread none current = []
history_from_thread (some thread) current = without_current current (turns thread.messages)

-- ===== src/Orchestrator/History/Current.antt =====
-- The history against the messages of the thread: which are told, and whether the last one is left out.
use deepticket.Prelude.{
  ◌||◌, not, String, ◌≡◌, refl, ap, ◌∙◌, Bool, true, ◌&&◌, some, inl, inr, List, [], ◌∷◌, ◌++◌, map,
  ◌==◌, if◌then◌else◌, Bool-cases, select,
}
use deepticket.Prelude.Text.{strip, split, join}
use deepticket.Chat.Messages.{Message}
use deepticket.Chat.Reading.{Thread}
use deepticket.Orchestrator.History.{Turn, turns, is_current, without_current, history_from_thread}

abbrev pub turn_of : Message → Turn
turn_of msg = record { role = msg.role; content = strip msg.content }

abbrev pub is_turn : Message → Bool
is_turn msg = (msg.role == "user" || msg.role == "assistant") && not (strip msg.content == "")

-- The messages of the user and the assistant that are not blank
abbrev pub told : List Message → List Turn
told msgs = map turn_of (select is_turn msgs)

turns-told : (msgs : List Message) → turns msgs ≡ told msgs
unfolding turns
turns-told [] = refl
turns-told (msg ∷ msgs) = elim (Bool-cases (is_turn msg)) [
  | inl e ↦ rw (e, turns-told msgs) refl
  | inr e ↦ rw (e, turns-told msgs) refl
]

told-last :
    (msgs : List Message) (msg : Message)
    → is_turn msg ≡ true
    → told (msgs ++ (msg ∷ [])) ≡ told msgs ++ (turn_of msg ∷ [])
told-last [] msg h = rw h refl
told-last (m ∷ msgs) msg h = elim (Bool-cases (is_turn m)) [
  | inl e ↦ rw (e, told-last msgs msg h) refl
  | inr e ↦ rw (e, told-last msgs msg h) refl
]

without_current-last :
    (current : String) (ts : List Turn) (last : Turn)
    → without_current current (ts ++ (last ∷ []))
      ≡ (if is_current current last then ts else ts ++ (last ∷ []))
unfolding without_current
without_current-last current [] last = refl
without_current-last current (t ∷ []) last = elim (Bool-cases (is_current current last)) [
  | inl e ↦ rw e refl
  | inr e ↦ rw e refl
]
without_current-last current (t ∷ u ∷ ts) last =
    ap (λ rest. t ∷ rest) (without_current-last current (u ∷ ts) last)
    ∙ elim (Bool-cases (is_current current last)) [ inl e ↦ rw e refl | inr e ↦ rw e refl ]

-- For a thread whose last message is the user's or the assistant's and is not blank, the history holds, in
-- their order, the earlier messages of both that are not blank, and the last one unless it is the user's
-- and has the words of the message that is being sent.
pub history_from_thread-last :
    (thread : Thread) (current : String) (msgs : List Message) (msg : Message)
    → thread.messages ≡ msgs ++ (msg ∷ [])
    → is_turn msg ≡ true
    → history_from_thread (some thread) current ≡ (
        if msg.role == "user" && join " " (split (strip msg.content)) == join " " (split current)
        then told msgs
        else told msgs ++ (turn_of msg ∷ []))
unfolding history_from_thread
history_from_thread-last thread current msgs msg h t =
    rw (h, turns-told (msgs ++ (msg ∷ [])), told-last msgs msg t)
      (without_current-last current (told msgs) (turn_of msg))

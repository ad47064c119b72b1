-- ===== src/Usage/Recording.antt =====
-- deepticket/service.py: `DeepTicketService.record_chat_token_usage`, after the engine has answered.
pub mod Frames
use deepticket.Prelude.{
  ℕ, ◌-◌, String, Bool, true, false, not, ◌&&◌, Option, none, some, List, [], ◌∷◌, ◌==◌,
  if◌then◌else◌, eqb,
}
use deepticket.Prelude.Int.{pos}
use deepticket.Prelude.Text.{nonempty, strip, clip}
use deepticket.Env.{Env}
use deepticket.Exec.{pure, when, ◌>>=◌, ◌>>◌}
use deepticket.World.{Action}
use deepticket.Auth.Users.{AuthUser, get_user}
use deepticket.Chat.Reading.{TokenUsage, Thread, get_thread_summary}
use deepticket.Chat.Writing.{set_token_usage}
use deepticket.Usage.Tokens.{Counts, Origin, record_run}

-- What the engine's library reports of a conversation: its counts so far, and the model, if known.
pub record Fetched : Type 0 where
  pub counts : Counts
  pub model : Option String

-- `self.engine.llm_model` and `self.llm_label`
pub record Llm : Type 0 where
  pub model : String
  pub label : String

abbrev pub previous : Option TokenUsage → Counts
previous none = record {
  prompt_tokens = 0;
  completion_tokens = 0;
  reasoning_tokens = 0;
  total_tokens = 0;
}
previous (some usage) = record {
  prompt_tokens = usage.prompt_tokens;
  completion_tokens = usage.completion_tokens;
  reasoning_tokens = usage.reasoning_tokens;
  total_tokens = usage.total_tokens;
}

-- `max(0, a - b)` of each count
unfoldable pub delta_of : Counts → Counts → Counts
delta_of a b = record {
  prompt_tokens = a.prompt_tokens - b.prompt_tokens;
  completion_tokens = a.completion_tokens - b.completion_tokens;
  reasoning_tokens = a.reasoning_tokens - b.reasoning_tokens;
  total_tokens = a.total_tokens - b.total_tokens;
}

abbrev pub is_first : Option TokenUsage → Bool
is_first none = true
is_first (some usage) = false

-- What this run used: all of it where nothing was recorded before
unfoldable pub run_delta : Counts → Option TokenUsage → Counts
unfolding delta_of
run_delta counts prev =
    let delta = delta_of counts (previous prev) in
    if eqb delta.total_tokens 0 && is_first prev then counts else delta

-- `str(usage.get("model") or self.engine.llm_model or "").strip()`
abbrev pub model_or : Option String → String → String
model_or none llm_model = strip llm_model
model_or (some m) llm_model = if nonempty m then strip m else strip llm_model

abbrev pub username_of : Option AuthUser → String → String
username_of none uid = clip 8 uid
username_of (some user) uid = user.username

module _ ⦃env : Env⦄ (llm : Llm) where
  abbrev pub record_thread :
      String → String → String → String → Fetched → Option Thread → Action (Unit {0})
  record_thread project_id uid chat_id conversation fetched none = pure tt
  record_thread project_id uid chat_id conversation fetched (some thread) = do
    user ← get_user uid
    let model = model_or fetched.model llm.model
    let model_label = if model == llm.model then llm.label else model
    let counts = fetched.counts
    let delta = run_delta counts thread.token_usage
    set_token_usage project_id uid chat_id (pos counts.prompt_tokens) (pos counts.completion_tokens)
        (pos counts.reasoning_tokens) (pos counts.total_tokens) model model_label
    let origin : Origin = record {
      uid = uid;
      username = username_of user uid;
      chat_id = chat_id;
      chat_title = thread.title;
      agent_conversation_id = conversation;
      model = model;
      model_label = model_label;
    }
    when (not (eqb delta.total_tokens 0)) (record_run origin delta counts >> pure tt)

  abbrev pub record_fetched : String → String → String → String → Option Fetched → Action (Unit {0})
  record_fetched project_id uid chat_id conversation none = pure tt
  record_fetched project_id uid chat_id conversation (some fetched) = do
    thread ← get_thread_summary project_id uid chat_id
    record_thread project_id uid chat_id conversation fetched thread

  unfoldable pub record_chat_token_usage :
      String → String → String → String → Option Fetched → Action (Unit {0})
  record_chat_token_usage project_id uid chat_id conversation fetched =
      record_fetched project_id uid chat_id conversation fetched

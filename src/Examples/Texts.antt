-- ===== src/Examples/Texts.antt =====
-- Sessions, messages, streams and settings.
use deepticket.Prelude.{ℕ, String, Option, none, some, ◌≡◌, ◌≤◌, refl, List, [], ◌∷◌, true, false}
use deepticket.Json.{Fields, end, str, num, dict, get, dict_of}
use deepticket.Env.{Env}
use deepticket.Exec.{ok}
use deepticket.Storage.Local.{Storage, empty, get_json, zcard, zadd}
use deepticket.World.{World}
use deepticket.Auth.Users.{register, login, resolve_token, logout}
use deepticket.Auth.Users.Sessions.{registered, token, resolve_token-login}
use deepticket.Chat.Messages.{Message, message_to_hash, hash_to_message}
use deepticket.Chat.Messages.RoundTrip.{hash_to_message-message_to_hash}
use deepticket.Chat.Threads.{ns_chat_msgs, chat_key}
use deepticket.Chat.Titles.{max_messages}
use deepticket.Chat.Writing.{trim_messages}
use deepticket.Chat.Writing.Limit.{zcard-trim_messages_le}
use deepticket.Output.Chunks.{StreamChunk, blank}
use deepticket.Ingress.Pipeline.{collect_stream_text}
use deepticket.Ingress.Pipeline.Replies.{collect_stream_text-reply}
use deepticket.Projects.Merge.{deep_merge}
use deepticket.Projects.Merge.Paths.{
  IsDict, value_at, at_key, inside, Silent, no_key, deep_merge-Sets, deep_merge-Silent,
}
use deepticket.Chat.Reading.{Thread}
use deepticket.Orchestrator.History.{history_from_thread}
use deepticket.Orchestrator.History.Current.{history_from_thread-last}
use deepticket.Examples.Fixtures.{python, world_of}

-- A runtime whose tokens expire in the year that the clock has not reached
abbrev dated : Env
dated = record python { iso_ms = λ s. some 1000 }

abbrev here : World
here = world_of empty

resolve_token-login_example :
    let (created, w₁) = register ⦃env = dated⦄ " ann " "secret" here in
    let (entered, w₂) = login ⦃env = dated⦄ " ann " "secret" w₁ in
    let t = token ⦃env = dated⦄ " ann " "secret" here in
    let user = registered ⦃env = dated⦄ " ann " "secret" here in
    (created ≡ ok user)
    × (entered ≡ ok (user, t))
    × ((resolve_token ⦃env = dated⦄ t w₂).0 ≡ ok (some user))
    × ((resolve_token ⦃env = dated⦄ t (logout ⦃env = dated⦄ t w₂).1).0 ≡ ok none)
unfolding deepticket.Prelude.Text.strip deepticket.Prelude.Text.size get_json empty
resolve_token-login_example =
    resolve_token-login ⦃env = dated⦄ " ann " "secret" here 1000 refl refl refl refl refl refl refl
      refl

abbrev answer : Message
answer = record {
  msg_id = "m";
  role = "assistant";
  content = "done";
  created_at = "t";
  sender_uid = "agent";
  image_urls = none;
  activities = none;
  confidence = some (dict end);
  run_id = some "r";
}

hash_to_message-message_to_hash_example :
    hash_to_message (message_to_hash answer "p" "u" "c") "" ≡ answer
hash_to_message-message_to_hash_example =
    hash_to_message-message_to_hash answer "p" "u" "c" "" tt tt
      (record { given = refl; loads-dumps = refl; dumps_nonempty = refl }) refl

abbrev indexed : Storage
indexed = zadd empty ns_chat_msgs (chat_key "p" "u" "c") (("m1", 1) ∷ ("m2", 2) ∷ [])

zcard-trim_messages_le_example :
    zcard (trim_messages "p" "u" "c" indexed) ns_chat_msgs (chat_key "p" "u" "c") ≤ max_messages
zcard-trim_messages_le_example = zcard-trim_messages_le "p" "u" "c" indexed

abbrev said : String → StreamChunk
said s = record blank { delta = s }

collect_stream_text-reply_example :
    (collect_stream_text (said "In " ∷ blank ∷ said "order" ∷ [])).0 ≡ "In order"
collect_stream_text-reply_example =
    collect_stream_text-reply (said "In " ∷ blank ∷ said "order" ∷ [])

abbrev defaults : Fields
defaults = dict_of (("llm", dict (dict_of (("model", str "a") ∷ ("retries", num 2) ∷ []))) ∷ [])

abbrev stored : Fields
stored = dict_of (("llm", dict (dict_of (("model", str "b") ∷ []))) ∷ [])

deep_merge-Sets_example :
    value_at (dict (deep_merge defaults stored)) ("llm" ∷ "model" ∷ []) ≡ some (str "b")
unfolding get IsDict
deep_merge-Sets_example =
    deep_merge-Sets
      (inside stored (dict_of (("model", str "b") ∷ [])) "llm" ("model" ∷ []) (str "b") refl
        (at_key (dict_of (("model", str "b") ∷ [])) "model" (str "b") refl refl))
      defaults (refl, ((refl, (tt, tt)), tt))

deep_merge-Silent_example :
    value_at (dict (deep_merge defaults stored)) ("llm" ∷ "retries" ∷ [])
    ≡ value_at (dict defaults) ("llm" ∷ "retries" ∷ [])
unfolding get IsDict
deep_merge-Silent_example =
    deep_merge-Silent
      (Silent.inside stored (dict_of (("model", str "b") ∷ [])) "llm" ("retries" ∷ []) refl
        (no_key (dict_of (("model", str "b") ∷ [])) "retries" [] refl))
      defaults (refl, ((refl, (tt, tt)), tt))

abbrev message_by : String → String → Message
message_by role content = record answer { role = role; content = content }

abbrev thread : Thread
thread = record {
  chat_id = "c";
  project_id = none;
  uid = "u";
  title = "";
  messages =
      message_by "assistant" "hello"
      ∷ message_by "tool" "log"
      ∷ message_by "user" " why  now "
      ∷ [];
  agent_conversation_id = none;
  agent_run_status = "idle";
  created_at = none;
  updated_at = none;
  agent_run_error = none;
  token_usage = none;
}

history_from_thread-last_example :
    history_from_thread (some thread) "why now"
    ≡ record { role = "assistant"; content = "hello" } ∷ []
unfolding deepticket.Prelude.Text.strip deepticket.Prelude.Text.words_from
    deepticket.Prelude.Text.join
history_from_thread-last_example =
    history_from_thread-last thread "why now"
      (message_by "assistant" "hello" ∷ message_by "tool" "log" ∷ [])
      (message_by "user" " why  now ") refl refl

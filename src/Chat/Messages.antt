-- ===== src/Chat/Messages.antt =====
-- A message and the hash it is stored as. An optional entry of a message is `none` where the dictionary
-- has no such key.
pub mod RoundTrip
use deepticket.Prelude.{
  String, Bool, true, false, Option, none, some, List, [], ◌∷◌, ◌++◌, if◌then◌else◌,
}
use deepticket.Prelude.Text.{nonempty}
use deepticket.Json.{Value, null, list, nil}
use deepticket.Env.{Env}
use deepticket.Chat.Threads.{meta_get}

pub record Message : Type 0 where
  pub msg_id : String
  pub role : String
  pub content : String
  pub created_at : String
  pub sender_uid : String
  pub image_urls : Option Value
  pub activities : Option Value
  pub confidence : Option Value
  pub run_id : Option String

-- `row.get(k) or default`
abbrev pub text_of : Option String → String → String
text_of none default = default
text_of (some s) default = if nonempty s then s else default

unfoldable pub meta_or : List (String × String) → String → String → String
meta_or row k default = text_of (meta_get row k) default

-- `row.get(k) or None`
abbrev pub given_text : Option String → Option String
given_text none = none
given_text (some s) = if nonempty s then some s else none

-- `if message.get("run_id"): mapping["run_id"] = ...`
abbrev pub run_entry : Option String → List (String × String)
run_entry none = []
run_entry (some s) = if nonempty s then ("run_id", s) ∷ [] else []

abbrev pub is_null : Value → Bool
is_null null = true
is_null _ = false

module _ ⦃env : Env⦄ where
  -- `if message.get(k) is not None: mapping[k] = json.dumps(message[k])`
  abbrev pub dumped : String → Option Value → List (String × String)
  dumped k none = []
  dumped k (some v) = if is_null v then [] else (k, env.json_dumps v) ∷ []

  unfoldable pub message_to_hash : Message → String → String → String → List (String × String)
  message_to_hash message project_id uid chat_id =
      (("msg_id", message.msg_id)
        ∷ ("project_id", project_id)
        ∷ ("uid", uid)
        ∷ ("chat_id", chat_id)
        ∷ ("role", message.role)
        ∷ ("content", message.content)
        ∷ ("created_at", message.created_at)
        ∷ ("sender_uid", message.sender_uid)
        ∷ [])
      ++ (dumped "image_urls" message.image_urls
          ++ (dumped "activities" message.activities
              ++ (dumped "confidence" message.confidence ++ run_entry message.run_id)))

  -- `json.loads(row[k])`, and what stands for a text that is not JSON
  abbrev pub parsed : Option Value → Option Value → Option Value
  parsed none fallback = fallback
  parsed (some v) fallback = some v

  abbrev pub entry_of : Option String → Option Value → Option Value
  entry_of none fallback = none
  entry_of (some s) fallback = if nonempty s then parsed (env.json_loads s) fallback else none

  unfoldable pub hash_to_message : List (String × String) → String → Message
  hash_to_message row fallback_id = record {
    msg_id = meta_or row "msg_id" fallback_id;
    role = meta_or row "role" "";
    content = meta_or row "content" "";
    created_at = meta_or row "created_at" "";
    sender_uid = meta_or row "sender_uid" "";
    image_urls = entry_of (meta_get row "image_urls") (some (list nil));
    activities = entry_of (meta_get row "activities") (some (list nil));
    confidence = entry_of (meta_get row "confidence") none;
    run_id = given_text (meta_get row "run_id");
  }

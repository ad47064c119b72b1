-- ===== src/Output/Chunks.antt =====
-- deepticket/layers/output/models.py, and the confidence as the dictionary that is sent and stored.
use deepticket.Prelude.{String, Bool, false, Option, none, List, [], ◌∷◌}
use deepticket.Json.{bool, num, str, list, Items, nil, cons, Fields, dict_of}
use deepticket.Output.Confidence.{Confidence}

pub record StreamChunk : Type 0 where
  pub delta : String
  pub conversation_id : Option String
  pub run_id : Option String
  pub done : Bool
  pub activity : Option String
  pub activity_kind : Option String
  pub confidence : Option Fields
  pub policy_denied : Bool
  pub policy_message : Option String

-- `StreamChunk()`
abbrev pub blank : StreamChunk
blank = record {
  delta = "";
  conversation_id = none;
  run_id = none;
  done = false;
  activity = none;
  activity_kind = none;
  confidence = none;
  policy_denied = false;
  policy_message = none;
}

abbrev reason_items : List String → Items
reason_items [] = nil
reason_items (s ∷ ss) = cons (str s) (reason_items ss)

abbrev pub confidence_dict : Confidence → Fields
confidence_dict c = dict_of (
    ("score", num c.score)
    ∷ ("level", str c.level)
    ∷ ("label", str c.label)
    ∷ ("reasons", list (reason_items c.reasons))
    ∷ ("applicable", bool c.applicable)
    ∷ [])

-- ===== src/Ingress/Pipeline.antt =====
-- deepticket/layers/ingress/pipeline.py: the reply of a stream as one text.
pub mod Replies
use deepticket.Prelude.{
  String, Bool, true, false, not, ◌&&◌, Option, none, some, List, [], ◌∷◌, ◌++◌, ◌==◌,
  if◌then◌else◌,
}
use deepticket.Prelude.Text.{nonempty, join}
use deepticket.Json.{Fields, end, field, str, dict_of}
use deepticket.Env.{Env}
use deepticket.Investigation.RunDocs.{is_given, text}
use deepticket.Output.Confidence.{compute_confidence}
use deepticket.Output.Chunks.{StreamChunk, confidence_dict}
use deepticket.ChatRuns.Execution.{kind_or_default, given_dict}

-- The function's local variables
pub record Collected : Type 0 where
  pub parts : List String
  pub activities : List Fields
  pub conversation_id : Option String
  pub confidence : Option Fields

-- `if chunk.confidence:`
abbrev pub or_dict : Option Fields → Option Fields → Option Fields
or_dict none old = old
or_dict (some end) old = old
or_dict (some (field k v d)) old = some (field k v d)

unfoldable pub take_chunk : Collected → StreamChunk → Collected
take_chunk s c = record {
  conversation_id = if is_given c.conversation_id then c.conversation_id else s.conversation_id;
  activities =
      if is_given c.activity
      then s.activities
        ++ (dict_of (
              ("text", str (text c.activity))
              ∷ ("kind", str (kind_or_default c.activity_kind))
              ∷ [])
            ∷ [])
      else s.activities;
  parts = if nonempty c.delta then s.parts ++ (c.delta ∷ []) else s.parts;
  confidence = or_dict c.confidence s.confidence;
}

unfoldable pub take_chunks : Collected → List StreamChunk → Collected
unfolding take_chunk
take_chunks s [] = s
take_chunks s (c ∷ cs) = take_chunks (take_chunk s c) cs

abbrev pub nothing : Collected
nothing = record { parts = []; activities = []; conversation_id = none; confidence = none }

module _ ⦃env : Env⦄ where
  abbrev pub or_computed : Option Fields → List Fields → String → Option Fields
  or_computed (some d) activities reply = some d
  or_computed none activities reply =
      if nonempty reply then given_dict (compute_confidence activities reply true false) else none

  unfoldable pub collect_stream_text : List StreamChunk → String × Option String × Option Fields
  unfolding take_chunks
  collect_stream_text chunks =
      let s = take_chunks nothing chunks in
      let reply = join "" s.parts in
      (reply, s.conversation_id, or_computed s.confidence s.activities reply)

-- ===== src/Chat/Messages/RoundTrip.antt =====
-- A message is read back from its hash.
use deepticket.Prelude.{
  String, ◌≡◌, refl, ◌∙◌, true, false, Option, none, some, List, ◌++◌, arith, ◌==◌, inl, inr,
  Bool-cases, eq_iff, eq_refl,
}
use deepticket.Prelude.Text.{nonempty}
use deepticket.Json.{Value, list, nil}
use deepticket.Env.{Env}
use deepticket.Chat.Threads.{meta_get}
use deepticket.Chat.Messages.{
  Message, text_of, meta_or, given_text, run_entry, is_null, dumped, message_to_hash, entry_of,
  hash_to_message,
}

-- The `json` module reads back the value that it wrote, which is not `None`, from a text that is not empty.
pub record ReadsBack ⦃env : Env⦄ (v : Value) : Type 0 where
  pub given : is_null v ≡ false
  pub loads-dumps : env.json_loads (env.json_dumps v) ≡ some v
  pub dumps_nonempty : nonempty (env.json_dumps v) ≡ true

abbrev pub EntryReadsBack : ⦃env : Env⦄ → Option Value → Type 0
EntryReadsBack none = Unit
EntryReadsBack (some v) = ReadsBack v

module _ ⦃env : Env⦄ where
  entry_of-dumped :
      (v : Value) (f : Option Value) → ReadsBack v → entry_of (some (env.json_dumps v)) f ≡ some v
  entry_of-dumped v f law = rw (law.dumps_nonempty, law.loads-dumps) refl

text_of-same : (s : String) → text_of (some s) "" ≡ s
text_of-same s = ground (arith, eq_iff s "")

run_entry-other :
    (r : Option String) (k : String) → ("run_id" == k) ≡ false → meta_get (run_entry r) k ≡ none
unfolding meta_get
run_entry-other none k h = refl
run_entry-other (some s) k h = ground (arith, h)

run_entry-same : (r : Option String) → given_text (meta_get (run_entry r) "run_id") ≡ given_text r
unfolding meta_get
run_entry-same none = refl
run_entry-same (some s) = elim (Bool-cases (nonempty s)) [
  | inl e ↦ rw e (rw e refl)
  | inr e ↦ rw e refl
]

module _ ⦃env : Env⦄ where
  -- An entry is not seen under another key, and is read back under its own.
  dumped-other :
      (j k : String) (o : Option Value) (rest : List (String × String))
      → (j == k) ≡ false
      → meta_get (dumped j o ++ rest) k ≡ meta_get rest k
  unfolding meta_get
  dumped-other j k none rest h = refl
  dumped-other j k (some v) rest h = ground (arith, h)

  dumped-same :
      (k : String) (o f : Option Value) (rest : List (String × String))
      → EntryReadsBack o
      → meta_get rest k ≡ none
      → entry_of (meta_get (dumped k o ++ rest) k) f ≡ o
  unfolding meta_get
  dumped-same k none f rest law h = rw h refl
  dumped-same k (some v) f rest law h = rw (law.given, eq_refl) (entry_of-dumped v f law)

-- The message with an empty run identifier left out.
abbrev pub without_blank_run : Message → Message
without_blank_run message = record message { run_id = given_text message.run_id }

module _ ⦃env : Env⦄ where
  -- A message whose identifier is not empty, and whose pictures, activities and confidence are each missing
  -- or read back by the `json` module from what it wrote, is read back from its hash as it was, but for an
  -- empty run identifier, which is left out.
  pub hash_to_message-message_to_hash :
      (m : Message) (p u c fallback : String)
      → EntryReadsBack m.image_urls
      → EntryReadsBack m.activities
      → EntryReadsBack m.confidence
      → nonempty m.msg_id ≡ true
      → hash_to_message (message_to_hash m p u c) fallback ≡ without_blank_run m
  unfolding hash_to_message message_to_hash meta_or meta_get
  hash_to_message-message_to_hash m p u c fallback image_law activity_law confidence_law h =
      let r = run_entry m.run_id in
      let c₁ = dumped "confidence" m.confidence ++ r in
      let a₁ = dumped "activities" m.activities ++ c₁ in
      let none_r : (k : String) → ("run_id" == k) ≡ false → meta_get r k ≡ none =
        run_entry-other m.run_id in
      let none_c =
        dumped-other "confidence" "activities" m.confidence r refl ∙ none_r "activities" refl in
      let none_a =
        dumped-other "activities" "image_urls" m.activities c₁ refl
        ∙ (dumped-other "confidence" "image_urls" m.confidence r refl ∙ none_r "image_urls" refl) in
      let to_run =
        dumped-other "image_urls" "run_id" m.image_urls a₁ refl
        ∙ (dumped-other "activities" "run_id" m.activities c₁ refl
            ∙ dumped-other "confidence" "run_id" m.confidence r refl) in
      let to_confidence =
        dumped-other "image_urls" "confidence" m.image_urls a₁ refl
        ∙ dumped-other "activities" "confidence" m.activities c₁ refl in
      let same : text_of (some m.msg_id) fallback ≡ m.msg_id = rw h refl in
      rw
        (
          same,
          text_of-same m.role,
          text_of-same m.content,
          text_of-same m.created_at,
          text_of-same m.sender_uid,
          dumped-same "image_urls" m.image_urls (some (list nil)) a₁ image_law none_a,
          dumped-other "image_urls" "activities" m.image_urls a₁ refl,
          dumped-same "activities" m.activities (some (list nil)) c₁ activity_law none_c,
          to_confidence,
          dumped-same "confidence" m.confidence none r confidence_law (none_r "confidence" refl),
          to_run,
          run_entry-same m.run_id,
        )
        refl

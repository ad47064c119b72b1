-- ===== src/Chat/Titles.antt =====
-- The titles and the search texts of conversations.
use deepticket.Prelude.{ℕ, String, Option, none, some, List, [], ◌∷◌, if◌then◌else◌}
use deepticket.Prelude.Text.{◌<>◌, nonempty, strip, clip, split, join}
use deepticket.Json.{Value, str, Fields, get}

abbrev pub title_max : ℕ
title_max = 48

abbrev pub search_max : ℕ
search_max = 4000

abbrev pub max_messages : ℕ
max_messages = 200

abbrev pub new_title : String
new_title = "新会话"

-- `" ".join(s.strip().split())`
abbrev pub single_spaced : String → String
single_spaced s = join " " (split (strip s))

unfoldable pub title_from_message : String → String
title_from_message message =
    let text = single_spaced message in if nonempty text then clip title_max text else new_title

-- `parts.append(s)` under the test that `s` is not empty
abbrev pub appended : String → List String → List String
appended s parts = if nonempty s then s ∷ parts else parts

abbrev pub optional_part : Option String → List String → List String
optional_part none parts = parts
optional_part (some s) parts = appended s parts

-- `act.get("text")`, where it is a text
abbrev pub activity_text : Option Value → String
activity_text (some (str s)) = strip s
activity_text _ = ""

abbrev pub activity_parts : List Fields → List String
activity_parts [] = []
activity_parts (act ∷ acts) = appended (activity_text (get act "text")) (activity_parts acts)

abbrev pub merge_parts : String → List String → String
merge_parts existing [] = existing
merge_parts existing (p ∷ ps) =
    let added = join " " (p ∷ ps) in
    if nonempty existing then strip (existing <> " " <> added) else added

unfoldable pub append_search_text : String → String → List Fields → Option String → String
append_search_text existing content activities title = clip search_max (
    merge_parts existing
      (optional_part title (appended (strip content) (activity_parts activities))))

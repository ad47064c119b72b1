-- ===== src/Storage/Index.antt =====
-- deepticket/layers/storage/json_index.py: the index of a namespace's JSON documents by their times, a
-- sorted set in the namespace itself.
use deepticket.Prelude.{
  ℕ, ◌-◌, max, String, Bool, true, false, not, Option, none, some, List, [], ◌∷◌, map, ◌==◌,
  if◌then◌else◌, leb, eqb, length, take, select,
}
use deepticket.Prelude.Int.{pos}
use deepticket.Prelude.Text.{nonempty, clip}
use deepticket.Prelude.Sort.{sort}
use deepticket.Json.{Value, bool, num, str, Fields, end, field, get}
use deepticket.Env.{Env}
use deepticket.Exec.{gets, pure, ◌>>=◌, ◌>>◌}
use deepticket.Storage.Local.{get_json, list_keys, zadd, zcard, zrevrange}
use deepticket.World.{Action, on_storage, time_ms}

abbrev pub index_member : String
index_member = "__index__"

abbrev pub is_key : String → Bool
is_key item = not (item == index_member)

module _ ⦃env : Env⦄ where
  abbrev pub score_or_now : Option ℕ → Action ℕ
  score_or_now none = time_ms
  score_or_now (some score) = pure score

  abbrev pub score_of_value : Option Value → Option ℕ
  score_of_value (some (bool true)) = some 1
  score_of_value (some (bool false)) = some 0
  score_of_value (some (num n)) = some n
  score_of_value (some (str s)) = if nonempty s then env.local_ms (clip 19 s) else none
  score_of_value _ = none

  unfoldable pub score_from_doc : Fields → String → Action ℕ
  score_from_doc doc k = score_or_now (score_of_value (get doc k))

  -- The empty dictionary has no score of its own.
  abbrev pub score_of_doc : Fields → String → Action ℕ
  score_of_doc end k = time_ms
  score_of_doc (field j v d) k = score_from_doc (field j v d) k

  unfoldable pub index_json_key : String → String → String → Fields → Action (Unit {0})
  index_json_key namespace key sort_field doc = do
    score ← score_of_doc doc sort_field
    on_storage (λ s. zadd s namespace index_member ((key, score) ∷ []))

  -- The loop over the keys: documents that are missing or empty are left out.
  abbrev scored_doc : String → String → Option Fields → Action (List (ℕ × String))
  scored_doc sort_field key none = pure []
  scored_doc sort_field key (some end) = pure []
  scored_doc sort_field key (some (field j v d)) = do
    score ← score_from_doc (field j v d) sort_field
    pure ((score, key) ∷ [])

  abbrev prepended : List (ℕ × String) → List (ℕ × String) → List (ℕ × String)
  prepended [] rest = rest
  prepended (item ∷ items) rest = item ∷ rest

  pub scored_keys : String → String → List String → Action (List (ℕ × String))
  scored_keys namespace sort_field [] = pure []
  scored_keys namespace sort_field (key ∷ keys) = do
    doc ← gets (λ w. get_json w.storage namespace key)
    first ← scored_doc sort_field key doc
    rest ← scored_keys namespace sort_field keys
    pure (prepended first rest)

  -- `reverse=True` keeps the order of equal scores.
  abbrev later_first : ℕ × String → ℕ × String → Bool
  later_first a b = leb b.0 a.0

  abbrev index_all : String → List (ℕ × String) → Action (Unit {0})
  index_all namespace [] = pure tt
  index_all namespace ((score, key) ∷ items) = do
    on_storage (λ s. zadd s namespace index_member ((key, score) ∷ []))
    index_all namespace items

  abbrev rebuilt : String → String → ℕ → List String → Action (List String)
  rebuilt namespace sort_field limit [] = do
    keys ← gets (λ w. list_keys w.storage namespace)
    scored ← scored_keys namespace sort_field (select is_key keys)
    let latest = sort later_first scored
    index_all namespace (take (max limit 50) latest)
    pure (map (λ item. item.1) (take limit latest))
  rebuilt namespace sort_field limit (key ∷ keys) = pure (key ∷ keys)

  unfoldable pub list_indexed_json_keys : String → ℕ → String → Action (List String)
  unfolding scored_keys
  list_indexed_json_keys namespace limit sort_field = do
    indexed ← gets (λ w. zrevrange w.storage namespace index_member (pos 0) (pos (limit - 1)))
    rebuilt namespace sort_field limit indexed

unfoldable pub count_indexed_keys : deepticket.Storage.Local.Storage → String → ℕ
count_indexed_keys s namespace =
    let count = zcard s namespace index_member in
    if eqb count 0 then length (select is_key (list_keys s namespace)) else count

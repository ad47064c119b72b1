-- ===== src/Storage/Local.antt =====
-- deepticket/layers/storage/local.py: `LocalStorage`, whose methods are those of `StorageBackend` in
-- base.py. A method that writes returns the storage after it.
use text.Mathlib.Text.{is_lt}
use Prim.Native.String
use deepticket.Prelude.{
  ℕ, zero, suc, ◌+◌, ◌-◌, String, Bool, true, false, not, ◌&&◌, ◌||◌, Option, none, some, List, [],
  ◌∷◌, map, ◌==◌, if◌then◌else◌, eqb, ltb, length, take, any, select,
}
use deepticket.Prelude.Int.{ℤ, pos, negsuc}
use deepticket.Prelude.Sort.{sort}
use deepticket.Json.{Value, null, str, num, Fields, end, field, get, put, dict_of, or_default}
use deepticket.Env.{Env, str_of, int_of}
use deepticket.Storage.Files.{File, json, zset, Entry, read, write, unlink}

pub record Storage : Type 0 where
  files : List Entry

unfoldable pub empty : Storage
empty = record { files = [] }

abbrev json_of : Option File → Option Fields
json_of none = none
json_of (some (json d)) = some d
json_of (some (zset ms)) = none

unfoldable pub get_json : Storage → String → String → Option Fields
unfolding read
get_json s ns k = json_of (read s.files ns k)

unfoldable pub set_json : Storage → String → String → Fields → Storage
unfolding write
set_json s ns k d = record { files = write s.files ns k (json d) }

unfoldable pub delete : Storage → String → String → Storage
unfolding unlink
delete s ns k = record { files = unlink s.files ns k }

unfoldable pub delete_many : Storage → String → List String → Storage
unfolding delete
delete_many s ns [] = s
delete_many s ns (k ∷ ks) = delete_many (delete s ns k) ns ks

-- `int(current.get("value") or 0)`; `none` where `int` raises.
unfoldable pub counter : ⦃env : Env⦄ → Storage → String → String → Option ℕ
counter s ns k =
    let current : Fields = elim (get_json s ns k) [ none ↦ end | some d ↦ d ] in
    int_of (or_default (get current "value") (num 0))

unfoldable pub incr : ⦃env : Env⦄ → Storage → String → String → ℕ → Option ℕ × Storage
incr s ns k amount = elim (counter s ns k) [
  | none ↦ (none, s)
  | some n ↦ (some (n + amount), set_json s ns k (dict_of (("value", num (n + amount)) ∷ [])))
]

is_json : File → Bool
is_json (json d) = true
is_json (zset ms) = false

-- `sorted(keys)`
abbrev pub text_before : String → String → Bool
text_before a b = is_lt (String.compare a b)

unfoldable pub list_keys : Storage → String → List String
unfolding is_json sort
list_keys s ns =
    sort text_before (map (λ e. e.key) (select (λ e. e.namespace == ns && is_json e.file) s.files))

-- A hash is a JSON dictionary of strings.
abbrev text_or_empty : ⦃env : Env⦄ → Value → String
text_or_empty null = ""
text_or_empty v = str_of v

texts : ⦃env : Env⦄ → Fields → List (String × String)
texts end = []
texts (field k v d) = (k, text_or_empty v) ∷ texts d

unfoldable pub hgetall : ⦃env : Env⦄ → Storage → String → String → Option (List (String × String))
unfolding texts get_json
hgetall s ns k = elim (get_json s ns k) [ none ↦ none | some d ↦ some (texts d) ]

unfoldable pub get_hashes :
    ⦃env : Env⦄ → Storage → String → List String → List (Option (List (String × String)))
unfolding hgetall
get_hashes s ns ks = map (hgetall s ns) ks

of_texts : List (String × String) → Fields
of_texts [] = end
of_texts ((k, v) ∷ rest) = field k (str v) (of_texts rest)

-- `current.update(mapping)`
update_all : Fields → List (String × String) → Fields
unfolding put
update_all d [] = d
update_all d ((k, v) ∷ rest) = update_all (put d k (str v)) rest

unfoldable pub hset : ⦃env : Env⦄ → Storage → String → String → List (String × String) → Storage
unfolding hgetall of_texts update_all set_json
hset s ns k [] = s
hset s ns k (m ∷ ms) =
    let current : List (String × String) = elim (hgetall s ns k) [ none ↦ [] | some h ↦ h ] in
    set_json s ns k (update_all (of_texts current) (m ∷ ms))

abbrev members_of : Option File → List (String × ℕ)
members_of none = []
members_of (some (json d)) = []
members_of (some (zset ms)) = ms

unfoldable pub load_zset : Storage → String → String → List (String × ℕ)
unfolding read
load_zset s ns k = members_of (read s.files ns k)

unfoldable pub save_zset : Storage → String → String → List (String × ℕ) → Storage
unfolding write
save_zset s ns k ms = record { files = write s.files ns k (zset ms) }

-- `members[member] = score`
unfoldable pub set_score : List (String × ℕ) → String → ℕ → List (String × ℕ)
set_score [] m v = (m, v) ∷ []
set_score ((j, w) ∷ ms) m v =
    let rest = set_score ms m v in if j == m then (j, v) ∷ ms else (j, w) ∷ rest

set_scores : List (String × ℕ) → List (String × ℕ) → List (String × ℕ)
unfolding set_score
set_scores ms [] = ms
set_scores ms ((m, v) ∷ rest) = set_scores (set_score ms m v) rest

unfoldable pub zadd : Storage → String → String → List (String × ℕ) → Storage
unfolding save_zset load_zset set_scores
zadd s ns k [] = s
zadd s ns k (m ∷ ms) = save_zset s ns k (set_scores (load_zset s ns k) (m ∷ ms))

-- `key=lambda item: (item[1], item[0])`
abbrev pub ascending : String × ℕ → String × ℕ → Bool
ascending (m, v) (j, w) = ltb v w || (eqb v w && is_lt (String.compare m j))

abbrev pub descending : String × ℕ → String × ℕ → Bool
descending a b = ascending b a

unfoldable pub sorted_members : Storage → String → String → Bool → List String
unfolding sort load_zset
sorted_members s ns k reverse =
    map (λ item. item.0) (sort (if reverse then descending else ascending) (load_zset s ns k))

-- Python's reading of a slice bound.
abbrev bound : ℕ → ℤ → ℕ
bound len (pos n) = n
bound len (negsuc n) = len - suc n

abbrev drop : {A : Type 0} → ℕ → List A → List A
drop zero xs = xs
drop (suc n) [] = []
drop (suc n) (x ∷ xs) = drop n xs

-- `stop = None if end == -1 else end + 1`
abbrev stop_of : ℕ → ℤ → ℕ
stop_of len (pos n) = suc n
stop_of len (negsuc zero) = len
stop_of len (negsuc (suc n)) = bound len (negsuc n)

unfoldable pub slice : List String → ℤ → ℤ → List String
slice items start last =
    let len = length items in
    let from = bound len start in take (stop_of len last - from) (drop from items)

unfoldable pub zrevrange : Storage → String → String → ℤ → ℤ → List String
unfolding slice sorted_members
zrevrange s ns k start last = slice (sorted_members s ns k true) start last

unfoldable pub zrange : Storage → String → String → ℤ → ℤ → List String
unfolding slice sorted_members
zrange s ns k start last = slice (sorted_members s ns k false) start last

unfoldable pub zcard : Storage → String → String → ℕ
unfolding load_zset
zcard s ns k = length (load_zset s ns k)

-- `del data[member]` for each member that is there
unfoldable pub remove_members : List (String × ℕ) → List String → List (String × ℕ)
remove_members ms gone = select (λ item. not (any (λ m. item.0 == m) gone)) ms

-- An empty sorted set has no file.
unfoldable pub save_left : Storage → String → String → List (String × ℕ) → Storage
unfolding delete save_zset
save_left s ns k [] = delete s ns k
save_left s ns k (x ∷ xs) = save_zset s ns k (x ∷ xs)

unfoldable pub zrem : Storage → String → String → List String → Storage
unfolding load_zset save_left remove_members
zrem s ns k gone =
    let ms = load_zset s ns k in
    let left = remove_members ms gone in
    if any (λ item. any (λ m. item.0 == m) gone) ms then save_left s ns k left else s

unfoldable pub zremrangebyrank : Storage → String → String → ℤ → ℤ → List String × Storage
unfolding slice sorted_members zrem
zremrangebyrank s ns k start last =
    let removed = slice (sorted_members s ns k false) start last in (removed, zrem s ns k removed)

-- ===== src/Storage/Files.antt =====
-- The directory tree behind deepticket/layers/storage/local.py: one file for each (namespace, key). A
-- file holds a JSON dictionary, or the `{"__zset__": ...}` dictionary of a sorted set. That file names
-- are one-to-one with keys is the escaping of `_path`, which stays outside of this model.
use deepticket.Prelude.{
  ℕ, String, ◌≡◌, Bool, ◌&&◌, Option, none, some, List, [], ◌∷◌, arith, ◌==◌, if◌then◌else◌, eq_iff,
}
use deepticket.Json.{Fields}

pub data File : Type 0 where
  json : Fields → File
  zset : List (String × ℕ) → File

pub record Entry : Type 0 where
  pub namespace : String
  pub key : String
  pub file : File

abbrev pub same : String → String → String → String → Bool
same ns k ns' k' = ns == ns' && k == k'

-- What `path.is_file()` and `path.read_text` give.
unfoldable pub read : List Entry → String → String → Option File
read [] ns k = none
read (e ∷ es) ns k = if same e.namespace e.key ns k then some e.file else read es ns k

-- `path.write_text`
unfoldable pub write : List Entry → String → String → File → List Entry
write [] ns k f = record { namespace = ns; key = k; file = f } ∷ []
write (e ∷ es) ns k f =
    let rest = write es ns k f in
    if same e.namespace e.key ns k
    then record { namespace = ns; key = k; file = f } ∷ es
    else e ∷ rest

-- `path.unlink`
unfoldable pub unlink : List Entry → String → String → List Entry
unlink [] ns k = []
unlink (e ∷ es) ns k =
    let rest = unlink es ns k in if same e.namespace e.key ns k then rest else e ∷ rest

pub read-write :
    (es : List Entry) (ns k : String) (f : File) (ns' k' : String)
    → read (write es ns k f) ns' k' ≡ (if same ns k ns' k' then some f else read es ns' k')
unfolding read write
read-write [] ns k f ns' k' = ground arith
read-write (e ∷ es) ns k f ns' k' = ground (
  arith,
  read-write es ns k f ns' k',
  eq_iff e.namespace ns,
  eq_iff e.namespace ns',
  eq_iff ns ns',
  eq_iff e.key k,
  eq_iff e.key k',
  eq_iff k k',
)

pub read-unlink :
    (es : List Entry) (ns k ns' k' : String)
    → read (unlink es ns k) ns' k' ≡ (if same ns k ns' k' then none else read es ns' k')
unfolding read unlink
read-unlink [] ns k ns' k' = ground arith
read-unlink (e ∷ es) ns k ns' k' = ground (
  arith,
  read-unlink es ns k ns' k',
  eq_iff e.namespace ns,
  eq_iff e.namespace ns',
  eq_iff ns ns',
  eq_iff e.key k,
  eq_iff e.key k',
  eq_iff k k',
)

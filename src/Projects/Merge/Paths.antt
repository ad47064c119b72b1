-- ===== src/Projects/Merge/Paths.antt =====
-- Merged settings, read along a path of keys through nested dictionaries.
use deepticket.Prelude.{
  String, ◌≡◌, refl, sym, ap, subst, ◌∙◌, Bool, true, false, Option, none, some, inl, inr, List, [],
  ◌∷◌, ◌==◌, if◌then◌else◌, eq_iff, Bool-cases, Option-cases,
}
use deepticket.Json.{Value, null, bool, num, str, list, dict, Fields, end, field, get, put, get-put}
use deepticket.Projects.Merge.{deep_merge, merged_value}

-- No key stands twice in a dictionary or in one that it holds.
unfoldable mutual
  pub IsDict : Fields → Type 0
  IsDict end = Unit
  IsDict (field k v rest) = (get rest k ≡ none) × (HoldsDict v × IsDict rest)

  pub HoldsDict : Value → Type 0
  HoldsDict (dict d) = IsDict d
  HoldsDict v = Unit

-- `d[k₁][k₂]...`
abbrev pub value_at : Value → List String → Option Value
value_at v [] = some v
value_at (dict d) (k ∷ ks) = elim (get d k) [ none ↦ none | some v ↦ value_at v ks ]
value_at v (k ∷ ks) = none

abbrev pub is_dict : Value → Bool
is_dict (dict d) = true
is_dict v = false

-- The override gives a value of its own, no dictionary, to the end of the path.
pub data Sets : Fields → List String → Value → Type 0 where
  at_key :
      (d : Fields) (k : String) (v : Value)
      → get d k ≡ some v
      → is_dict v ≡ false
      → Sets d (k ∷ []) v
  inside :
      (d e : Fields) (k : String) (ks : List String) (v : Value)
      → get d k ≡ some (dict e)
      → Sets e ks v
      → Sets d (k ∷ ks) v

-- The override says nothing from some key of the path on.
pub data Silent : Fields → List String → Type 0 where
  no_key : (d : Fields) (k : String) (ks : List String) → get d k ≡ none → Silent d (k ∷ ks)
  inside :
      (d e : Fields) (k : String) (ks : List String)
      → get d k ≡ some (dict e)
      → Silent e ks
      → Silent d (k ∷ ks)

abbrev pub over : Option Value → Option Value → Option Value
over old none = old
over old (some v) = some (merged_value old v)

-- One entry of the override, when the others have been merged
over_entry :
    (base rest : Fields) (j k : String) (v : Value)
    → get rest j ≡ none
    → over (get (put base j (merged_value (get base j) v)) k) (get rest k)
      ≡ over (get base k) (if j == k then some v else get rest k)
over_entry base rest j k v fresh = elim (Bool-cases (j == k)) [
  | inl e ↦
      let same : j ≡ k = (eq_iff j k).0 e in
      let there : get rest k ≡ none = subst (λ i. get rest i ≡ none) same fresh in
      rw (get-put, e, there) (ap (λ i. some (merged_value (get base i) v)) same)
  | inr e ↦ rw (get-put, e) refl
]

get-deep_merge :
    (override base : Fields) (k : String)
    → IsDict override
    → get (deep_merge base override) k ≡ over (get base k) (get override k)
unfolding deep_merge get IsDict
get-deep_merge end base k h = refl
get-deep_merge (field j v rest) base k h =
    let base' = put base j (merged_value (get base j) v) in
    get-deep_merge rest base' k h.1.1 ∙ over_entry base rest j k v h.0

get-HoldsDict : (d : Fields) (k : String) (v : Value) → IsDict d → get d k ≡ some v → HoldsDict v
unfolding IsDict get
get-HoldsDict end k v h e = cc e
get-HoldsDict (field j w rest) k v h e = elim (Bool-cases (j == k)) [
  | inl q ↦ let same : w ≡ v = cc (rw q at e) in subst HoldsDict same h.1.0
  | inr q ↦ get-HoldsDict rest k v h.1.1 (rw q at e)
]

-- A value that is no dictionary replaces what is there.
merged_value-other : (old : Option Value) (v : Value) → is_dict v ≡ false → merged_value old v ≡ v
unfolding merged_value
merged_value-other none v h = refl
merged_value-other (some (dict a)) (dict b) h = cc h
merged_value-other (some (dict a)) null h = refl
merged_value-other (some (dict a)) (bool b) h = refl
merged_value-other (some (dict a)) (num n) h = refl
merged_value-other (some (dict a)) (str s) h = refl
merged_value-other (some (dict a)) (list vs) h = refl
merged_value-other (some null) v h = refl
merged_value-other (some (bool b)) v h = refl
merged_value-other (some (num n)) v h = refl
merged_value-other (some (str s)) v h = refl
merged_value-other (some (list vs)) v h = refl

value_at_next :
    (d : Fields) (k : String) (ks : List String) (v : Value)
    → get d k ≡ some v
    → value_at (dict d) (k ∷ ks) ≡ value_at v ks
value_at_next d k ks v h = rw (h, value_at) refl

value_at_absent :
    (d : Fields) (k : String) (ks : List String)
    → get d k ≡ none
    → value_at (dict d) (k ∷ ks) ≡ none
value_at_absent d k ks h = rw (h, value_at) refl

value_at-Silent : {d : Fields} {path : List String} → Silent d path → value_at (dict d) path ≡ none
value_at-Silent (no_key d k ks e) = value_at_absent d k ks e
value_at-Silent (inside d e k ks h s) = value_at_next d k ks (dict e) h ∙ value_at-Silent s

value_at-Sets :
    {d : Fields} {path : List String} {v : Value} → Sets d path v → value_at (dict d) path ≡ some v
value_at-Sets (at_key d k v e n) = value_at_next d k [] v e
value_at-Sets (inside d e k ks v h s) = value_at_next d k ks (dict e) h ∙ value_at-Sets s

-- What a dictionary of the override makes of the base's value for its key, along a path
merged_value-Sets :
    (old : Option Value) {e : Fields} {path : List String} {v : Value}
    → ((a : Fields) → value_at (dict (deep_merge a e)) path ≡ some v)
    → Sets e path v
    → value_at (merged_value old (dict e)) path ≡ some v
unfolding merged_value
merged_value-Sets none ih s = value_at-Sets s
merged_value-Sets (some (dict a)) ih s = ih a
merged_value-Sets (some null) ih s = value_at-Sets s
merged_value-Sets (some (bool b)) ih s = value_at-Sets s
merged_value-Sets (some (num n)) ih s = value_at-Sets s
merged_value-Sets (some (str t)) ih s = value_at-Sets s
merged_value-Sets (some (list vs)) ih s = value_at-Sets s

-- Where the override, a dictionary without repeated keys at any depth, gives a value that is no dictionary
-- at the end of a path, the merged settings have that value there, whatever the base has.
pub deep_merge-Sets :
    {override : Fields} {path : List String} {v : Value} (s : Sets override path v) (base : Fields)
    → IsDict override
    → value_at (dict (deep_merge base override)) path ≡ some v
unfolding IsDict
deep_merge-Sets (at_key d k v e n) base h =
    let found : get (deep_merge base d) k ≡ some v =
      get-deep_merge d base k h ∙ rw e (ap some (merged_value-other (get base k) v n)) in
    value_at_next (deep_merge base d) k [] v found
deep_merge-Sets (inside d e k ks v q s) base h =
    let next = merged_value (get base k) (dict e) in
    let found : get (deep_merge base d) k ≡ some next = get-deep_merge d base k h ∙ rw q refl in
    let below : IsDict e = get-HoldsDict d k (dict e) h q in
    value_at_next (deep_merge base d) k ks next found
    ∙ merged_value-Sets (get base k) (λ a. deep_merge-Sets s a below) s

scalar_next :
    (v : Value) (k : String) (ks : List String) → is_dict v ≡ false → value_at v (k ∷ ks) ≡ none
scalar_next (dict d) k ks h = cc h
scalar_next null k ks h = refl
scalar_next (bool b) k ks h = refl
scalar_next (num n) k ks h = refl
scalar_next (str s) k ks h = refl
scalar_next (list vs) k ks h = refl

scalar-Silent :
    {e : Fields} {ks : List String} (v : Value)
    → is_dict v ≡ false
    → Silent e ks
    → value_at v ks ≡ none
scalar-Silent v h (no_key d k ks g) = scalar_next v k ks h
scalar-Silent v h (inside d e k ks g s) = scalar_next v k ks h

behind_scalar :
    {e : Fields} {ks : List String} (v : Value) (k : String) (base : Fields)
    → get base k ≡ some v
    → is_dict v ≡ false
    → Silent e ks
    → value_at (dict e) ks ≡ value_at (dict base) (k ∷ ks)
behind_scalar {e} {ks} v k base g h s =
    value_at-Silent s ∙ sym (value_at_next base k ks v g ∙ scalar-Silent v h s)

merged_value-Silent :
    (old : Option Value) {e : Fields} {ks : List String} (k : String) (base : Fields)
    → get base k ≡ old
    → ((a : Fields) → value_at (dict (deep_merge a e)) ks ≡ value_at (dict a) ks)
    → Silent e ks
    → value_at (merged_value old (dict e)) ks ≡ value_at (dict base) (k ∷ ks)
unfolding merged_value
merged_value-Silent none {e} {ks} k base g ih s =
    value_at-Silent s ∙ sym (value_at_absent base k ks g)
merged_value-Silent (some (dict a)) {e} {ks} k base g ih s =
    ih a ∙ sym (value_at_next base k ks (dict a) g)
merged_value-Silent (some null) k base g ih s = behind_scalar null k base g refl s
merged_value-Silent (some (bool b)) k base g ih s = behind_scalar (bool b) k base g refl s
merged_value-Silent (some (num n)) k base g ih s = behind_scalar (num n) k base g refl s
merged_value-Silent (some (str t)) k base g ih s = behind_scalar (str t) k base g refl s
merged_value-Silent (some (list vs)) k base g ih s = behind_scalar (list vs) k base g refl s

-- Where the override, a dictionary without repeated keys at any depth, says nothing from some key of a path
-- on, the merged settings have at its end what the base has there, if anything.
pub deep_merge-Silent :
    {override : Fields} {path : List String} (s : Silent override path) (base : Fields)
    → IsDict override
    → value_at (dict (deep_merge base override)) path ≡ value_at (dict base) path
unfolding IsDict
deep_merge-Silent (no_key d k ks e) base h =
    let same : get (deep_merge base d) k ≡ get base k = get-deep_merge d base k h ∙ rw e refl in
    elim (Option-cases (get base k)) [
      | inl f ↦ value_at_absent _ k ks (same ∙ f) ∙ sym (value_at_absent base k ks f)
      | inr (v, f) ↦ value_at_next _ k ks v (same ∙ f) ∙ sym (value_at_next base k ks v f)
    ]
deep_merge-Silent (inside d e k ks q s) base h =
    let next = merged_value (get base k) (dict e) in
    let found : get (deep_merge base d) k ≡ some next = get-deep_merge d base k h ∙ rw q refl in
    let below : IsDict e = get-HoldsDict d k (dict e) h q in
    value_at_next (deep_merge base d) k ks next found
    ∙ merged_value-Silent (get base k) k base refl (λ a. deep_merge-Silent s a below) s

-- ===== src/Json.antt =====
-- The values that `json.loads` returns, and Python's reading of them: `d.get(k)`, `bool(v)`, `str(v)`.
-- Numbers are naturals: the program stores counts, sequence numbers and scores.
use deepticket.Prelude.{
  ℕ, zero, suc, String, ◌≡◌, Bool, true, false, not, Option, none, some, List, [], ◌∷◌, arith, ◌==◌,
  if◌then◌else◌, eq_iff,
}

mutual
  pub data Value : Type 0 where
    null : Value
    bool : Bool → Value
    num : ℕ → Value
    str : String → Value
    list : Items → Value
    dict : Fields → Value

  pub data Items : Type 0 where
    nil : Items
    cons : Value → Items → Items

  pub data Fields : Type 0 where
    end : Fields
    field : String → Value → Fields → Fields

-- A dictionary display `{"k": v, ...}`.
abbrev pub dict_of : List (String × Value) → Fields
dict_of [] = end
dict_of ((k, v) ∷ rest) = field k v (dict_of rest)

-- `d.get(k)`; the display's later entries hide the earlier ones, so keys are written once.
unfoldable pub get : Fields → String → Option Value
get end k = none
get (field j v rest) k = if j == k then some v else get rest k

-- `d[k] = v`
unfoldable pub put : Fields → String → Value → Fields
put end k v = field k v end
put (field j w rest) k v = if j == k then field j v rest else field j w (put rest k v)

pub get-put :
    (d : Fields) (k j : String) (v : Value)
    → get (put d k v) j ≡ (if k == j then some v else get d j)
unfolding get put
get-put end k j v = ground arith
get-put (field i w d) k j v = ground (arith, eq_iff k j, eq_iff i k, eq_iff i j, get-put d k j v)

-- `bool(v)`
abbrev pub truthy : Value → Bool
truthy null = false
truthy (bool b) = b
truthy (num zero) = false
truthy (num (suc n)) = true
truthy (str s) = not (s == "")
truthy (list nil) = false
truthy (list (cons v vs)) = true
truthy (dict end) = false
truthy (dict (field k v rest)) = true

-- `d.get(k) or None`, `d.get(k) or default`
abbrev pub truthy_or_none : Option Value → Option Value
truthy_or_none none = none
truthy_or_none (some v) = if truthy v then some v else none

abbrev pub or_default : Option Value → Value → Value
or_default o d = elim (truthy_or_none o) [ none ↦ d | some v ↦ v ]

-- JSON's `null` for Python's `None`.
abbrev pub str_or_null : Option String → Value
str_or_null none = null
str_or_null (some s) = str s

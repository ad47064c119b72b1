-- ===== src/Projects/Merge.antt =====
-- deepticket/projects/merge.py: the stored settings of a project over the code's defaults.
pub mod Paths
use deepticket.Prelude.{
  String, ◌≡◌, refl, ap, subst, ◌∙◌, Bool, true, false, Option, none, some, inl, inr, ◌==◌,
  if◌then◌else◌, eq_iff, Bool-cases,
}
use deepticket.Json.{Value, dict, Fields, end, field, get, put, get-put}

unfoldable mutual
  pub deep_merge : Fields → Fields → Fields
  deep_merge base end = base
  deep_merge base (field k v rest) = deep_merge (put base k (merged_value (get base k) v)) rest

  -- What stands for a key of `override` whose value in the result so far is given
  pub merged_value : Option Value → Value → Value
  merged_value (some (dict a)) (dict b) = dict (deep_merge a b)
  merged_value old v = v

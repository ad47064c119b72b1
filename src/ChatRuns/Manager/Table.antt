-- ===== src/ChatRuns/Manager/Table.antt =====
-- Python's dictionary from keys to references, and the list of objects that references name.
use deepticket.Prelude.{
  ℕ, zero, suc, String, ◌≡◌, refl, Option, none, some, List, [], ◌∷◌, ◌++◌, arith, ◌==◌,
  if◌then◌else◌, length, eq_iff,
}

-- `d.get(k)`, `d[k] = v` and `d.pop(k, None)`
unfoldable pub lookup : List (String × ℕ) → String → Option ℕ
lookup [] k = none
lookup ((j, i) ∷ d) k = if j == k then some i else lookup d k

unfoldable pub put : List (String × ℕ) → String → ℕ → List (String × ℕ)
put [] k i = (k, i) ∷ []
put ((j, n) ∷ d) k i = let rest = put d k i in if j == k then (j, i) ∷ d else (j, n) ∷ rest

unfoldable pub pop : List (String × ℕ) → String → List (String × ℕ)
pop [] k = []
pop ((j, n) ∷ d) k = let rest = pop d k in if j == k then rest else (j, n) ∷ rest

pub lookup-put :
    (d : List (String × ℕ)) (k : String) (i : ℕ) (j : String)
    → lookup (put d k i) j ≡ (if k == j then some i else lookup d j)
unfolding lookup put
lookup-put [] k i j = ground arith
lookup-put ((l, n) ∷ d) k i j =
    ground (arith, eq_iff k j, eq_iff l k, eq_iff l j, lookup-put d k i j)

pub lookup-pop :
    (d : List (String × ℕ)) (k j : String)
    → lookup (pop d k) j ≡ (if k == j then none else lookup d j)
unfolding lookup pop
lookup-pop [] k j = ground arith
lookup-pop ((l, n) ∷ d) k j = ground (arith, eq_iff k j, eq_iff l k, eq_iff l j, lookup-pop d k j)

module _ {A : Type 0} where
  unfoldable pub entry_at : List A → ℕ → Option A
  entry_at [] i = none
  entry_at (x ∷ xs) zero = some x
  entry_at (x ∷ xs) (suc i) = entry_at xs i

  unfoldable pub replace : List A → ℕ → (A → A) → List A
  replace [] i f = []
  replace (x ∷ xs) zero f = f x ∷ xs
  replace (x ∷ xs) (suc i) f = x ∷ replace xs i f

  pub entry_at-replace :
      (xs : List A) (i : ℕ) (f : A → A) (x : A)
      → entry_at xs i ≡ some x
      → entry_at (replace xs i f) i ≡ some (f x)
  unfolding entry_at replace
  entry_at-replace [] i f x h = cc
  entry_at-replace (y ∷ ys) zero f x h = cc
  entry_at-replace (y ∷ ys) (suc i) f x h = entry_at-replace ys i f x h

  pub entry_at-last : (xs : List A) (x : A) → entry_at (xs ++ (x ∷ [])) (length xs) ≡ some x
  unfolding entry_at
  entry_at-last [] x = refl
  entry_at-last (y ∷ ys) x = entry_at-last ys x

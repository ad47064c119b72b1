-- ===== src/Storage/Ranks.antt =====
-- Removing the members of the lowest ranks of a sorted set leaves at most the others.
use deepticket.Prelude.{
  ℕ, zero, suc, ◌-◌, ◌≤◌, String, ◌≡◌, refl, ap, ◌∙◌, sym, Bool, true, false, not, List, [], ◌∷◌,
  map, ◌==◌, inl, inr, Bool-cases, arith, eq_refl, length, take, select, any, All, All-map,
  select-All, any_none, length-select_rest,
}
use deepticket.Prelude.Int.{pos}
use deepticket.Prelude.Sort.{insert, sort}
use deepticket.Storage.Laws.{load_zset-delete}
use deepticket.Storage.Files.{read-write}
use deepticket.Storage.Local.{
  Storage, load_zset, save_zset, save_left, ascending, sorted_members, slice, zcard, remove_members,
  zrem, zremrangebyrank,
}

length-select-insert :
    {A : Type 0} (before : A → A → Bool) (p : A → Bool) (x : A) (xs : List A)
    → length (select p (insert before x xs)) ≡ length (select p (x ∷ xs))
unfolding insert
length-select-insert before p x [] = refl
length-select-insert before p x (y ∷ ys) = ground (arith, length-select-insert before p x ys)

length-select-sort :
    {A : Type 0} (before : A → A → Bool) (p : A → Bool) (xs : List A)
    → length (select p (sort before xs)) ≡ length (select p xs)
unfolding sort
length-select-sort before p [] = refl
length-select-sort before p (x ∷ xs) =
    length-select-insert before p x (sort before xs)
    ∙ ground (arith, length-select-sort before p xs)

save-load :
    (s : Storage) (ns k : String) (ms : List (String × ℕ))
    → load_zset (save_zset s ns k ms) ns k ≡ ms
unfolding load_zset save_zset
save-load s ns k ms = rw read-write (simp eq_refl)

save_left-load :
    (s : Storage) (ns k : String) (ms : List (String × ℕ))
    → load_zset (save_left s ns k ms) ns k ≡ ms
unfolding save_left
save_left-load s ns k [] = load_zset-delete s ns k ns k ∙ simp eq_refl
save_left-load s ns k (m ∷ ms) = save-load s ns k (m ∷ ms)

-- What `zrem` leaves is the members that are not named.
load_zset-zrem :
    (s : Storage) (ns k : String) (gone : List String)
    → load_zset (zrem s ns k gone) ns k ≡ remove_members (load_zset s ns k) gone
unfolding zrem remove_members
load_zset-zrem s ns k gone =
    let is_gone = λ (item : String × ℕ). any (λ m. item.0 == m) gone in
    let ms = load_zset s ns k in
    elim (Bool-cases (any is_gone ms)) [
      | inl e ↦ rw e (save_left-load s ns k (remove_members ms gone))
      | inr e ↦ rw e (sym (select-All (λ item. not (is_gone item)) ms (any_none is_gone ms e)))
    ]

IsIn : String × ℕ → List String → Type 0
IsIn item gone = any (λ m. item.0 == m) gone ≡ true

first_removed :
    (k : ℕ) (xs : List (String × ℕ))
    → All (λ item. IsIn item (take k (map (λ item. item.0) xs))) (take k xs)
unfolding IsIn
first_removed zero xs = tt
first_removed (suc k) [] = tt
first_removed (suc k) (x ∷ xs) =
    let names = take k (map (λ item. item.0) xs) in
    (
      rw eq_refl refl,
      All-map (λ item. IsIn item names) (λ item. IsIn item (x.0 ∷ names))
          (λ item h. ground (arith, h)) (take k xs) (first_removed k xs),
    )

length-insert :
    {A : Type 0} (before : A → A → Bool) (x : A) (xs : List A)
    → length (insert before x xs) ≡ suc (length xs)
unfolding insert
length-insert before x [] = refl
length-insert before x (y ∷ ys) = ground (arith, length-insert before x ys)

length-sort :
    {A : Type 0} (before : A → A → Bool) (xs : List A) → length (sort before xs) ≡ length xs
unfolding sort
length-sort before [] = refl
length-sort before (x ∷ xs) =
    length-insert before x (sort before xs) ∙ ap (λ n. suc n) (length-sort before xs)

length-remove_first :
    (before : String × ℕ → String × ℕ → Bool) (k : ℕ) (ms : List (String × ℕ))
    → length (remove_members ms (take k (map (λ item. item.0) (sort before ms)))) ≤ length ms - k
unfolding remove_members IsIn
length-remove_first before k ms =
    let gone = take k (map (λ item. item.0) (sort before ms)) in
    let p = λ (item : String × ℕ). not (any (λ m. item.0 == m) gone) in
    let sorted = sort before ms in
    let failed =
      All-map (λ item. IsIn item gone) (λ item. p item ≡ false) (λ item h. rw h refl)
        (take k sorted) (first_removed k sorted) in
    omega (
      arith,
      length-select_rest p k sorted failed,
      length-select-sort before p ms,
      length-sort before ms,
    )

slice_first :
    (items : List String) (last : ℕ) → slice items (pos 0) (pos last) ≡ take (suc last) items
unfolding slice
slice_first items last = let h : suc last - 0 ≡ suc last = omega arith in ap (λ n. take n items) h

-- At most the members beyond the first `k + 1` are left.
pub zcard-zremrangebyrank_le :
    (s : Storage) (ns k : String) (last : ℕ)
    → zcard (zremrangebyrank s ns k (pos 0) (pos last)).1 ns k ≤ zcard s ns k - suc last
unfolding zcard zremrangebyrank sorted_members
zcard-zremrangebyrank_le s ns k last =
    rw (load_zset-zrem s ns k _, slice_first _ last)
      (length-remove_first ascending (suc last) (load_zset s ns k))

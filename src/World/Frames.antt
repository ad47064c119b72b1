-- ===== src/World/Frames.antt =====
-- A write in one namespace leaves the JSON documents of another as they are.
use deepticket.Prelude.{
  ℕ, String, ◌≡◌, refl, ◌∙◌, false, inl, inr, List, [], ◌∷◌, ◌==◌, Bool-cases, any,
}
use deepticket.Prelude.Int.{ℤ}
use deepticket.Json.{Fields}
use deepticket.Env.{Env}
use deepticket.Storage.Files.{read-write}
use deepticket.Storage.Local.{
  Storage, get_json, set_json, hset, zadd, save_zset, save_left, load_zset, delete, delete_many,
  remove_members, zrem, zremrangebyrank,
}
use deepticket.Storage.Laws.{get_json-set_json, get_json-delete}
use deepticket.World.{on_storage, time_ms}
use deepticket.World.Keeps.{Same, Keeps, Keeps-on_storage}

module _ (ns ns' : String) (h : (ns' == ns) ≡ false) where
  set_json-Same : (s : Storage) (k : String) (d : Fields) → Same ns s (set_json s ns' k d)
  set_json-Same s k d j = simp (get_json-set_json, h)

  delete-Same : (s : Storage) (k : String) → Same ns s (delete s ns' k)
  delete-Same s k j = simp (get_json-delete, h)

  pub delete_many-Same : (s : Storage) (ks : List String) → Same ns s (delete_many s ns' ks)
  unfolding delete_many
  delete_many-Same s [] j = refl
  delete_many-Same s (k ∷ ks) j = delete_many-Same (delete s ns' k) ks j ∙ delete-Same s k j

  save_zset-Same :
      (s : Storage) (k : String) (ms : List (String × ℕ)) → Same ns s (save_zset s ns' k ms)
  unfolding get_json save_zset
  save_zset-Same s k ms j = rw (read-write, h) refl

  zadd-Same : (s : Storage) (k : String) (ms : List (String × ℕ)) → Same ns s (zadd s ns' k ms)
  unfolding zadd
  zadd-Same s k [] j = refl
  zadd-Same s k (m ∷ ms) j = save_zset-Same s k _ j

  save_left-Same :
      (s : Storage) (k : String) (ms : List (String × ℕ)) → Same ns s (save_left s ns' k ms)
  unfolding save_left
  save_left-Same s k [] j = delete-Same s k j
  save_left-Same s k (m ∷ ms) j = save_zset-Same s k (m ∷ ms) j

  zrem-Same : (s : Storage) (k : String) (gone : List String) → Same ns s (zrem s ns' k gone)
  unfolding zrem
  zrem-Same s k gone j =
      let ms = load_zset s ns' k in
      elim (Bool-cases (any (λ item. any (λ m. item.0 == m) gone) ms)) [
        | inl e ↦ rw e (save_left-Same s k (remove_members ms gone) j)
        | inr e ↦ rw e refl
      ]

  pub zremrangebyrank-Same :
      (s : Storage) (k : String) (start last : ℤ) → Same ns s (zremrangebyrank s ns' k start last).1
  unfolding zremrangebyrank
  zremrangebyrank-Same s k start last j = zrem-Same s k _ j

  pub Keeps-set_json : (k : String) (d : Fields) → Keeps ns (on_storage (λ s. set_json s ns' k d))
  Keeps-set_json k d = Keeps-on_storage (λ s. set_json s ns' k d) (λ s. set_json-Same s k d)

  pub Keeps-zadd :
      (k : String) (ms : List (String × ℕ)) → Keeps ns (on_storage (λ s. zadd s ns' k ms))
  Keeps-zadd k ms = Keeps-on_storage (λ s. zadd s ns' k ms) (λ s. zadd-Same s k ms)

  module _ ⦃env : Env⦄ where
    hset-Same : (s : Storage) (k : String) (m : List (String × String)) → Same ns s (hset s ns' k m)
    unfolding hset
    hset-Same s k [] j = refl
    hset-Same s k (m ∷ ms) j = set_json-Same s k _ j

    pub Keeps-hset :
        (k : String) (m : List (String × String)) → Keeps ns (on_storage (λ s. hset s ns' k m))
    Keeps-hset k m = Keeps-on_storage (λ s. hset s ns' k m) (λ s. hset-Same s k m)

pub Keeps-time_ms : ⦃env : Env⦄ {ns : String} → Keeps ns time_ms
Keeps-time_ms = record { at = λ w k. refl }

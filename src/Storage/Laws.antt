-- ===== src/Storage/Laws.antt =====
-- How the operations of `LocalStorage` act on one another: what a client of the storage needs to know.
use deepticket.Prelude.{
  zero, suc, eq_refl, ◌∷◌, ℕ, String, ◌≡◌, ◌==◌, inl, inr, Option-cases, false, refl, none, some,
  [], arith, ◌+◌, if◌then◌else◌,
}
use deepticket.Json.{Fields, num, get, or_default, dict_of}
use deepticket.Env.{Env, int_of}
use deepticket.Storage.Files.{same, read-write, read-unlink}
use deepticket.Storage.Local.{
  Storage, counter, empty, get_json, set_json, delete, incr, load_zset, zadd, set_score,
}

module _ (s : Storage) (ns k ns' k' : String) where
  pub get_json-set_json :
      (d : Fields)
      → get_json (set_json s ns k d) ns' k'
        ≡ (if same ns k ns' k' then some d else get_json s ns' k')
  unfolding get_json set_json
  get_json-set_json d = rw read-write (ground arith)

  pub get_json-delete :
      get_json (delete s ns k) ns' k' ≡ (if same ns k ns' k' then none else get_json s ns' k')
  unfolding get_json delete
  get_json-delete = rw read-unlink (ground arith)

  pub get_json-zadd :
      (m : String) (v : ℕ)
      → get_json (zadd s ns k ((m, v) ∷ [])) ns' k'
        ≡ (if same ns k ns' k' then none else get_json s ns' k')
  unfolding get_json zadd
  get_json-zadd m v = rw read-write (ground arith)

  pub load_zset-set_json :
      (d : Fields)
      → load_zset (set_json s ns k d) ns' k' ≡ (if same ns k ns' k' then [] else load_zset s ns' k')
  unfolding load_zset set_json
  load_zset-set_json d = rw read-write (ground arith)

  pub load_zset-delete :
      load_zset (delete s ns k) ns' k' ≡ (if same ns k ns' k' then [] else load_zset s ns' k')
  unfolding load_zset delete
  load_zset-delete = rw read-unlink (ground arith)

  pub load_zset-zadd :
      (m : String) (v : ℕ)
      → load_zset (zadd s ns k ((m, v) ∷ [])) ns' k'
        ≡ (if same ns k ns' k' then set_score (load_zset s ns k) m v else load_zset s ns' k')
  unfolding load_zset zadd
  load_zset-zadd m v = rw read-write (ground arith)

pub get_json-empty : (ns k : String) → get_json empty ns k ≡ none
unfolding get_json empty
get_json-empty ns k = refl

module _ ⦃env : Env⦄ where
  -- A counter's increment is not seen outside of its namespace.
  pub get_json-incr :
      (s : Storage) (ns k : String) (amount : ℕ) (ns' k' : String)
      → (ns == ns') ≡ false
      → get_json (incr s ns k amount).1 ns' k' ≡ get_json s ns' k'
  unfolding incr
  get_json-incr s ns k amount ns' k' h = elim (Option-cases (counter s ns k)) [
    | inl e ↦ rw (e, incr)
    | inr (n, e) ↦ rw (e, incr) (simp (get_json-set_json, h))
  ]

  read_num : (n : ℕ) → int_of (or_default (some (num n)) (num 0)) ≡ some n
  read_num zero = refl
  read_num (suc n) = refl

  counter-set_json :
      (s : Storage) (ns k : String) (n : ℕ)
      → counter (set_json s ns k (dict_of (("value", num n) ∷ []))) ns k ≡ some n
  unfolding counter get
  counter-set_json s ns k n = simp (get_json-set_json, eq_refl) (read_num n)

  -- An increment returns the counter's value plus the amount, and this is the next value.
  pub counter-incr :
      (s : Storage) (ns k : String) (amount n : ℕ)
      → counter s ns k ≡ some n
      → (incr s ns k amount
          ≡ (some (n + amount), set_json s ns k (dict_of (("value", num (n + amount)) ∷ []))))
        × (counter (incr s ns k amount).1 ns k ≡ some (n + amount))
  unfolding incr
  counter-incr s ns k amount n h =
      (rw (h, incr), rw (h, incr) (counter-set_json s ns k (n + amount)))

-- What a reader of JSON documents sees of a write.
pub ruleset json_laws = (get_json-set_json, get_json-delete, get_json-zadd, get_json-empty)

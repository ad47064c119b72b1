-- ===== src/Investigation/Events/Listing.antt =====
-- What `list_events` returns.
use deepticket.Prelude.{
  ℕ, String, ◌≡◌, refl, subst, ◌≤◌, ◌<◌, inl, inr, Option, none, some, List, [], ◌∷◌, arith, min,
  max, length, take, leb, All, All-take, length-take_le, Bool-cases,
}
use deepticket.Prelude.Sort.{sort, All-sort}
use deepticket.Prelude.Int.{pos, negsuc}
use deepticket.Json.{Fields, end, field}
use deepticket.Env.{Env}
use deepticket.Exec.{ok}
use deepticket.Storage.Local.{Storage, zrange}
use deepticket.World.{World}
use deepticket.Investigation.Models.{count_at}
use deepticket.Investigation.Evolution.Operations.{Result-cases}
use deepticket.Investigation.Events.{
  seq_of, by_seq, listed, collect, list_events, ns_run_events, run_index_key,
}

ok_injective : {A : Type 0} {a b : A} → ok a ≡ ok b → a ≡ b
ok_injective e = cc e

module _ ⦃env : Env⦄ where
  -- The document's number is readable, and above the one asked for.
  abbrev pub IsLater : ℕ → Fields → Type 0
  IsLater after_seq doc = (count_at doc "seq" ≡ ok (seq_of doc)) × (after_seq < seq_of doc)

  listed-IsLater :
      (after_seq : ℕ) (doc : Option Fields) (rest events : List Fields)
      → All (IsLater after_seq) rest
      → listed after_seq doc rest ≡ ok events
      → All (IsLater after_seq) events
  listed-IsLater after_seq none rest events h e = subst (All (IsLater after_seq)) (ok_injective e) h
  listed-IsLater after_seq (some end) rest events h e =
      subst (All (IsLater after_seq)) (ok_injective e) h
  listed-IsLater after_seq (some (field k v d)) rest events h e =
      elim (Result-cases (count_at (field k v d) "seq")) [
        | inr (x, f) ↦ cc (rw f at e)
        | inl (n, f) ↦ elim (Bool-cases (leb n after_seq)) [
          | inl g ↦ subst (All (IsLater after_seq)) (ok_injective (rw (f, g) at e)) h
          | inr g ↦
              let later : IsLater after_seq (field k v d) =
                (rw (f, seq_of) refl, rw (f, seq_of) (ground (arith, g))) in
              subst (All (IsLater after_seq)) (ok_injective (rw (f, g) at e)) (later, h)
        ]
      ]

  collect-IsLater :
      (s : Storage) (p : String) (after_seq : ℕ) (ids : List String) (events : List Fields)
      → collect s p after_seq ids ≡ ok events
      → All (IsLater after_seq) events
  unfolding collect
  collect-IsLater s p after_seq [] events e = subst (All (IsLater after_seq)) (ok_injective e) tt
  collect-IsLater s p after_seq (id ∷ ids) events e =
      elim (Result-cases (collect s p after_seq ids)) [
        | inr (x, f) ↦ cc (rw f at e)
        | inl (rest, f) ↦
            listed-IsLater after_seq _ rest events (collect-IsLater s p after_seq ids rest f)
              (rw f at e)
      ]

  -- A listing that returns holds at most `limit` events, at least one being asked for and at most 500, and
  -- each of them has a readable sequence number above `after_seq`.
  pub list_events-IsLater :
      (p r : String) (after_seq limit : ℕ) (w : World) (events : List Fields)
      → (list_events p r after_seq limit w).0 ≡ ok events
      → (length events ≤ max 1 (min limit 500)) × All (IsLater after_seq) events
  unfolding list_events
  list_events-IsLater p r after_seq limit w events h =
      let ids = zrange w.storage ns_run_events (run_index_key p r) (pos 0) (negsuc 0) in
      elim (Result-cases (collect w.storage p after_seq ids)) [
        | inr (x, f) ↦ cc (rw f at h)
        | inl (found, f) ↦
            let n = max 1 (min limit 500) in
            let e : take n (sort by_seq found) ≡ events = ok_injective (rw f at h) in
            let later =
              All-sort by_seq (IsLater after_seq) found
                (collect-IsLater w.storage p after_seq ids found f) in
            subst (λ es. (length es ≤ n) × All (IsLater after_seq) es) e
              (
                length-take_le n (sort by_seq found),
                All-take (IsLater after_seq) n (sort by_seq found) later,
              )
      ]

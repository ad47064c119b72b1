-- ===== src/Investigation/Events/Frames.antt =====
-- What an append leaves alone: the documents outside of the runs' and the events' namespaces.
use deepticket.Prelude.{ℕ, String, ◌≡◌, refl, false, Option, inl, inr, Option-cases, ◌==◌, [], ◌∷◌}
use deepticket.Json.{Fields}
use deepticket.Env.{Env}
use deepticket.Storage.Local.{set_json, zadd, incr}
use deepticket.Storage.Laws.{get_json-set_json, get_json-zadd, get_json-incr}
use deepticket.World.{on_storage}
use deepticket.World.Keeps.{Keeps, Keeps-on_storage, keeps_rules}
use deepticket.Investigation.RunDocs.{
  RunEventType, bump_event_stats, ns_run, ns_runs_by_user, ns_runs_by_chat,
}
use deepticket.Investigation.RunDocs.Frames.{get_json-save}
use deepticket.Investigation.Evolution.Operations.{broken, absent, present, find}
use deepticket.Investigation.Events.{
  RunEventStore, append, next_seq, ns_run_seq, ns_run_event, ns_run_events, seq_key,
}

-- The namespace is none of those that the stores of runs and of events write.
pub record IsApart (ns : String) : Type 0 where
  pub run : (ns_run == ns) ≡ false
  pub by_user : (ns_runs_by_user == ns) ≡ false
  pub by_chat : (ns_runs_by_chat == ns) ≡ false
  pub event : (ns_run_event == ns) ≡ false
  pub events : (ns_run_events == ns) ≡ false
  pub seq : (ns_run_seq == ns) ≡ false

-- A number is drawn in a namespace of its own.
pub Keeps-next_seq :
    ⦃env : Env⦄ (ns : String)
    → (ns_run_seq == ns) ≡ false
    → (p r : String) → Keeps ns (next_seq p r)
Keeps-next_seq ns h p r = record {
  at = λ w k. elim (Option-cases (incr w.storage ns_run_seq (seq_key p r) 1).0) [
    | inl e ↦ rw e refl
    | inr (n, e) ↦ rw e (get_json-incr w.storage ns_run_seq (seq_key p r) 1 ns k h)
  ];
}

module _ ⦃env : Env⦄ {ns : String} (a : IsApart ns) where
  pub Keeps-bump_event_stats : (p r : String) (t : RunEventType) → Keeps ns (bump_event_stats p r t)
  unfolding bump_event_stats
  Keeps-bump_event_stats p r t = record {
    at = λ w k. elim (find p r w) [
      | broken e q ↦ rw q refl
      | absent q h ↦ rw q refl
      | present doc run h e q ↦ rw (q, get_json-save _ _ ns k a.by_user a.by_chat, a.run)
    ];
  }

  kept_seq : (p r : String) → Keeps ns (next_seq p r)
  kept_seq = Keeps-next_seq ns a.seq

  kept_doc : (k : String) (d : Fields) → Keeps ns (on_storage (λ s. set_json s ns_run_event k d))
  kept_doc k d =
      Keeps-on_storage (λ s. set_json s ns_run_event k d) (λ s j. simp (get_json-set_json, a.event))

  kept_score :
      (k m : String) (v : ℕ) → Keeps ns (on_storage (λ s. zadd s ns_run_events k ((m, v) ∷ [])))
  kept_score k m v =
      Keeps-on_storage (λ s. zadd s ns_run_events k ((m, v) ∷ []))
        (λ s j. simp (get_json-zadd, a.events))

  pub Keeps-append :
      (events : RunEventStore) (p r : String) (t : RunEventType) (payload : Fields)
      (oh : Option String)
      → Keeps ns (append events p r t payload oh)
  unfolding append
  Keeps-append events p r t payload oh =
      search (keeps_rules, kept_seq, kept_doc, kept_score, Keeps-bump_event_stats) depth 12

-- ===== src/Investigation/Evolution/Operations.antt =====
-- Every operation of the stores of runs and events evolves the runs by the machine's steps only.
use deepticket.Prelude.{
  ℕ, suc, String, ◌≡◌, refl, ◌⊎◌, Option, none, some, inl, inr, arith, [], ◌∷◌, Option-cases,
}
use deepticket.Json.{Fields}
use deepticket.Env.{Env}
use deepticket.Exec.{Result, ok, err, Error, pure, ◌>>◌}
use deepticket.Storage.Local.{get_json, set_json, zadd, incr}
use deepticket.Storage.Laws.{get_json-set_json, get_json-zadd, get_json-incr}
use deepticket.World.{World, on_storage}
use deepticket.Investigation.Status.{RunStatus, validate_transition}
use deepticket.Investigation.Models.{InvestigationRun, from_dict}
use deepticket.Investigation.RunDocs.{
  ns_run, run_key, RunEventType, get_run, save, bump_event_stats, bumped, run_created,
}
use deepticket.Investigation.RunDocs.Frames.{get_json-save}
use deepticket.Investigation.Events.{
  RunEventStore, append, next_seq, ns_run_seq, ns_run_event, ns_run_events, seq_key,
}
use deepticket.Investigation.Store.{transition, moved, report, set_oh_conversation_id}
use deepticket.Investigation.Evolution.{Follows, Step, quiet, update, Evolves, here}
use deepticket.Investigation.Evolution.Rules.{
  Evolves-one, Refines, continue-Evolves, Refines-on_storage, refines_rules,
}

-- What a lookup of a run finds.
pub data Found ⦃env : Env⦄ (p r : String) (w : World) : Type 0 where
  broken : (e : Error) → get_run p r w ≡ (err e, w) → Found p r w
  absent :
      get_run p r w ≡ (ok none, w) → get_json w.storage ns_run (run_key p r) ≡ none → Found p r w
  present :
      (doc : Fields) (run : InvestigationRun)
      → get_json w.storage ns_run (run_key p r) ≡ some doc
      → from_dict doc ≡ ok run
      → get_run p r w ≡ (ok (some run), w)
      → Found p r w

pub Result-cases {ℓ} :
    {A : Type ℓ} (x : Result A) → ((a : A) × (x ≡ ok a)) ⊎ ((e : Error) × (x ≡ err e))
Result-cases (ok a) = inl (a, refl)
Result-cases (err e) = inr (e, refl)

module _ ⦃env : Env⦄ where
  pub find : (p r : String) (w : World) → Found p r w
  unfolding get_run
  find p r w = elim (Option-cases (get_json w.storage ns_run (run_key p r))) [
    | inl h ↦ absent (rw h) h
    | inr (doc, h) ↦ elim (Result-cases (from_dict doc)) [
      | inl (run, e) ↦ present doc run h e (rw h (rw e))
      | inr (e, q) ↦ broken e (rw h (rw q))
    ]
  ]

  -- A save after a lookup in the same storage is one step.
  pub save-Step :
      (w : World) (k : String) (doc : Fields) (run run' : InvestigationRun)
      → get_json w.storage ns_run k ≡ some doc
      → from_dict doc ≡ ok run
      → Follows run run'
      → Step w.storage (save run' w).1.storage
  save-Step w k doc run run' h e f =
      update k doc run run' h e f (λ j. get_json-save run' w ns_run j refl refl)

  bumped-Follows :
      (t : RunEventType) (run : InvestigationRun) (now : String) → Follows run (bumped t run now)
  bumped-Follows t run now = record {
    run_id = refl;
    project_id = refl;
    uid = refl;
    moves = inl refl;
    events = omega arith;
  }

  pub Refines-bump_event_stats :
      (p r : String) (t : RunEventType) → Refines (bump_event_stats p r t)
  unfolding bump_event_stats
  Refines-bump_event_stats p r t = record {
    at = λ w. elim (find p r w) [
      | broken e q ↦ rw q here
      | absent q h ↦ rw q here
      | present doc run h e q ↦
          rw q (Evolves-one (save-Step _ (run_key p r) doc run _ h e (bumped-Follows t run _)))
    ];
  }

  Refines-next_seq : (p r : String) → Refines (next_seq p r)
  Refines-next_seq p r = record {
    at = λ w. elim (Option-cases (incr w.storage ns_run_seq (seq_key p r) 1).0) [
      | inl e ↦ rw e here
      | inr (n, e) ↦ rw e (
          Evolves-one
            (quiet (λ k. get_json-incr w.storage ns_run_seq (seq_key p r) 1 ns_run k refl)))
    ];
  }

  unseen_doc : (k : String) (d : Fields) → Refines (on_storage (λ s. set_json s ns_run_event k d))
  unseen_doc k d =
      Refines-on_storage (λ s. set_json s ns_run_event k d)
        (λ s j. get_json-set_json s ns_run_event k ns_run j d)

  unseen_score :
      (k m : String) (v : ℕ) → Refines (on_storage (λ s. zadd s ns_run_events k ((m, v) ∷ [])))
  unseen_score k m v =
      Refines-on_storage (λ s. zadd s ns_run_events k ((m, v) ∷ []))
        (λ s j. get_json-zadd s ns_run_events k ns_run j m v)

  pub Refines-append :
      (events : RunEventStore) (p r : String) (t : RunEventType) (payload : Fields)
      (oh : Option String)
      → Refines (append events p r t payload oh)
  unfolding append
  Refines-append events p r t payload oh =
      search (refines_rules, Refines-next_seq, unseen_doc, unseen_score, Refines-bump_event_stats)
        depth 12

  pub Refines-report :
      (events : Option RunEventStore) (p r : String) (from to : RunStatus)
      → Refines (report events p r from to)
  unfolding report
  Refines-report none p r from to = search refines_rules
  Refines-report (some events) p r from to = search (refines_rules, Refines-append) depth 8

  moved-Follows :
      (run : InvestigationRun) (to : RunStatus) (now : String) (m c : Option String)
      → validate_transition run.status to ≡ ok tt
      → Follows run (moved run to now m c)
  unfolding moved
  moved-Follows run to now m c h = record {
    run_id = refl;
    project_id = refl;
    uid = refl;
    moves = inr h;
    events = omega arith;
  }

  -- From a storage in which the run was found, an allowed move is one step, and the events follow.
  transition_present :
      (w : World) (k p r : String) (doc : Fields) (run run' : InvestigationRun)
      (events : Option RunEventStore) (from to : RunStatus)
      → get_json w.storage ns_run k ≡ some doc
      → from_dict doc ≡ ok run
      → Follows run run'
      → Evolves w.storage ((save run' >> (report events p r from to >> pure run')) w).1.storage
  transition_present w k p r doc run run' events from to h e f =
      continue-Evolves w.storage (save run' w).0 (save run' w).1
        (λ _. report events p r from to >> pure run')
        (Evolves-one (save-Step w k doc run run' h e f))
        (λ _. search (refines_rules, Refines-report))

  pub Refines-transition :
      (p r : String) (to : RunStatus) (m c : Option String) (events : Option RunEventStore)
      → Refines (transition p r to m c events)
  unfolding transition
  Refines-transition p r to m c events = record {
    at = λ w. elim (find p r w) [
      | broken e q ↦ rw q here
      | absent q h ↦ rw q here
      | present doc run h e q ↦ rw q (elim (Result-cases (validate_transition run.status to)) [
        | inl (u, v) ↦ rw v (
            transition_present (record w { ticks = suc w.ticks }) (run_key p r) p r doc run _ events
              run.status to h e (moved-Follows run to _ m c v))
        | inr (x, v) ↦ rw v here
      ])
    ];
  }

  recorded :
      (events : RunEventStore) (p r : String) (o : Option InvestigationRun)
      (d : InvestigationRun → Fields)
      → Refines (elim o [
        | none ↦ pure tt
        | some run ↦ append events p r run_created (d run) none >> pure tt
      ])
  recorded events p r none d = search refines_rules
  recorded events p r (some run) d = search (refines_rules, Refines-append)

  conv-Follows :
      (run : InvestigationRun) (c now : String)
      → Follows run (record run { oh_conversation_id = some c; updated_at = now })
  conv-Follows run c now = record {
    run_id = refl;
    project_id = refl;
    uid = refl;
    moves = inl refl;
    events = omega arith;
  }

  pub Refines-set_oh_conversation_id : (p r c : String) → Refines (set_oh_conversation_id p r c)
  unfolding set_oh_conversation_id
  Refines-set_oh_conversation_id p r c = record {
    at = λ w. elim (find p r w) [
      | broken e q ↦ rw q here
      | absent q h ↦ rw q here
      | present doc run h e q ↦ rw q (
          let w' = record w { ticks = suc w.ticks } in
          let run' : InvestigationRun = record run {
            oh_conversation_id = some c;
            updated_at = env.utc_now_iso w.ticks;
          } in
          continue-Evolves w.storage (save run' w').0 (save run' w').1 (λ _. pure run')
            (Evolves-one (save-Step w' (run_key p r) doc run run' h e (conv-Follows run c _)))
            (λ _. search refines_rules))
    ];
  }

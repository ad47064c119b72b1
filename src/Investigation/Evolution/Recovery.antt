-- ===== src/Investigation/Evolution/Recovery.antt =====
-- The recovery after a restart, and the operations that start a run, evolve the runs by the machine's
-- steps only.
use deepticket.Prelude.{
  String, ◌≡◌, refl, Option, none, some, inl, inr, List, [], ◌∷◌, Bool-cases, ◌+◌,
}
use deepticket.Json.{Fields, end, field}
use deepticket.Env.{Env}
use deepticket.Exec.{Result, ok, err, pure}
use deepticket.Storage.Local.{get_json, list_keys}
use deepticket.World.{World}
use deepticket.Investigation.Status.{RunSource, failed}
use deepticket.Investigation.Models.{InvestigationRun, from_dict, is_terminal}
use deepticket.Investigation.RunDocs.{ns_run, run_key, save, run_created}
use deepticket.Investigation.RunDocs.Frames.{get_json-save}
use deepticket.Investigation.Events.{RunEventStore, append}
use deepticket.Investigation.Store.{
  create_run, transition, record_run_created_event, recover, recover_all, recover_doc, recover_run,
  counted, fail_orphaned_runs,
}
use deepticket.Investigation.Evolution.{insert, Evolves, here}
use deepticket.Investigation.Evolution.Rules.{
  Evolves-one, Refines, continue-Evolves, Refines-gets, Refines-bind, Refines-pure, refines_rules,
}
use deepticket.Investigation.Evolution.Operations.{
  broken, absent, present, find, Refines-transition, Refines-append,
}

module _ ⦃env : Env⦄ where
  counted-state : (x : Result InvestigationRun) (w : World) → (counted (x, w)).1 ≡ w
  counted-state (ok run) w = refl
  counted-state (err e) w = refl

  recover_run-Refines :
      (reason : String) (x : Result InvestigationRun) → Refines (recover_run reason x)
  recover_run-Refines reason (err e) = search refines_rules
  recover_run-Refines reason (ok run) = elim (Bool-cases (is_terminal run)) [
    | inl t ↦ rw t (search refines_rules)
    | inr t ↦ rw t (record {
      at = λ w.
          let m = transition run.project_id run.run_id failed (some reason) none none in
          rw (counted-state (m w).0 (m w).1)
            ((Refines-transition run.project_id run.run_id failed (some reason) none none).at w);
    })
  ]

  recover_doc-Refines : (reason : String) (o : Option Fields) → Refines (recover_doc reason o)
  recover_doc-Refines reason none = search refines_rules
  recover_doc-Refines reason (some end) = search refines_rules
  recover_doc-Refines reason (some (field k v d)) =
      recover_run-Refines reason (from_dict (field k v d))

  recover-Refines : (reason key : String) → Refines (recover reason key)
  unfolding recover
  recover-Refines reason key =
      Refines-bind _ _ (Refines-gets (λ w. get_json w.storage ns_run key))
        (recover_doc-Refines reason)

  recover_all-Refines : (reason : String) (keys : List String) → Refines (recover_all reason keys)
  unfolding recover_all
  recover_all-Refines reason [] = search refines_rules
  recover_all-Refines reason (key ∷ keys) =
      Refines-bind _ _ (recover-Refines reason key)
        (λ n. Refines-bind _ _ (recover_all-Refines reason keys) (λ rest. Refines-pure (n + rest)))

  pub Refines-fail_orphaned_runs : (reason : String) → Refines (fail_orphaned_runs reason)
  unfolding fail_orphaned_runs
  Refines-fail_orphaned_runs reason =
      Refines-bind _ _ (Refines-gets (λ w. list_keys w.storage ns_run)) (recover_all-Refines reason)

  pub Refines-record_run_created_event :
      (p r : String) (events : RunEventStore) → Refines (record_run_created_event p r events)
  unfolding record_run_created_event
  Refines-record_run_created_event p r events = record {
    at = λ w. elim (find p r w) [
      | broken e q ↦ rw q here
      | absent q h ↦ rw q here
      | present doc run h e q ↦ rw q (
          (Refines-bind (append events p r run_created _ none) (λ _. pure tt)
              (Refines-append events p r run_created _ none) (λ _. Refines-pure tt)).at
            w)
    ];
  }

  -- A run whose new identifier is not in use is inserted.
  pub create_run-Evolves :
      (p uid : String) (source : RunSource) (chat job ticket : Option String) (w : World)
      → get_json w.storage ns_run (run_key p (env.uuid4_hex w.uuids)) ≡ none
      → Evolves w.storage (create_run p uid source chat job ticket w).1.storage
  unfolding create_run
  create_run-Evolves p uid source chat job ticket w fresh =
      continue-Evolves w.storage (save _ _).0 (save _ _).1 (λ _. pure _)
        (Evolves-one (insert _ refl fresh (λ k. get_json-save _ _ ns_run k refl refl)))
        (λ _. Refines-pure _)

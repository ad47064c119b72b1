-- ===== src/ChatRuns/Holds.antt =====
-- Rules for the status of one stored run, across the actions of its task.
pub mod Beginning
pub mod Engine
use deepticket.Prelude.{
  ℕ, suc, String, ◌≡◌, refl, sym, subst, ◌∙◌, Bool, true, false, ◌||◌, Option, none, some, inl, inr,
  List,
}
use deepticket.Json.{Fields}
use deepticket.Env.{Env}
use deepticket.Exec.{Error, Result, ok, err, pure, when, continue, ◌>>=◌, ◌>>◌}
use deepticket.Storage.Local.{Storage, set_json, zadd}
use deepticket.World.{World, Action, on_storage}
use deepticket.World.Keeps.{Keeps, keeps_rules}
use deepticket.World.Frames.{Keeps-set_json, Keeps-zadd}
use deepticket.Investigation.Status.{
  RunStatus, created, queued, running, waiting_approval, completed, failed, blocked, cancelled,
  is_status, is_terminal_status, validate_transition,
}
use deepticket.Investigation.Models.{InvestigationRun}
use deepticket.Investigation.Models.RoundTrip.{without_blanks}
use deepticket.Investigation.RunDocs.{ns_run, run_key, RunEventType, save, bumped, bump_event_stats}
use deepticket.Investigation.Events.{RunEventStore, append, next_seq, ns_run_event, ns_run_events}
use deepticket.Investigation.Events.Frames.{Keeps-next_seq}
use deepticket.Investigation.Store.{transition, moved, report, set_oh_conversation_id}
use deepticket.Investigation.Store.Transition.{get_run-Stored, save-Stored}
use deepticket.Investigation.Evolution.{key_of}
use deepticket.Investigation.Evolution.Operations.{Result-cases}
use deepticket.Investigation.Evolution.Laws.{Stored}

-- The run is over or waits for the operator.
abbrev pub is_settled : RunStatus → Bool
is_settled s = is_terminal_status s || is_status s waiting_approval

-- The run is settled or running.
abbrev pub is_begun : RunStatus → Bool
is_begun s = is_settled s || is_status s running

abbrev pub Settled : RunStatus → Type 0
Settled s = is_settled s ≡ true

abbrev pub Begun : RunStatus → Type 0
Begun s = is_begun s ≡ true

pub Settled→Begun : (s : RunStatus) → Settled s → Begun s
Settled→Begun s h = rw h refl

-- The targets of a running run's moves are settled, and a begun run that cannot move to one is settled.
target-Settled : (to : RunStatus) → validate_transition running to ≡ ok tt → Settled to
unfolding validate_transition
target-Settled created h = cc
target-Settled queued h = cc
target-Settled running h = cc
target-Settled waiting_approval h = refl
target-Settled completed h = refl
target-Settled failed h = refl
target-Settled blocked h = refl
target-Settled cancelled h = refl

refused-Settled :
    (s to : RunStatus) (e : Error)
    → Begun s
    → validate_transition running to ≡ ok tt
    → validate_transition s to ≡ err e
    → Settled s
refused-Settled created to e b t r = cc
refused-Settled queued to e b t r = cc
refused-Settled running to e b t r = cc
refused-Settled waiting_approval to e b t r = refl
refused-Settled completed to e b t r = refl
refused-Settled failed to e b t r = refl
refused-Settled blocked to e b t r = refl
refused-Settled cancelled to e b t r = refl

module _ ⦃env : Env⦄ (p r : String) where
  -- The run is stored, and its status is as stated.
  pub record Holds (P : RunStatus → Type 0) (s : Storage) : Type 0 where
    pub run : InvestigationRun
    pub stored : Stored (run_key p r) run s
    pub keyed : key_of run ≡ run_key p r
    pub status : P run.status

  pub record Leads (P Q : RunStatus → Type 0) {A : Type 0} (m : Action A) : Type 0 where
    pub at : (w : World) → Holds P w.storage → Holds Q (m w).1.storage

  -- A version of the run at a status that is as stated is saved.
  pub Holds-save :
      {Q : RunStatus → Type 0} (run : InvestigationRun) (w : World)
      → key_of run ≡ run_key p r
      → Q run.status
      → Holds Q (save run w).1.storage
  Holds-save run w e q = record {
    run = without_blanks run;
    stored = save-Stored run (run_key p r) w e;
    keyed = e;
    status = q;
  }

  module _ {P : RunStatus → Type 0} where
    pub Leads-Keeps : {A : Type 0} (m : Action A) → Keeps ns_run m → Leads P P m
    Leads-Keeps m k = record {
      at = λ w h. record {
        run = h.run;
        stored = record {
          doc = h.stored.doc;
          at = k.at w (run_key p r) ∙ h.stored.at;
          reads = h.stored.reads;
        };
        keyed = h.keyed;
        status = h.status;
      };
    }

    pub Leads-when : (b : Bool) (m : Action (Unit {0})) → Leads P P m → Leads P P (when b m)
    Leads-when true m h = h
    Leads-when false m h = record { at = λ w x. x }

    Leads-bump_event_stats : (t : RunEventType) → Leads P P (bump_event_stats p r t)
    unfolding bump_event_stats
    Leads-bump_event_stats t = record {
      at = λ w h. rw (get_run-Stored p r w h.run h.stored) (
          Holds-save (bumped t h.run (env.utc_now_iso w.ticks)) (record w { ticks = suc w.ticks })
            h.keyed h.status);
    }

  module _ {A B : Type 0} where
    continue-Leads :
        {Q : RunStatus → Type 0} (x : Result A × World) (f : A → Action B)
        → Holds Q x.1.storage
        → ((a : A) → Leads Q Q (f a))
        → Holds Q (continue x f).1.storage
    continue-Leads (ok a, w) f h k = (k a).at w h
    continue-Leads (err e, w) f h k = h

    pub Leads-bind :
        {P Q : RunStatus → Type 0} (m : Action A) (f : A → Action B)
        → Leads P Q m
        → ((a : A) → Leads Q Q (f a))
        → Leads P Q (m >>= f)
    Leads-bind m f h k = record { at = λ w x. continue-Leads (m w) f (h.at w x) k }

  module _ {P : RunStatus → Type 0} where
    next_seq_stays : Leads P P (next_seq p r)
    next_seq_stays = Leads-Keeps _ (Keeps-next_seq ns_run refl p r)

    event_doc_stays :
        (k : String) (d : Fields) → Leads P P (on_storage (λ s. set_json s ns_run_event k d))
    event_doc_stays k d = Leads-Keeps _ (Keeps-set_json ns_run ns_run_event refl k d)

    event_index_stays :
        (k : String) (ms : List (String × ℕ))
        → Leads P P (on_storage (λ s. zadd s ns_run_events k ms))
    event_index_stays k ms = Leads-Keeps _ (Keeps-zadd ns_run ns_run_events refl k ms)

    pub Leads-append :
        (events : RunEventStore) (t : RunEventType) (payload : Fields) (oh : Option String)
        → Leads P P (append events p r t payload oh)
    unfolding append
    Leads-append events t payload oh =
        search
          (
            Leads-bind, Leads-when, Leads-Keeps, keeps_rules, next_seq_stays, event_doc_stays,
            event_index_stays, Leads-bump_event_stats,
          )
          depth 12

    Leads-report :
        (events : Option RunEventStore) (from to : RunStatus)
        → Leads P P (report events p r from to)
    unfolding report
    Leads-report none from to = search (Leads-Keeps, keeps_rules)
    Leads-report (some events) from to =
        search (Leads-bind, Leads-when, Leads-Keeps, keeps_rules, Leads-append) depth 8

  moved-status :
      (run : InvestigationRun) (to : RunStatus) (now : String) (m c : Option String)
      → (moved run to now m c).status ≡ to
  unfolding moved
  moved-status run to now m c = refl

  moved-keyed :
      (run : InvestigationRun) (to : RunStatus) (now : String) (m c : Option String)
      → key_of (moved run to now m c) ≡ key_of run
  unfolding moved
  moved-keyed run to now m c = refl

  -- A transition leads on where its moves and its refusals do.
  pub transition-Leads :
      {P Q : RunStatus → Type 0} (to : RunStatus) (m c : Option String)
      (events : Option RunEventStore)
      → ((s : RunStatus) → P s → validate_transition s to ≡ ok tt → Q to)
      → ((s : RunStatus) (e : Error) → P s → validate_transition s to ≡ err e → Q s)
      → Leads P Q (transition p r to m c events)
  unfolding transition
  transition-Leads {Q = Q} to m c events moves stays = record {
    at = λ w h.
        rw (get_run-Stored p r w h.run h.stored)
          (elim (Result-cases (validate_transition h.run.status to)) [
            | inl (u, v) ↦ rw v (
                let run' = moved h.run to (env.utc_now_iso w.ticks) m c in
                let w' = record w { ticks = suc w.ticks } in
                continue-Leads (save run' w') (λ _. report events p r h.run.status to >> pure run')
                  (Holds-save run' w' (moved-keyed h.run to _ m c ∙ h.keyed)
                    (subst Q (sym (moved-status h.run to _ m c)) (moves h.run.status h.status v)))
                  (λ _. search (Leads-bind, Leads-report, Leads-Keeps, keeps_rules)))
            | inr (e, v) ↦ rw v (record {
              run = h.run;
              stored = h.stored;
              keyed = h.keyed;
              status = stays h.run.status e h.status v;
            })
          ]);
  }

  -- A move that a running run can make settles the run, also where it is refused.
  pub transition-Settled :
      (to : RunStatus) (m c : Option String) (events : Option RunEventStore)
      → validate_transition running to ≡ ok tt
      → Leads Begun Settled (transition p r to m c events)
  transition-Settled to m c events t =
      transition-Leads to m c events (λ s b v. target-Settled to t)
        (λ s e b v. refused-Settled s to e b t v)

  pub Leads-set_oh_conversation_id :
      {P : RunStatus → Type 0} (conversation : String)
      → Leads P P (set_oh_conversation_id p r conversation)
  unfolding set_oh_conversation_id
  Leads-set_oh_conversation_id conversation = record {
    at = λ w h. rw (get_run-Stored p r w h.run h.stored) (
        let run' : InvestigationRun = record h.run {
          oh_conversation_id = some conversation;
          updated_at = env.utc_now_iso w.ticks;
        } in
        let w' = record w { ticks = suc w.ticks } in
        continue-Leads (save run' w') (λ _. pure run') (Holds-save run' w' h.keyed h.status)
          (λ _. search (Leads-Keeps, keeps_rules)));
  }

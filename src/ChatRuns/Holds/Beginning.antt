-- ===== src/ChatRuns/Holds/Beginning.antt =====
-- What `begin_investigation_run` leaves of the run that it creates.
use deepticket.Prelude.{suc, String, ◌≡◌, refl, Option, none, some, [], ◌∷◌}
use deepticket.Json.{str, str_or_null, dict_of}
use deepticket.Env.{Env}
use deepticket.Exec.{Error, Result, ok, err, Exec, pure, continue, ◌>>◌}
use deepticket.World.{World}
use deepticket.World.Keeps.{keeps_rules}
use deepticket.Investigation.Status.{
  RunStatus, RunSource, created, running, source_value, validate_transition,
}
use deepticket.Investigation.Models.{InvestigationRun}
use deepticket.Investigation.RunDocs.{save, run_created}
use deepticket.Investigation.Events.{RunEventStore, append}
use deepticket.Investigation.Store.{create_run, record_run_created_event, transition}
use deepticket.Investigation.Store.Transition.{get_run-Stored}
use deepticket.Investigation.RunLifecycle.{AgentInput, begin_investigation_run}
use deepticket.Prelude.{ap}
use deepticket.ChatRuns.Holds.Engine.{Named}
use deepticket.ChatRuns.Holds.{
  Begun, Holds, Holds-save, Leads, Leads-Keeps, Leads-bind, Leads-append, transition-Leads,
}

abbrev pub Fresh : RunStatus → Type 0
Fresh s = s ≡ created

-- What holds of a value and of the state behind it, where there is no exception
abbrev pub Returns : {S A : Type 0} → (A → S → Type 0) → Result A × S → Type 0
Returns Q (ok a, s) = Q a s
Returns Q (err e, s) = Unit

pub continue-Returns :
    {S A B : Type 0} (P : A → S → Type 0) (Q : B → S → Type 0) (x : Result A × S) (f : A → Exec S B)
    → Returns P x
    → ((a : A) (s : S) → P a s → Returns Q (f a s))
    → Returns Q (continue x f)
continue-Returns P Q (ok a, s) f h k = k a s h
continue-Returns P Q (err e, s) f h k = tt

-- What holds of the state in any case holds of it behind a value.
pub Returns-state :
    {S A : Type 0} (Q : S → Type 0) (x : Result A × S) → Q x.1 → Returns (λ (a : A) s. Q s) x
Returns-state Q (ok a, s) h = h
Returns-state Q (err e, s) h = tt

module _ ⦃env : Env⦄ (p r : String) where
  Leads-record_run_created_event :
      (events : RunEventStore) → Leads p r Fresh Fresh (record_run_created_event p r events)
  unfolding record_run_created_event
  Leads-record_run_created_event events = record {
    at = λ w h. rw (get_run-Stored p r w h.run h.stored) (
        let rest : Leads p r Fresh Fresh (
            append events p r run_created
              (dict_of (
                ("source", str (source_value h.run.source))
                ∷ ("chat_id", str_or_null h.run.chat_id)
                ∷ ("ingress_job_id", str_or_null h.run.ingress_job_id)
                ∷ []))
              none
            >> pure tt) =
          search (Leads-bind, Leads-append, Leads-Keeps, keeps_rules) in
        rest.at w h);
  }

  starts : (s : RunStatus) (e : Error) → Fresh s → validate_transition s running ≡ err e → Begun s
  unfolding validate_transition
  starts created e f v = cc
  starts _ e f v = cc

  Leads-start :
      (events : RunEventStore)
      → Leads p r Fresh Begun (transition p r running none none (some events))
  Leads-start events = transition-Leads p r running none none (some events) (λ s f v. refl) starts

  abbrev pub Started : InvestigationRun × AgentInput → World → Type 0
  Started begun w = (begun.0.run_id ≡ r) × Named p r begun.1 × Holds p r Begun w.storage

  -- The rest of `begin_investigation_run` for a run that was created
  created-Started :
      (events : RunEventStore) (agent_input : AgentInput) (run : InvestigationRun) (w : World)
      → run.run_id ≡ r
      → Holds p r Fresh w.storage
      → Returns Started (
          (record_run_created_event p run.run_id events
              >> (transition p run.run_id running none none (some events)
                  >> pure
                      (run, record agent_input { run_id = some run.run_id; project_id = some p })))
            w)
  created-Started events agent_input run w same h =
      continue-Returns (λ u (w' : World). Holds p r Fresh w'.storage) Started
        (record_run_created_event p run.run_id events w) _
        (Returns-state (λ (w' : World). Holds p r Fresh w'.storage) _
          (rw same ((Leads-record_run_created_event events).at w h)))
        (λ u w' h'.
          continue-Returns (λ run' (w'' : World). Holds p r Begun w''.storage) Started
            (transition p run.run_id running none none (some events) w') _
            (Returns-state (λ (w'' : World). Holds p r Begun w''.storage) _
              (rw same ((Leads-start events).at w' h')))
            (λ run' w'' h''. (same, (ap some same, refl), h'')))

module _ ⦃env : Env⦄ where
  -- The run that is begun has the identifier that is drawn next, and is stored as running, or further on.
  pub begin_investigation_run-Begun :
      (events : RunEventStore) (p uid : String) (source : RunSource) (agent_input : AgentInput)
      (chat_id job_id ticket_id : Option String) (w : World)
      → Returns
          (Started p (env.uuid4_hex w.uuids))
          (begin_investigation_run events p uid source agent_input chat_id job_id ticket_id w)
  unfolding begin_investigation_run create_run
  begin_investigation_run-Begun events p uid source agent_input chat_id job_id ticket_id w =
      let r = env.uuid4_hex w.uuids in
      let new : InvestigationRun = record {
        run_id = r;
        project_id = p;
        uid = uid;
        source = source;
        status = created;
        created_at = env.utc_now_iso w.ticks;
        updated_at = env.utc_now_iso w.ticks;
        chat_id = chat_id;
        ingress_job_id = job_id;
        ticket_id = ticket_id;
        oh_conversation_id = none;
        started_at = none;
        finished_at = none;
        error_message = none;
        tool_call_count = 0;
        event_count = 0;
      } in
      let w' : World = record { storage = w.storage; uuids = suc w.uuids; ticks = suc w.ticks } in
      let Created =
        λ (run : InvestigationRun) (w'' : World). (run.run_id ≡ r) × Holds p r Fresh w''.storage in
      continue-Returns Created (Started p r) (continue (save new w') (λ u. pure new)) _
        (continue-Returns (λ u (w'' : World). Holds p r Fresh w''.storage) Created (save new w')
          (λ u. pure new)
          (Returns-state (λ (w'' : World). Holds p r Fresh w''.storage) _
            (Holds-save p r {Q = Fresh} new w' refl refl))
          (λ u w'' h. (refl, h)))
        (λ run w'' h. created-Started p r events agent_input run w'' h.0 h.1)

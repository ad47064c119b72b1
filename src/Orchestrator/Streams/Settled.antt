-- ===== src/Orchestrator/Streams/Settled.antt =====
-- A ticket's run is settled when its stream has been read to the end.
use deepticket.Prelude.{
  String, ◌≡◌, refl, sym, subst, Bool, true, false, Option, none, some, inl, inr, List, Bool-cases,
  if◌then◌else◌,
}
use deepticket.Env.{Env}
use deepticket.Exec.{
  Error, policy_approval_required, cancelled_error, Exec, Result, ok, err, pure, raise, when,
  continue, ◌>>=◌,
}
use deepticket.Storage.Local.{set_json}
use deepticket.World.{World, Action, on_storage}
use deepticket.World.Keeps.{Keeps}
use deepticket.Observability.Metrics.{MetricsCollector}
use deepticket.Investigation.Status.{running, ingress, ticket, validate_transition}
use deepticket.Investigation.Models.{InvestigationRun}
use deepticket.Investigation.RunDocs.{ns_run, is_given}
use deepticket.Investigation.Events.{RunEventStore}
use deepticket.Investigation.RunLifecycle.{AgentInput, begin_investigation_run}
use deepticket.Output.Chunks.{StreamChunk}
use deepticket.ChatRuns.Execution.{Locals, fresh_locals}
use deepticket.ChatRuns.Holds.{Begun, Settled, Holds, Leads-Keeps, transition-Settled}
use deepticket.ChatRuns.Holds.Engine.{Named, Leads-engine_writes}
use deepticket.Orchestrator.Engine.{engine_writes}
use deepticket.ChatRuns.Holds.Beginning.{
  Returns, continue-Returns, Returns-state, Started, begin_investigation_run-Begun,
}
use deepticket.Orchestrator.Records.{ns_tickets}
use deepticket.Orchestrator.Records.Frames.{Keeps-ticket, Keeps-store_stream}
use deepticket.Orchestrator.Streams.{
  Script, Site, Config, TicketInput, on_site, measure, run_stream, ending, end_stream,
  finish_engine, settle_run, attempt_stream, run_uid, heard, ticket_doc, stream_begun, stream_owned,
  ticket_input, finish_stream, run_ticket_stream,
}

module _ ⦃env : Env⦄ where
  -- Each way for the stream to end gives a status that a running run can move to.
  ending_lem :
      (l : Locals) (x : Result (Unit {0})) → validate_transition running (ending l x).status ≡ ok tt
  unfolding ending validate_transition
  ending_lem l (ok u) = refl
  ending_lem l (err (policy_approval_required m)) = refl
  ending_lem l (err (cancelled_error m)) = refl
  ending_lem l (err e) = refl

  module _ (p r : String) where
    -- The ticket's run is still begun.
    record Stays {A : Type 0} (m : Exec Site A) : Type 0 where
      pub at : (s : Site) → Holds p r Begun s.world.storage → Holds p r Begun (m s).1.world.storage

    Stays-pure : {A : Type 0} (a : A) → Stays (pure a)
    Stays-pure a = record { at = λ s h. h }

    Stays-raise : {A : Type 0} (e : Error) → Stays {A = A} (raise e)
    Stays-raise e = record { at = λ s h. h }

    Stays-measure : (f : MetricsCollector → MetricsCollector) → Stays (measure f)
    Stays-measure f = record { at = λ s h. h }

    Stays-on_site : {A : Type 0} (m : Action A) → Keeps ns_run m → Stays (on_site m)
    unfolding on_site
    Stays-on_site m k = record { at = λ s h. (Leads-Keeps p r m k).at s.world h }

    Stays-when : (b : Bool) (m : Exec Site (Unit {0})) → Stays m → Stays (when b m)
    Stays-when true m h = h
    Stays-when false m h = record { at = λ s x. x }

    continue-Stays :
        {A B : Type 0} (x : Result A × Site) (f : A → Exec Site B)
        → Holds p r Begun x.1.world.storage
        → ((a : A) → Stays (f a))
        → Holds p r Begun (continue x f).1.world.storage
    continue-Stays (ok a, s) f h k = (k a).at s h
    continue-Stays (err e, s) f h k = h

    Stays-bind :
        {A B : Type 0} (m : Exec Site A) (f : A → Exec Site B)
        → Stays m
        → ((a : A) → Stays (f a))
        → Stays (m >>= f)
    Stays-bind m f h k = record { at = λ s x. continue-Stays (m s) f (h.at s x) k }

    ruleset stays_rules =
        (Stays-pure, Stays-raise, Stays-measure, Stays-on_site, Stays-when, Stays-bind)

    Stays-end_stream :
        (agent_input : AgentInput) (chunks : List StreamChunk) (failure : Option Error)
        → Stays (end_stream agent_input chunks failure)
    Stays-end_stream agent_input chunks none = Stays-on_site _ (Keeps-store_stream agent_input _ _)
    Stays-end_stream agent_input chunks (some e) = Stays-raise e

    Stays-writes :
        (events : RunEventStore) (agent_input : AgentInput) (script : Script)
        → Named p r agent_input
        → Stays (on_site (engine_writes events agent_input script.writes))
    unfolding on_site
    Stays-writes events agent_input script named = record {
      at = λ s h. (Leads-engine_writes p r events agent_input script.writes named).at s.world h;
    }

    Stays-finish_engine :
        (agent_input : AgentInput) (script : Script) → Stays (finish_engine agent_input script)
    Stays-finish_engine agent_input script = search (stays_rules, Stays-end_stream)

    Stays-run_stream :
        (events : RunEventStore) (agent_input : AgentInput) (script : Script)
        → Named p r agent_input
        → Stays (run_stream events agent_input script)
    unfolding run_stream
    Stays-run_stream events agent_input script named = Stays-bind _ _ (Stays-measure _) (λ _.
        Stays-bind _ _ (Stays-writes events agent_input script named)
          (λ _. Stays-finish_engine agent_input script))

    -- The last of the `finally`
    settle_run-Settled :
        (events : RunEventStore) (id : String) (l : Locals) (x : Result (Unit {0})) (s : Site)
        → id ≡ r
        → Holds p r Begun s.world.storage
        → Holds p r Settled (settle_run events p id (ending l x) s).1.world.storage
    unfolding settle_run
    settle_run-Settled events id l x s same h =
        let e = ending l x in
        rw same (
          (transition-Settled p r e.status e.error none (some events) (ending_lem l x)).at s.world
            h)

    abbrev IsBegun : {A : Type 0} → A → Site → Type 0
    IsBegun a s = Holds p r Begun s.world.storage

    abbrev IsSettled : {A : Type 0} → A → Site → Type 0
    IsSettled a s = Holds p r Settled s.world.storage

    module _ (config : Config) where
      -- The stream, and the `finally` behind it
      streamed-Settled :
          (payload : TicketInput) (script : Script) (begun : InvestigationRun × AgentInput)
          (s : Site)
          → begun.0.run_id ≡ r
          → Named p r begun.1
          → Holds p r Begun s.world.storage
          → Returns IsSettled (
              (attempt_stream config.run_events begun.1 script
                  >>= finish_stream config p script begun)
                s)
      streamed-Settled payload script begun s same named h =
          let (x, s') = run_stream config.run_events begun.1 script s in
          let l = heard (fresh_locals begun.1) script.chunks in
          let settled = settle_run config.run_events p begun.0.run_id (ending l x) s' in
          continue-Returns (λ (u : Unit {0}). IsSettled u) IsSettled settled _
            (Returns-state (λ (s3 : Site). Holds p r Settled s3.world.storage) settled
              (settle_run-Settled config.run_events begun.0.run_id l x s' same
                ((Stays-run_stream config.run_events begun.1 script named).at s h)))
            (λ v s3 c. c)

      begun-Settled :
          (payload : TicketInput) (script : Script) (begun : InvestigationRun × AgentInput)
          (s : Site)
          → Started p r begun s.world
          → Returns IsSettled (stream_begun config payload p script begun s)
      begun-Settled payload script begun s h =
          let doc = ticket_doc config payload begun.0.run_id in
          let first = on_site (on_storage (λ st. set_json st ns_tickets payload.ticket_id doc)) in
          continue-Returns (λ (u : Unit {0}). IsBegun u) IsSettled (first s) _
            (Returns-state (λ (s' : Site). Holds p r Begun s'.world.storage) (first s)
              ((Stays-on_site _ (Keeps-ticket payload.ticket_id doc)).at s h.2))
            (λ u s' b. streamed-Settled payload script begun s' h.0 h.1 b)

module _ ⦃env : Env⦄ (config : Config) where
  -- The identifier that is drawn next, behind the question for the run's owner
  abbrev pub drawn : Option String → Site → String
  drawn uid s = env.uuid4_hex (run_uid config uid s).1.world.uuids

  -- An action's end, seen from the site
  Returns-on_site :
      {A : Type 0} (Q : A → World → Type 0) (x : Result A × World) (s : Site)
      → Returns Q x
      → Returns (λ a (t : Site). Q a t.world) (x.0, record s { world = x.1 })
  Returns-on_site Q (ok a, w) s h = h
  Returns-on_site Q (err e, w) s h = tt

  -- From the question for the owner on
  owned-Settled :
      (payload : TicketInput) (p : String) (uid job_id : Option String) (script : Script) (s : Site)
      → Returns (IsSettled p (drawn uid s)) (stream_owned config payload p uid job_id script s)
  unfolding stream_owned on_site
  owned-Settled payload p uid job_id script s =
      let r = drawn uid s in
      continue-Returns (λ owner (t : Site). t ≡ (run_uid config uid s).1) (IsSettled p r)
        (run_uid config uid s) _
        (Returns-state (λ (t : Site). t ≡ (run_uid config uid s).1) (run_uid config uid s) refl)
        (λ owner t at.
          let source = if is_given job_id then ingress else ticket in
          let begun =
            begin_investigation_run config.run_events p owner source (ticket_input config payload)
              none job_id (some payload.ticket_id) t.world in
          continue-Returns (λ begun (t' : Site). Started p r begun t'.world) (IsSettled p r)
            (begun.0, record t { world = begun.1 }) _
            (Returns-on_site (Started p r) begun t (
              subst (λ (x : Site). Returns (Started p (env.uuid4_hex x.world.uuids)) begun) at
                (begin_investigation_run-Begun config.run_events p owner source
                  (ticket_input config payload) none job_id (some payload.ticket_id) t.world)))
            (λ begun t' h. begun-Settled p r config payload script begun t' h))

  stream-Settled :
      (payload : TicketInput) (p : String) (uid job_id : Option String) (script : Script) (s : Site)
      → Returns (IsSettled p (drawn uid s)) (run_ticket_stream config payload p uid job_id script s)
  unfolding run_ticket_stream
  stream-Settled payload p uid job_id script s = elim (Bool-cases config.llm_configured) [
    | inr e ↦ rw e tt
    | inl e ↦ rw e (
        continue-Returns (λ u (t : Site). t ≡ s) (IsSettled p (drawn uid s)) (script.runtime, s) _
          (Returns-state (λ (t : Site). t ≡ s) (script.runtime, s) refl)
          (λ u t at.
            subst
              (λ (x : Site).
                Returns (IsSettled p (drawn uid s))
                  (stream_owned config payload p uid job_id script x))
              (sym at) (owned-Settled payload p uid job_id script s)))
  ]

  -- When `run_ticket_stream` comes to its end, with what it yielded and the exception that it perhaps raises
  -- again, the run that it began, under the identifier that was drawn next once the owner was known, is
  -- stored as over or as waiting for the operator, whatever the engine wrote, yielded and raised.
  pub run_ticket_stream-Settled :
      (payload : TicketInput) (p : String) (uid job_id : Option String) (script : Script)
      (s s' : Site) (yielded : List StreamChunk) (again : Option Error)
      → run_ticket_stream config payload p uid job_id script s ≡ (ok (yielded, again), s')
      → Holds p (drawn uid s) Settled s'.world.storage
  run_ticket_stream-Settled payload p uid job_id script s s' yielded again h =
      subst (Returns (IsSettled p (drawn uid s))) h (stream-Settled payload p uid job_id script s)

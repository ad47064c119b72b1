-- ===== src/Ingress/Queue/Settled.antt =====
-- A job that a worker has processed is finished or failed.
use deepticket.Prelude.{
  ℕ, suc, String, ◌≡◌, refl, sym, ◌∙◌, subst, ◌⊎◌, Bool, true, false, Option, none, some, inl, inr,
  List, ◌==◌, eq_refl, Option-cases,
}
use deepticket.Json.{Value, str, Fields, end, field, get, get-put}
use deepticket.Env.{Env}
use deepticket.Exec.{
  Error, cancelled_error, Result, ok, err, Exec, pure, lift, when, continue, ◌>>=◌,
}
use deepticket.Storage.Local.{get_json, set_json}
use deepticket.Storage.Laws.{get_json-set_json, get_json-zadd}
use deepticket.Storage.Index.{
  index_member, score_or_now, score_of_value, score_of_doc, score_from_doc, index_json_key,
}
use deepticket.World.{World}
use deepticket.Output.Chunks.{StreamChunk}
use deepticket.Observability.Metrics.{MetricsCollector, record_ingress_job, record_webhook}
use deepticket.Input.Routing.{RouteConfig}
use deepticket.Input.Classifier.{IngressEvent}
use deepticket.Orchestrator.Streams.{Site, on_site, measure}
use deepticket.Ingress.Jobs.{
  ns_ingress, or_empty, set_default, persist_job, failed_doc, with_event, mark_failed,
}
use deepticket.Ingress.Outbound.{OutboundResult}
use deepticket.Ingress.Runner.{
  RunnerConfig, route_of, Outside, QueueItem, IngressJobResult, Answer, persisted_doc, updated_doc,
  extensions_of, answered, answer, begin_job, method_of, deliver, store_result, run_event,
}
use deepticket.Ingress.Queue.{handled, process_item}

abbrev pub IsFinal : String → Type 0
IsFinal status = (status ≡ "finished") ⊎ (status ≡ "failed")

-- The job's document says that the job is finished or failed.
pub record JobDone (job_id : String) (s : Site) : Type 0 where
  pub doc : Fields
  pub at : get_json s.world.storage ns_ingress job_id ≡ some doc
  pub status : String
  pub has_status : get doc "status" ≡ some (str status)
  pub final : IsFinal status

module _ ⦃env : Env⦄ where
  score_or_now_lem :
      (o : Option ℕ) (w : World)
      → (n : ℕ) × (ticks : ℕ) × (score_or_now o w ≡ (ok n, record w { ticks = ticks }))
  score_or_now_lem none w = (_, _, refl)
  score_or_now_lem (some n) w = (n, w.ticks, refl)

  score_of_doc_lem :
      (d : Fields) (k : String) (w : World)
      → (n : ℕ) × (ticks : ℕ) × (score_of_doc d k w ≡ (ok n, record w { ticks = ticks }))
  unfolding score_from_doc
  score_of_doc_lem end k w = (_, _, refl)
  score_of_doc_lem (field j v d) k w = score_or_now_lem (score_of_value (get (field j v d) k)) w

  persist_job_lem :
      (job_id : String) (doc : Fields) (w : World)
      → (index_member == job_id) ≡ false
      → get_json (persist_job job_id doc w).1.storage ns_ingress job_id ≡ some doc
  unfolding persist_job index_json_key
  persist_job_lem job_id doc w h =
      let w' = record w { storage = set_json w.storage ns_ingress job_id doc } in
      let (n, ticks, e) = score_of_doc_lem doc "updated_at" w' in
      rw e (simp (get_json-zadd, get_json-set_json, eq_refl, h))

  persisted-status :
      (r : IngressJobResult) (route_type now : String)
      → get (persisted_doc r route_type now) "status" ≡ some (str r.status)
  unfolding persisted_doc get
  persisted-status r route_type now = refl

  set_default-status :
      (d : Fields) (k : String) (v : Value)
      → (k == "status") ≡ false
      → get (set_default d k v) "status" ≡ get d "status"
  unfolding set_default
  set_default-status d k v h = elim (Option-cases (get d k)) [
    | inl e ↦ rw (e, set_default) (get-put d k "status" v ∙ simp h)
    | inr (w, e) ↦ rw (e, set_default) refl
  ]

  with_event-status :
      (event : IngressEvent) (d : Fields) → get (with_event event d) "status" ≡ get d "status"
  unfolding with_event
  with_event-status event d = simp (set_default-status)

  failed_doc-status :
      (d : Fields) (job_id error : String)
      → get (failed_doc d job_id error) "status" ≡ some (str "failed")
  unfolding failed_doc
  failed_doc-status d job_id error = simp get-put

  -- A property of the value, where there is one
  abbrev ValueHas : {A : Type 0} → (A → Type 0) → Result A → Type 0
  ValueHas V (ok a) = V a
  ValueHas V (err e) = Unit

  answered-IsFinal :
      (r : Result (List StreamChunk × Option Error)) → ValueHas (λ a. IsFinal a.status) (answered r)
  answered-IsFinal (ok (chunks, none)) = inl refl
  answered-IsFinal (ok (chunks, some (cancelled_error m))) = tt
  answered-IsFinal (ok (chunks, some e)) = inr refl
  answered-IsFinal (err (cancelled_error m)) = tt
  answered-IsFinal (err e) = inr refl

  any_value : {A : Type 0} (r : Result A) → ValueHas (λ (a : A). Unit {0}) r
  any_value (ok a) = tt
  any_value (err e) = tt

  abbrev Values : {A : Type 0} → (A → Type 0) → Exec Site A → Type 0
  Values V m = (s : Site) → ValueHas V (m s).0

  continue-Values :
      {A B : Type 0} (V : B → Type 0) (x : Result A × Site) (f : A → Exec Site B)
      → ((a : A) → Values V (f a))
      → ValueHas V (continue x f).0
  continue-Values V (ok a, s) f h = h a s
  continue-Values V (err e, s) f h = tt

  begin_job-same :
      (config : RunnerConfig) (job_id : String) (event : IngressEvent) (route : RouteConfig)
      → Values
          (λ (begun : String × Value). begun.0 ≡ job_id)
          (begin_job config (some job_id) event route)
  unfolding begin_job on_site
  begin_job-same config job_id event route s =
      let doc =
        updated_doc (or_empty (get_json s.world.storage ns_ingress job_id)) job_id event route in
      continue-Values (λ (begun : String × Value). begun.0 ≡ job_id)
        (on_site (persist_job job_id doc) s) (λ u. pure (job_id, extensions_of doc event))
        (λ u s'. refl)

  module _ (job_id : String) (apart : (index_member == job_id) ≡ false) where
    abbrev pub Left : {A : Type 0} → Result A → Site → Type 0
    Left (ok a) s = JobDone job_id s
    Left (err e) s = Unit

    record Leaves {A : Type 0} (m : Exec Site A) : Type 0 where
      pub at : (s : Site) → Left (m s).0 (m s).1

    continue-Leaves :
        {A B : Type 0} (V : A → Type 0) (x : Result A × Site) (f : A → Exec Site B)
        → ValueHas V x.0
        → ((a : A) → V a → Leaves (f a))
        → Left (continue x f).0 (continue x f).1
    continue-Leaves V (ok a, s) f h k = (k a h).at s
    continue-Leaves V (err e, s) f h k = tt

    Leaves-bind :
        {A B : Type 0} (V : A → Type 0) (m : Exec Site A) (f : A → Exec Site B)
        → ((s : Site) → ValueHas V (m s).0)
        → ((a : A) → V a → Leaves (f a))
        → Leaves (m >>= f)
    Leaves-bind V m f h k = record { at = λ s. continue-Leaves V (m s) f (h s) k }

    -- What does not touch the stores leaves the job as it is.
    record Quiet {A : Type 0} (m : Exec Site A) : Type 0 where
      pub at : (s : Site) → JobDone job_id s → JobDone job_id (m s).1

    Quiet-measure : (f : MetricsCollector → MetricsCollector) → Quiet (measure f)
    Quiet-measure f = record {
      at = λ s h. record {
        doc = h.doc;
        at = h.at;
        status = h.status;
        has_status = h.has_status;
        final = h.final;
      };
    }

    Quiet-when : (b : Bool) (m : Exec Site (Unit {0})) → Quiet m → Quiet (when b m)
    Quiet-when true m h = h
    Quiet-when false m h = record { at = λ s x. x }

    continue-Quiet :
        {A B : Type 0} (x : Result A × Site) (f : A → Exec Site B)
        → JobDone job_id x.1
        → ((a : A) → Quiet (f a))
        → JobDone job_id (continue x f).1
    continue-Quiet (ok a, s) f h k = (k a).at s h
    continue-Quiet (err e, s) f h k = h

    Quiet-bind :
        {A B : Type 0} (m : Exec Site A) (f : A → Exec Site B)
        → Quiet m
        → ((a : A) → Quiet (f a))
        → Quiet (m >>= f)
    Quiet-bind m f h k = record { at = λ s x. continue-Quiet (m s) f (h.at s x) k }

    persisted-JobDone :
        (doc : Fields) (status : String) (s : Site)
        → get doc "status" ≡ some (str status)
        → IsFinal status
        → JobDone job_id (on_site (persist_job job_id doc) s).1
    unfolding on_site
    persisted-JobDone doc status s h final = record {
      doc = doc;
      at = persist_job_lem job_id doc s.world apart;
      status = status;
      has_status = h;
      final = final;
    }

    done_or_raised :
        {A : Type 0} (a : A) (x : Result (Unit {0}) × Site)
        → JobDone job_id x.1
        → Left (continue x (λ u. pure a)).0 (continue x (λ u. pure a)).1
    done_or_raised a (ok u, s) h = h
    done_or_raised a (err e, s) h = tt

    module _ (config : RunnerConfig) where
      store_result-JobDone :
          (result : IngressJobResult) (route_type : String) (s : Site)
          → result.job_id ≡ job_id
          → IsFinal result.status
          → JobDone job_id (store_result config result route_type s).1
      unfolding store_result on_site
      store_result-JobDone result route_type s same final =
          let now = env.utc_now_iso s.world.ticks in
          let doc = persisted_doc result route_type now in
          let s' : Site = record s { world = record s.world { ticks = suc s.world.ticks } } in
          continue-Quiet (on_site (persist_job result.job_id doc) s') _
            (subst (λ i. JobDone job_id (on_site (persist_job i doc) s').1) (sym same)
              (persisted-JobDone doc result.status s' (persisted-status result route_type now)
                final))
            (λ u.
              Quiet-bind _ _ (Quiet-measure (record_ingress_job (result.status == "finished")))
                (λ v.
                  Quiet-when (result.outbound_method == "webhook") _
                    (Quiet-measure (record_webhook result.outbound_ok))))

      run_event-Leaves :
          (event : IngressEvent) (outside : Outside)
          → Leaves (run_event config event (some job_id) outside)
      unfolding run_event answer
      run_event-Leaves event outside =
          Leaves-bind (λ (route : RouteConfig). Unit {0}) (route_of config event) _
            (λ s. any_value _)
            (λ route u.
              Leaves-bind (λ (begun : String × Value). begun.0 ≡ job_id)
                (begin_job config (some job_id) event route) _
                (begin_job-same config job_id event route)
                (λ begun same.
                  Leaves-bind (λ (a : Answer). IsFinal a.status)
                    (answer config begun.0 event outside.script) _ (λ s. answered-IsFinal _)
                    (λ a final.
                      Leaves-bind (λ (sent : OutboundResult). Unit {0})
                        (lift (deliver (method_of route) outside)) _ (λ s. any_value _)
                        (λ sent u. record {
                          at = λ s.
                              done_or_raised _ _ (store_result-JobDone _ route.type s same final);
                        }))))

      mark_failed-JobDone :
          (error : String) (event : IngressEvent) (s : Site)
          → JobDone job_id (mark_failed job_id error (some event) s).1
      unfolding mark_failed on_site
      mark_failed-JobDone error event s =
          let existing = or_empty (get_json s.world.storage ns_ingress job_id) in
          let doc = with_event event (failed_doc existing job_id error) in
          continue-Quiet (on_site (persist_job job_id doc) s) _
            (persisted-JobDone doc "failed" s
              (with_event-status event _ ∙ failed_doc-status existing job_id error) (inr refl))
            (λ u. Quiet-measure (record_ingress_job false))

      handled-JobDone :
          {A : Type 0} (event : IngressEvent) (x : Result A × Site)
          → Left x.0 x.1
          → let y = handled config (record { job_id = job_id; event = event }) x in Left y.0 y.1
      handled-JobDone event (ok a, s) h = h
      handled-JobDone event (err (cancelled_error m), s) h = tt
      handled-JobDone event (err e, s) h = mark_failed-JobDone _ event s

  -- When a worker has processed an item and goes on, the item's job is stored as finished or as failed,
  -- whatever the engine and the webhook did, if the job's identifier is not that of the index.
  pub process_item-JobDone :
      (config : RunnerConfig) (item : QueueItem) (outside : Outside) (s s' : Site)
      → (index_member == item.job_id) ≡ false
      → process_item config item outside s ≡ (ok tt, s')
      → JobDone item.job_id s'
  unfolding process_item
  process_item-JobDone config item outside s s' apart h =
      let y = process_item config item outside s in
      let left =
        handled-JobDone item.job_id apart config item.event _
          ((run_event-Leaves item.job_id apart config item.event outside).at s) in
      subst (λ (x : Result (Unit {0}) × Site). Left item.job_id apart x.0 x.1) h left

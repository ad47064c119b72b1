-- ===== src/Ingress/Runner.antt =====
-- `IngressRunner`: an event becomes a job, the job is run, and its result is sent out and stored.
use deepticket.Prelude.{
  String, Bool, false, not, Option, none, some, List, [], ◌∷◌, any, ◌==◌, if◌then◌else◌,
}
use deepticket.Prelude.Text.{◌<>◌}
use deepticket.Json.{
  Value, null, bool, str, dict, Fields, get, put, dict_of, or_default, str_or_null,
}
use deepticket.Env.{Env, str_of}
use deepticket.Exec.{
  Error, key_error, value_error, runtime_error, cancelled_error, Exec, Result, ok, err, pure, raise,
  lift, gets, when, ◌>>=◌, ◌>>◌,
}
use deepticket.Storage.Local.{get_json}
use deepticket.World.{uuid4, utc_now_iso}
use deepticket.Observability.Metrics.{record_ingress_job, record_webhook}
use deepticket.Input.Routing.{RouteConfig, RoutingConfig}
use deepticket.Input.Classifier.{IngressEvent, classify_ingress_event}
use deepticket.Output.Chunks.{StreamChunk}
use deepticket.ChatRuns.State.{error_message}
use deepticket.Orchestrator.Streams.{
  Script, Site, Config, TicketInput, on_site, measure, run_ticket_stream,
}
use deepticket.Ingress.Outbound.{OutboundResult, Webhook, store_only, webhook}
use deepticket.Ingress.Pipeline.{collect_stream_text}
use deepticket.Ingress.Jobs.{ns_ingress, or_empty, persist_job}

pub record IngressJobResult : Type 0 where
  pub job_id : String
  pub status : String
  pub source : String
  pub project_id : String
  pub external_id : String
  pub reply : String
  pub extensions : Value
  pub error : Option String
  pub outbound_method : String
  pub outbound_ok : Bool
  pub outbound_detail : String

-- What the runner reads of the configuration, beside that of the orchestrator: the routes, the enabled
-- projects, and the bound methods of the queue.
pub record RunnerConfig : Type 0 where
  pub service : Config
  pub routing : RoutingConfig
  pub projects : List String

-- What the libraries do for one job: the engine's stream, and the webhook.
pub record Outside : Type 0 where
  pub script : Script
  pub webhook : Webhook

pub record QueueItem : Type 0 where
  pub job_id : String
  pub event : IngressEvent

-- What of the ticket is read behind the making of its prompt
unfoldable pub to_ticket : IngressEvent → TicketInput
to_ticket event = record { ticket_id = event.external_id; title = ""; repo_ids = [] }

-- The reply of a job's stream with its status and error; a cancellation is no `Exception`.
pub record Answer : Type 0 where
  pub status : String
  pub reply : String
  pub error : Option String

-- `asdict(result)` with the type of the route and the time
unfoldable pub persisted_doc : IngressJobResult → String → String → Fields
persisted_doc r route_type now = dict_of (
    ("job_id", str r.job_id)
    ∷ ("status", str r.status)
    ∷ ("source", str r.source)
    ∷ ("project_id", str r.project_id)
    ∷ ("external_id", str r.external_id)
    ∷ ("reply", str r.reply)
    ∷ ("extensions", r.extensions)
    ∷ ("error", str_or_null r.error)
    ∷ ("outbound_method", str r.outbound_method)
    ∷ ("outbound_ok", bool r.outbound_ok)
    ∷ ("outbound_detail", str r.outbound_detail)
    ∷ ("route_type", str route_type)
    ∷ ("updated_at", str now)
    ∷ [])

module _ ⦃env : Env⦄ where
  -- `get_outbound_handler(method)` and its `deliver`
  unfoldable pub deliver : String → Outside → Result OutboundResult
  deliver method outside =
      if method == "store_only"
      then ok store_only
      else if method == "webhook"
      then webhook outside.webhook
      else err (value_error ("未知 outbound method: " <> method))

  -- `route.outbound.method`
  abbrev pub method_of : RouteConfig → String
  method_of route = str_of (or_default (get route.outbound "method") (str "store_only"))

  abbrev pub running_doc : String → IngressEvent → RouteConfig → Fields
  running_doc job_id event route = dict_of (
      ("job_id", str job_id)
      ∷ ("route_type", str route.type)
      ∷ ("source", str event.source)
      ∷ ("project_id", str event.project_id)
      ∷ ("external_id", str event.external_id)
      ∷ ("status", str "running")
      ∷ ("reply", str "")
      ∷ ("extensions", dict event.extensions)
      ∷ ("error", null)
      ∷ [])

  -- `existing.get("extensions") or extensions`
  abbrev pub extensions_of : Fields → IngressEvent → Value
  extensions_of existing event = or_default (get existing "extensions") (dict event.extensions)

  -- `existing.update({...})`
  unfoldable pub updated_doc : Fields → String → IngressEvent → RouteConfig → Fields
  updated_doc existing job_id event route =
      put
        (put
          (put
            (put
              (put
                (put (put (put existing "job_id" (str job_id)) "route_type" (str route.type))
                  "source" (str event.source))
                "project_id" (str event.project_id))
              "external_id" (str event.external_id))
            "status" (str "running"))
          "extensions" (extensions_of existing event))
        "error" null

  abbrev pub answered : Result (List StreamChunk × Option Error) → Result Answer
  answered (ok (chunks, none)) =
      ok (record { status = "finished"; reply = (collect_stream_text chunks).0; error = none })
  answered (ok (chunks, some (cancelled_error m))) = err (cancelled_error m)
  answered (ok (chunks, some e)) =
      ok (record { status = "failed"; reply = ""; error = some (error_message e) })
  answered (err (cancelled_error m)) = err (cancelled_error m)
  answered (err e) = ok (record { status = "failed"; reply = ""; error = some (error_message e) })

  module _ (config : RunnerConfig) where
    -- `self._service.projects.require(project_id)`
    abbrev pub require_project : String → Exec Site (Unit {0})
    require_project project_id =
        if any (λ p. p == project_id) config.projects
        then pure tt
        else raise (key_error ("项目不存在或已禁用: " <> project_id))

    abbrev pub route_of : IngressEvent → Exec Site RouteConfig
    route_of event = lift (classify_ingress_event env.lower event config.routing)

    unfoldable pub submit : IngressEvent → Exec Site (IngressJobResult × QueueItem)
    submit event = do
      when (not config.service.llm_configured)
          (raise (runtime_error "LLM 未配置：请管理员在工作台侧栏「LLM 配置」填写 API Key"))
      require_project event.project_id
      route ← route_of event
      job_id ← on_site uuid4
      now ← on_site utc_now_iso
      let queued : IngressJobResult = record {
        job_id = job_id;
        status = "queued";
        source = event.source;
        project_id = event.project_id;
        external_id = event.external_id;
        reply = "";
        extensions = dict event.extensions;
        error = none;
        outbound_method = method_of route;
        outbound_ok = false;
        outbound_detail = "已入队，等待处理";
      }
      on_site (persist_job job_id (persisted_doc queued route.type now))
      pure (queued, record { job_id = job_id; event = event })

    -- The document of a running job: a new one, or the stored one brought up to date
    unfoldable pub begin_job :
        Option String → IngressEvent → RouteConfig → Exec Site (String × Value)
    begin_job none event route = do
      job_id ← on_site uuid4
      on_site (persist_job job_id (running_doc job_id event route))
      pure (job_id, dict event.extensions)
    begin_job (some job_id) event route = do
      existing ← on_site (gets (λ w. or_empty (get_json w.storage ns_ingress job_id)))
      let doc = updated_doc existing job_id event route
      on_site (persist_job job_id doc)
      pure (job_id, extensions_of doc event)

    -- The `try` around the project and the stream
    unfoldable pub answer : String → IngressEvent → Script → Exec Site Answer
    answer job_id event script s =
        let (r, s') =
          (require_project event.project_id
              >> run_ticket_stream config.service (to_ticket event) event.project_id none
                  (some job_id) script)
            s in
        (answered r, s')

    unfoldable pub store_result : IngressJobResult → String → Exec Site (Unit {0})
    store_result result route_type = do
      now ← on_site utc_now_iso
      on_site (persist_job result.job_id (persisted_doc result route_type now))
      measure (record_ingress_job (result.status == "finished"))
      when (result.outbound_method == "webhook") (measure (record_webhook result.outbound_ok))

    unfoldable pub run_event : IngressEvent → Option String → Outside → Exec Site IngressJobResult
    run_event event given_id outside = do
      route ← route_of event
      begun ← begin_job given_id event route
      answer' ← answer begun.0 event outside.script
      sent ← lift (deliver (method_of route) outside)
      let result : IngressJobResult = record {
        job_id = begun.0;
        status = answer'.status;
        source = event.source;
        project_id = event.project_id;
        external_id = event.external_id;
        reply = answer'.reply;
        extensions = begun.1;
        error = answer'.error;
        outbound_method = method_of route;
        outbound_ok = sent.ok;
        outbound_detail = sent.detail;
      }
      store_result result route.type
      pure result

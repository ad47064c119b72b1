-- ===== src/Ingress/Jobs.antt =====
-- deepticket/ingress_runner.py: the documents of the jobs, and what is read of them.
use deepticket.Prelude.{ℕ, String, false, Option, none, some, List, [], ◌∷◌}
use deepticket.Prelude.Text.{clip}
use deepticket.Json.{Value, null, bool, str, dict, Fields, end, get, put, or_default}
use deepticket.Env.{Env, str_of}
use deepticket.Exec.{Exec, gets, ◌>>=◌, ◌>>◌}
use deepticket.Storage.Local.{Storage, get_json, set_json}
use deepticket.Storage.Index.{index_json_key, list_indexed_json_keys, count_indexed_keys}
use deepticket.World.{Action, on_storage}
use deepticket.Auth.Users.{given}
use deepticket.Observability.Metrics.{record_ingress_job}
use deepticket.Input.Classifier.{IngressEvent}
use deepticket.Usage.Conversations.{get_or}
use deepticket.Orchestrator.Streams.{Site, on_site, measure}

abbrev pub ns_ingress : String
ns_ingress = "ingress_jobs"

-- One job of `list_recent_jobs`
pub record JobSummary : Type 0 where
  pub job_id : Value
  pub status : Value
  pub source : Value
  pub project_id : Value
  pub external_id : Value
  pub route_type : Value
  pub outbound_method : Value
  pub outbound_ok : Value
  pub outbound_detail : String

-- `doc.setdefault(k, v)`
unfoldable pub set_default : Fields → String → Value → Fields
set_default d k v = elim (get d k) [ none ↦ put d k v | some w ↦ d ]

abbrev pub or_empty : Option Fields → Fields
or_empty none = end
or_empty (some d) = d

module _ ⦃env : Env⦄ where
  unfoldable pub persist_job : String → Fields → Action (Unit {0})
  persist_job job_id doc = do
    on_storage (λ s. set_json s ns_ingress job_id doc)
    index_json_key ns_ingress job_id "updated_at" doc

  abbrev pub summary_of : String → Fields → JobSummary
  summary_of key doc = record {
    job_id = get_or doc "job_id" (str key);
    status = get_or doc "status" (str "unknown");
    source = get_or doc "source" (str "");
    project_id = get_or doc "project_id" (str "");
    external_id = get_or doc "external_id" (str "");
    route_type = get_or doc "route_type" (str "");
    outbound_method = get_or doc "outbound_method" (str "");
    outbound_ok = get_or doc "outbound_ok" null;
    outbound_detail = clip 120 (str_of (or_default (get doc "outbound_detail") (str "")));
  }

  -- Documents that are missing or empty are left out.
  abbrev pub with_summary : String → Option Fields → List JobSummary → List JobSummary
  with_summary key none rest = rest
  with_summary key (some doc) rest = summary_of key doc ∷ rest

  abbrev pub summaries : Storage → List String → List JobSummary
  summaries s [] = []
  summaries s (key ∷ keys) = with_summary key (given (get_json s ns_ingress key)) (summaries s keys)

  unfoldable pub list_recent_jobs : ℕ → Action (List JobSummary)
  list_recent_jobs limit = do
    keys ← list_indexed_json_keys ns_ingress limit "updated_at"
    gets (λ w. summaries w.storage keys)

  unfoldable pub get_job : String → Action (Option Fields)
  get_job job_id = gets (λ w. get_json w.storage ns_ingress job_id)

  unfoldable pub job_count : Action ℕ
  job_count = gets (λ w. count_indexed_keys w.storage ns_ingress)

  -- The document that `mark_failed` makes of the one that is there
  unfoldable pub failed_doc : Fields → String → String → Fields
  failed_doc existing job_id error =
      put
        (put
          (put
            (put (put (put existing "job_id" (str job_id)) "status" (str "failed")) "reply"
              (or_default (get existing "reply") (str "")))
            "error" (str error))
          "outbound_ok" (bool false))
        "outbound_detail" (str (clip 500 error))

  unfoldable pub with_event : IngressEvent → Fields → Fields
  unfolding set_default
  with_event event doc =
      set_default
        (set_default
          (set_default (set_default doc "source" (str event.source)) "project_id"
            (str event.project_id))
          "external_id" (str event.external_id))
        "extensions" (dict event.extensions)

  abbrev pub maybe_with_event : Option IngressEvent → Fields → Fields
  maybe_with_event none doc = doc
  maybe_with_event (some event) doc = with_event event doc

  unfoldable pub mark_failed : String → String → Option IngressEvent → Exec Site (Unit {0})
  mark_failed job_id error event = do
    existing ← on_site (gets (λ w. or_empty (get_json w.storage ns_ingress job_id)))
    on_site (persist_job job_id (maybe_with_event event (failed_doc existing job_id error)))
    measure (record_ingress_job false)

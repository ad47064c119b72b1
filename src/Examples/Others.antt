-- ===== src/Examples/Others.antt =====
-- The storage, events, confidence, metrics and routes.
use deepticket.Prelude.{
  ℕ, String, Bool, Option, none, some, ◌≡◌, refl, inl, inr, List, [], ◌∷◌, true, false, ◌==◌, ◌≤◌,
  ◌<◌, ◌↔◌, ◌⊎◌, ◌+◌, arith, max, min, length, All,
}
use deepticket.Prelude.Int.{ℤ, pos, negsuc}
use deepticket.Json.{Fields, end, field, str, num, dict_of}
use deepticket.Exec.{ok}
use deepticket.Storage.Local.{Storage, empty, get_json, set_json, zadd, counter, incr}
use deepticket.Storage.Laws.{counter-incr}
use deepticket.Investigation.Events.{
  list_events, event_key, ns_run_event, ns_run_events, run_index_key,
}
use deepticket.Investigation.Events.Listing.{IsLater, list_events-IsLater}
use deepticket.Output.Confidence.{
  Confidence, compute_confidence, is_confidence_applicable, score_of,
}
use deepticket.Output.Confidence.Scores.{
  NoAnalysis, score_of_monotone, compute_confidence-none, compute_confidence-bounds,
}
use deepticket.Observability.Metrics.{fresh}
use deepticket.Observability.Metrics.Counts.{
  MetricCall, depth, started, finished, webhook, job, apply_all, Counted, apply_all-Counted,
}
use deepticket.Input.Routing.{RouteConfig}
use deepticket.Input.Classifier.{IngressEvent, classify_ingress_event}
use deepticket.Input.Classifier.First.{IsFirst, NoneOf, Hit, Fallback, classify-IsFirst}
use deepticket.Projects.Permissions.{ProjectMemberRecord, list_members, set_members}
use deepticket.Projects.Permissions.Members.{list_members-set_members}
use deepticket.Examples.Fixtures.{python, world_of}

abbrev second : Fields
second = dict_of (("event_id", str "e2") ∷ ("seq", num 2) ∷ [])

abbrev with_event : Storage
with_event =
    zadd (set_json empty ns_run_event (event_key "p" "e2") second) ns_run_events
      (run_index_key "p" "r") (("e2", 2) ∷ [])

list_events-IsLater_example :
    (length (second ∷ []) ≤ max 1 (min 10 500)) × All (IsLater 1) (second ∷ [])
unfolding list_events deepticket.Storage.Local.zrange zadd set_json empty get_json
    deepticket.Investigation.Models.count_at deepticket.Json.get
list_events-IsLater_example =
    list_events-IsLater "p" "r" 1 10 (world_of with_event) (second ∷ []) refl

counter-incr_example :
    (incr (set_json empty "seq" "k" (dict_of (("value", num 4) ∷ []))) "seq" "k" 1 ≡ (
      some 5,
      set_json
          (set_json empty "seq" "k" (dict_of (("value", num 4) ∷ [])))
          "seq"
          "k"
          (dict_of (("value", num 5) ∷ [])),
    ))
    × (counter
          (incr (set_json empty "seq" "k" (dict_of (("value", num 4) ∷ []))) "seq" "k" 1).1
          "seq"
          "k"
        ≡ some 5)
unfolding counter deepticket.Json.get get_json set_json empty
counter-incr_example =
    counter-incr (set_json empty "seq" "k" (dict_of (("value", num 4) ∷ []))) "seq" "k" 1 4 refl

score_of_monotone_example : score_of 0 false 1 false 40 ≤ score_of 2 true 1 true 40
score_of_monotone_example =
    score_of_monotone 0 2 false true 1 1 false true 40 (omega arith) (λ h. refl) (omega arith)
      (λ h. refl)

abbrev activities : List Fields
activities = dict_of (("kind", str "log") ∷ []) ∷ dict_of (("text", str "hello") ∷ []) ∷ []

compute_confidence-none_example :
    (compute_confidence activities "fine" true true ≡ none)
    ↔ ((true ≡ true) × All NoAnalysis activities)
compute_confidence-none_example = compute_confidence-none activities "fine" true true

abbrev confidence : Confidence
confidence = record {
  score = 48;
  level = "low";
  label = "低";
  reasons = ("已执行 ? 步可验证操作（读代码/日志/配置等）") ∷ [];
  applicable = true;
}

compute_confidence-bounds_example :
    (confidence.score ≤ 100)
    × ((confidence.level ≡ "high") ↔ (75 ≤ confidence.score))
    × ((confidence.level ≡ "low") ↔ (confidence.score < 50))
unfolding compute_confidence score_of deepticket.Prelude.Text.strip deepticket.Prelude.Text.size
    is_confidence_applicable deepticket.Json.get deepticket.Prelude.Int.◌-ℤ◌
    deepticket.Prelude.Int.◌+ℤ◌
compute_confidence-bounds_example =
    compute_confidence-bounds activities "fine" true true confidence refl

abbrev metric_calls : List MetricCall
metric_calls =
    started
    ∷ depth 7
    ∷ finished (negsuc 4) false (pos 3)
    ∷ webhook true
    ∷ webhook false
    ∷ job true
    ∷ []

apply_all-Counted_example : Counted metric_calls (fresh 10) (apply_all metric_calls (fresh 10))
apply_all-Counted_example = apply_all-Counted metric_calls (fresh 10)

abbrev route : String → Bool → List String → RouteConfig
route name default sources = record {
  type = name;
  description = "";
  criteria = record {
    default = default;
    sources = sources;
    title_keywords = [];
    body_keywords = [];
  };
  outbound = end;
  prompt_suffix = "";
  repo_ids = [];
}

abbrev jira : RouteConfig
jira = route "jira" false ("jira" ∷ [])

abbrev fallback : RouteConfig
fallback = route "any" true []

abbrev ticket_event : IngressEvent
ticket_event = record {
  source = "jira";
  project_id = "p";
  external_id = "T-1";
  question = "why";
  extensions = end;
}

classify-IsFirst_example :
    (r : RouteConfig) × (classify_ingress_event (λ s. s) ticket_event (jira ∷ fallback ∷ []) ≡ ok r)
    × (IsFirst (Hit (λ s. s) ticket_event) r (jira ∷ fallback ∷ [])
        ⊎ (NoneOf (Hit (λ s. s) ticket_event) (jira ∷ fallback ∷ [])
            × Fallback r (jira ∷ fallback ∷ [])))
classify-IsFirst_example = classify-IsFirst (λ s. s) ticket_event jira (fallback ∷ [])

abbrev alice : ProjectMemberRecord
alice = record { uid = " u1 "; username = "alice" }

abbrev nobody : ProjectMemberRecord
nobody = record { uid = "u2"; username = " " }

list_members-set_members_example :
    list_members (set_members "p" (alice ∷ nobody ∷ []) empty).1 "p"
    ≡ ok (record { uid = "u1"; username = "alice" } ∷ [])
unfolding list_members get_json empty deepticket.Json.get deepticket.Prelude.Text.strip
list_members-set_members_example =
    list_members-set_members "p" "p" (alice ∷ nobody ∷ []) [] empty refl

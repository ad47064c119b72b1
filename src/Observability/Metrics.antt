-- ===== src/Observability/Metrics.antt =====
-- deepticket/observability/metrics.py: `MetricsCollector`. Each method holds the lock for its whole
-- body, so it is one step of the state.
pub mod Counts
use deepticket.Prelude.{
  ℕ, zero, suc, ◌+◌, ◌-◌, ◌/◌, max, String, Bool, true, false, ◌&&◌, Option, none, some, List, [],
  ◌∷◌, ◌++◌, if◌then◌else◌, ltb, leb, eqb,
}
use deepticket.Prelude.Int.{ℤ, clamp_zero}
use deepticket.Prelude.Text.{◌<>◌}
use deepticket.Json.{Fields, num, str, dict, list, null, nil, cons, Items, Value, dict_of}
use deepticket.Env.{Env, str_of}

pub record MetricsCollector : Type 0 where
  pub queue_backlog_alert : ℕ
  pub agent_runs_total : ℕ
  pub agent_runs_failed : ℕ
  pub agent_in_flight : ℕ
  pub agent_duration_ms_total : ℕ
  pub agent_duration_ms_last : ℕ
  pub agent_tokens_estimated : ℕ
  pub webhook_success_total : ℕ
  pub webhook_failure_total : ℕ
  pub ingress_jobs_finished : ℕ
  pub ingress_jobs_failed : ℕ
  pub queue_peak_pending : ℕ

abbrev pub fresh : ℕ → MetricsCollector
fresh alert = record {
  queue_backlog_alert = alert;
  agent_runs_total = 0;
  agent_runs_failed = 0;
  agent_in_flight = 0;
  agent_duration_ms_total = 0;
  agent_duration_ms_last = 0;
  agent_tokens_estimated = 0;
  webhook_success_total = 0;
  webhook_failure_total = 0;
  ingress_jobs_finished = 0;
  ingress_jobs_failed = 0;
  queue_peak_pending = 0;
}

-- A depth is a queue's length.
unfoldable pub observe_queue_depth : ℕ → MetricsCollector → MetricsCollector
observe_queue_depth pending m = record m {
  queue_peak_pending = if ltb m.queue_peak_pending pending then pending else m.queue_peak_pending;
}

unfoldable pub agent_run_started : MetricsCollector → MetricsCollector
agent_run_started m = record m { agent_in_flight = suc m.agent_in_flight }

-- `max(0, in_flight - 1)` is subtraction on naturals.
unfoldable pub agent_run_finished : ℤ → Bool → ℤ → MetricsCollector → MetricsCollector
agent_run_finished duration_ms ok tokens_estimated m = record m {
  agent_in_flight = m.agent_in_flight - 1;
  agent_runs_total = suc m.agent_runs_total;
  agent_runs_failed = if ok then m.agent_runs_failed else suc m.agent_runs_failed;
  agent_duration_ms_total = m.agent_duration_ms_total + clamp_zero duration_ms;
  agent_duration_ms_last = clamp_zero duration_ms;
  agent_tokens_estimated = m.agent_tokens_estimated + clamp_zero tokens_estimated;
}

unfoldable pub record_webhook : Bool → MetricsCollector → MetricsCollector
record_webhook ok m = record m {
  webhook_success_total = if ok then suc m.webhook_success_total else m.webhook_success_total;
  webhook_failure_total = if ok then m.webhook_failure_total else suc m.webhook_failure_total;
}

unfoldable pub record_ingress_job : Bool → MetricsCollector → MetricsCollector
record_ingress_job ok m = record m {
  ingress_jobs_finished = if ok then suc m.ingress_jobs_finished else m.ingress_jobs_finished;
  ingress_jobs_failed = if ok then m.ingress_jobs_failed else suc m.ingress_jobs_failed;
}

-- Python's arithmetic on floats, which the snapshot uses for the webhook rate: `round(a / b, 4)` in
-- ten-thousandths, and the text of the rate in percent with one decimal.
pub record Floats : Type 0 where
  pub round4 : ℕ → ℕ → ℕ
  pub percent : ℕ → String

-- The rate, in ten-thousandths; `None` where no webhook was recorded.
abbrev pub webhook_rate : Floats → MetricsCollector → Option ℕ
webhook_rate floats m =
    let total = m.webhook_success_total + m.webhook_failure_total in
    if eqb total 0 then none else some (floats.round4 m.webhook_success_total total)

abbrev pub is_low : Option ℕ → Bool
is_low none = false
is_low (some rate) = ltb rate 8000

abbrev pub percent_of : Floats → Option ℕ → String
percent_of floats none = ""
percent_of floats (some rate) = floats.percent rate

abbrev pub duration_ms_avg : MetricsCollector → ℕ
duration_ms_avg m =
    if eqb m.agent_runs_total 0 then 0 else m.agent_duration_ms_total / m.agent_runs_total

pub record Snapshot : Type 0 where
  pub collector : MetricsCollector
  pub average : ℕ
  pub success_rate : Option ℕ
  pub queue_pending : ℕ
  pub alerts : List String

module _ ⦃env : Env⦄ (floats : Floats) where
  abbrev alerts_of : ℕ → MetricsCollector → List String
  alerts_of queue_pending m =
      let total = m.webhook_success_total + m.webhook_failure_total in
      let rate = webhook_rate floats m in
      (if leb m.queue_backlog_alert queue_pending
        then ("Ingress 队列积压 "
            <> str_of (num queue_pending)
            <> "（阈值 "
            <> str_of (num m.queue_backlog_alert)
            <> "）")
          ∷ []
        else [])
      ++ (if leb (max 3 (m.queue_backlog_alert / 2)) m.agent_in_flight
          then ("Agent 并发运行 " <> str_of (num m.agent_in_flight) <> " 路") ∷ []
          else [])
      ++ (if leb 5 total && is_low rate
          then ("Webhook 成功率偏低: " <> percent_of floats rate <> "%") ∷ []
          else [])

  -- The dictionary that is returned, beside the collector after `observe_queue_depth`. Its counters are
  -- the collector's own; the time of collection is left out.
  unfoldable pub snapshot : ℕ → MetricsCollector → Snapshot × MetricsCollector
  snapshot queue_pending given =
      let m = observe_queue_depth queue_pending given in
      (
        record {
          collector = m;
          average = duration_ms_avg m;
          success_rate = webhook_rate floats m;
          queue_pending = queue_pending;
          alerts = alerts_of queue_pending m;
        },
        m,
      )

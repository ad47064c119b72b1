-- ===== src/Observability/Metrics/Counts.antt =====
-- What the counters count, over any sequence of calls.
use deepticket.Prelude.{
  ℕ, ◌+◌, ◌≤◌, ◌≡◌, max, Bool, true, false, not, List, [], ◌∷◌, if◌then◌else◌, arith,
}
use deepticket.Prelude.Int.{ℤ, clamp_zero}
use deepticket.Observability.Metrics.{
  MetricsCollector, observe_queue_depth, agent_run_started, agent_run_finished, record_webhook,
  record_ingress_job,
}

pub data MetricCall : Type 0 where
  depth : ℕ → MetricCall
  started : MetricCall
  finished : ℤ → Bool → ℤ → MetricCall
  webhook : Bool → MetricCall
  job : Bool → MetricCall

abbrev pub apply : MetricCall → MetricsCollector → MetricsCollector
apply (depth n) m = observe_queue_depth n m
apply started m = agent_run_started m
apply (finished d ok t) m = agent_run_finished d ok t m
apply (webhook ok) m = record_webhook ok m
apply (job ok) m = record_ingress_job ok m

abbrev pub apply_all : List MetricCall → MetricsCollector → MetricsCollector
apply_all [] m = m
apply_all (c ∷ cs) m = apply_all cs (apply c m)

-- Tests on calls, and what they carry.
abbrev pub is_finished : MetricCall → Bool
is_finished (finished d ok t) = true
is_finished _ = false

abbrev pub is_failure : MetricCall → Bool
is_failure (finished d ok t) = not ok
is_failure _ = false

abbrev pub is_started : MetricCall → Bool
is_started started = true
is_started _ = false

abbrev pub is_webhook : MetricCall → Bool
is_webhook (webhook ok) = true
is_webhook _ = false

abbrev pub is_job : MetricCall → Bool
is_job (job ok) = true
is_job _ = false

abbrev pub duration : MetricCall → ℕ
duration (finished d ok t) = clamp_zero d
duration _ = 0

abbrev pub deepest : MetricCall → ℕ
deepest (depth n) = n
deepest _ = 0

abbrev pub one : Bool → ℕ
one b = if b then 1 else 0

abbrev pub total : (MetricCall → ℕ) → List MetricCall → ℕ
total f [] = 0
total f (c ∷ cs) = f c + total f cs

abbrev pub largest : List MetricCall → ℕ
largest [] = 0
largest (c ∷ cs) = max (deepest c) (largest cs)

-- What the collector says after the calls, against what it said before.
pub record Counted (cs : List MetricCall) (m m' : MetricsCollector) : Type 0 where
  pub runs : m'.agent_runs_total ≡ m.agent_runs_total + total (λ c. one (is_finished c)) cs
  pub failed : m'.agent_runs_failed ≡ m.agent_runs_failed + total (λ c. one (is_failure c)) cs
  pub durations : m'.agent_duration_ms_total ≡ m.agent_duration_ms_total + total duration cs
  pub webhooks :
      m'.webhook_success_total + m'.webhook_failure_total
      ≡ m.webhook_success_total + m.webhook_failure_total + total (λ c. one (is_webhook c)) cs
  pub jobs :
      m'.ingress_jobs_finished + m'.ingress_jobs_failed
      ≡ m.ingress_jobs_finished + m.ingress_jobs_failed + total (λ c. one (is_job c)) cs
  pub peak : m'.queue_peak_pending ≡ max m.queue_peak_pending (largest cs)
  pub in_flight : m'.agent_in_flight ≤ m.agent_in_flight + total (λ c. one (is_started c)) cs
  pub not_lost :
      m.agent_in_flight + total (λ c. one (is_started c)) cs
      ≤ m'.agent_in_flight + total (λ c. one (is_finished c)) cs

step-Counted : (c : MetricCall) (m : MetricsCollector) → Counted (c ∷ []) m (apply c m)
unfolding observe_queue_depth agent_run_started agent_run_finished record_webhook record_ingress_job
step-Counted (depth n) m = record {
  runs = omega arith;
  failed = omega arith;
  durations = omega arith;
  webhooks = omega arith;
  jobs = omega arith;
  peak = ground arith;
  in_flight = omega arith;
  not_lost = omega arith;
}
step-Counted started m = record {
  runs = omega arith;
  failed = omega arith;
  durations = omega arith;
  webhooks = omega arith;
  jobs = omega arith;
  peak = omega arith;
  in_flight = omega arith;
  not_lost = omega arith;
}
step-Counted (finished d ok t) m = record {
  runs = omega arith;
  failed = ground arith;
  durations = omega arith;
  webhooks = omega arith;
  jobs = omega arith;
  peak = omega arith;
  in_flight = omega arith;
  not_lost = omega arith;
}
step-Counted (webhook ok) m = record {
  runs = omega arith;
  failed = omega arith;
  durations = omega arith;
  webhooks = ground arith;
  jobs = omega arith;
  peak = omega arith;
  in_flight = omega arith;
  not_lost = omega arith;
}
step-Counted (job ok) m = record {
  runs = omega arith;
  failed = omega arith;
  durations = omega arith;
  webhooks = omega arith;
  jobs = ground arith;
  peak = omega arith;
  in_flight = omega arith;
  not_lost = omega arith;
}

-- Over any sequence of calls on any collector: the runs grow by the finished ones, the failed runs by
-- those that finished badly, the total duration by the sum of theirs with negative ones as 0; successes
-- and failures of webhooks, and of jobs, together grow by the recorded ones; the peak is the larger of the
-- old one and the deepest observed queue; the runs in flight grow by at most those started, and by no less
-- than those started less those finished.
pub apply_all-Counted :
    (cs : List MetricCall) (m : MetricsCollector) → Counted cs m (apply_all cs m)
apply_all-Counted [] m = record {
  runs = omega arith;
  failed = omega arith;
  durations = omega arith;
  webhooks = omega arith;
  jobs = omega arith;
  peak = omega arith;
  in_flight = omega arith;
  not_lost = omega arith;
}
apply_all-Counted (c ∷ cs) m =
    let a = step-Counted c m in
    let b = apply_all-Counted cs (apply c m) in
    record {
      runs = omega (arith, a.runs, b.runs);
      failed = omega (arith, a.failed, b.failed);
      durations = omega (arith, a.durations, b.durations);
      webhooks = omega (arith, a.webhooks, b.webhooks);
      jobs = omega (arith, a.jobs, b.jobs);
      peak = omega (arith, a.peak, b.peak);
      in_flight = omega (arith, a.in_flight, b.in_flight);
      not_lost = omega (arith, a.not_lost, b.not_lost);
    }

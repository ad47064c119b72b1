-- ===== src/Ingress/Queue.antt =====
-- deepticket/layers/ingress/queue.py: the workers of the in-process queue. What a worker does between two
-- waits for the queue is one step: its handler is the runner's `run_event`.
pub mod Settled
use deepticket.Prelude.{
  ℕ, suc, max, String, Bool, true, false, Option, none, some, List, [], ◌∷◌, ◌++◌, length,
}
use deepticket.Env.{Env}
use deepticket.Exec.{Error, cancelled_error, Result, ok, err, pure}
use deepticket.ChatRuns.State.{error_message}
use deepticket.Orchestrator.Streams.{Site}
use deepticket.Ingress.Jobs.{mark_failed}
use deepticket.Ingress.Runner.{RunnerConfig, Outside, QueueItem, run_event}

-- `None` in the queue tells one worker to stop.
pub record JobQueue : Type 0 where
  pub waiting : List (Option QueueItem)
  pub workers : ℕ

abbrev pub new_queue : ℕ → JobQueue
new_queue workers = record { waiting = []; workers = max 1 workers }

unfoldable pub enqueue : QueueItem → JobQueue → JobQueue
enqueue item q = record q { waiting = q.waiting ++ (some item ∷ []) }

abbrev pub stops : ℕ → List (Option QueueItem)
stops ℕ.zero = []
stops (suc n) = none ∷ stops n

-- `stop`: one `None` for each worker
unfoldable pub stop : JobQueue → JobQueue
stop q = record q { waiting = q.waiting ++ stops q.workers }

abbrev pub qsize : JobQueue → ℕ
qsize q = length q.waiting

module _ ⦃env : Env⦄ (config : RunnerConfig) where
  -- The exceptions of the failure callback are logged.
  abbrev pub on_failure : QueueItem → Error → Site → Site
  on_failure item e s = (mark_failed item.job_id (error_message e) (some item.event) s).1

  -- Behind the handler: a cancellation ends the worker, another exception is reported.
  abbrev pub handled : {A : Type 0} → QueueItem → Result A × Site → Result (Unit {0}) × Site
  handled item (ok a, s) = (ok tt, s)
  handled item (err (cancelled_error m), s) = (err (cancelled_error m), s)
  handled item (err e, s) = (ok tt, on_failure item e s)

  -- One item of a worker's loop
  unfoldable pub process_item : QueueItem → Outside → Site → Result (Unit {0}) × Site
  process_item item outside s =
      handled item (run_event config item.event (some item.job_id) outside s)

  abbrev pub carry_on :
      Result (Unit {0})
      → List (Option QueueItem)
      → Site
      → List (Option QueueItem) × Site
      → List (Option QueueItem) × Site
  carry_on (ok u) rest s more = more
  carry_on (err e) rest s more = (rest, s)

  -- The loop of one worker over what is in the queue, until it is told to stop, is cancelled, or waits;
  -- `outside` says what the libraries do for each item. The rest of the queue comes back.
  unfoldable pub work :
      (QueueItem → Outside) → List (Option QueueItem) → Site → List (Option QueueItem) × Site
  unfolding process_item
  work outside [] s = ([], s)
  work outside (none ∷ rest) s = (rest, s)
  work outside (some item ∷ rest) s =
      let (r, s') = process_item item (outside item) s in
      let more = work outside rest s' in carry_on r rest s' more

-- ===== src/Investigation/Store/Orphans.antt =====
-- `fail_orphaned_runs` on one document: which runs it can fail.
use deepticket.Prelude.{
  Option-cases, ◌==◌, if◌then◌else◌, String, ◌≡◌, refl, sym, ap, ◌∙◌, ◌⊎◌, inl, inr, false, none,
  some, subst,
}
use deepticket.Prelude.Text.{clip}
use deepticket.Json.{Fields, end, field, get}
use deepticket.Env.{Env}
use deepticket.Exec.{Result, ok, err, run_transition_error}
use deepticket.World.{World}
use deepticket.Investigation.Status.{
  created, queued, running, waiting_approval, failed, validate_transition, is_terminal_status,
}
use deepticket.Investigation.Models.{InvestigationRun, from_dict, is_terminal, text_at}
use deepticket.Investigation.Models.RoundTrip.{without_blanks}
use deepticket.Investigation.RunDocs.{run_key}
use deepticket.Investigation.Store.{transition, recover, recover_doc, recover_run, counted}
use deepticket.Investigation.Store.Transition.{transition_refused, transition_allowed, at_status}
use deepticket.Investigation.Evolution.Laws.{Stored, IsKeyed}

-- The run as failed and finished at a time, for a reason that replaces what was said before, unless it is
-- empty
abbrev pub failed_run : InvestigationRun → String → String → InvestigationRun
failed_run run now reason = record run {
  status = failed;
  updated_at = now;
  finished_at = some now;
  error_message = if reason == "" then run.error_message else some (clip 500 reason);
}

-- A failed run was started when it was started.
failed_lem :
    (run : InvestigationRun) (now reason : String)
    → at_status run failed now (some reason) none ≡ failed_run run now reason
failed_lem run now reason = elim (Option-cases run.started_at) [
  | inl e ↦ rw e refl
  | inr (t, e) ↦ rw e refl
]

module _ ⦃env : Env⦄ where
  recover_doc-eq :
      (reason : String) (doc : Fields) (run : InvestigationRun)
      → from_dict doc ≡ ok run
      → recover_doc reason (some doc) ≡ recover_run reason (ok run)
  unfolding from_dict text_at get
  recover_doc-eq reason end run h = cc h
  recover_doc-eq reason (field k v d) run h = ap (recover_run reason) h

  recover-Stored :
      (reason k : String) (w : World) (run : InvestigationRun)
      → Stored k run w.storage
      → recover reason k w ≡ recover_run reason (ok run) w
  unfolding recover
  recover-Stored reason k w run st =
      rw st.at (ap (λ m. m w) (recover_doc-eq reason st.doc run st.reads))

  at_own_key :
      (k : String) (w : World) (run : InvestigationRun)
      → IsKeyed w.storage
      → Stored k run w.storage
      → Stored (run_key run.project_id run.run_id) run w.storage
  at_own_key k w run v st = subst (λ j. Stored j run w.storage) (sym (v.keyed k run st)) st

  recover_refused :
      (reason k : String) (w : World) (run : InvestigationRun) (m : String)
      → IsKeyed w.storage
      → Stored k run w.storage
      → is_terminal run ≡ false
      → validate_transition run.status failed ≡ err (run_transition_error m)
      → recover reason k w ≡ (ok 0, w)
  recover_refused reason k w run m v st t h =
      recover-Stored reason k w run st
      ∙ rw t (
          rw (
            transition_refused _ _ failed (some reason) none none w run _ (at_own_key k w run v st)
              h))

  counted-ok :
      (x : Result InvestigationRun × World) (run : InvestigationRun)
      → x.0 ≡ ok run
      → counted x ≡ (ok 1, x.1)
  counted-ok (ok a, w) run h = refl
  counted-ok (err e, w) run h = cc h

  recover_allowed :
      (reason k : String) (w : World) (run : InvestigationRun)
      → IsKeyed w.storage
      → Stored k run w.storage
      → is_terminal run ≡ false
      → validate_transition run.status failed ≡ ok tt
      → ((recover reason k w).0 ≡ ok 1)
        × Stored k
            (without_blanks (failed_run run (env.utc_now_iso w.ticks) reason))
            (recover reason k w).1.storage
  recover_allowed reason k w run v st t h =
      let after = transition run.project_id run.run_id failed (some reason) none none w in
      let (returned, stored) =
        transition_allowed run.project_id run.run_id failed (some reason) none w run v
          (at_own_key k w run v st) h in
      let run' = without_blanks (failed_run run (env.utc_now_iso w.ticks) reason) in
      let own = run_key run.project_id run.run_id in
      let as_failed =
        subst (λ r. Stored own (without_blanks r) after.1.storage)
          (failed_lem run (env.utc_now_iso w.ticks) reason) stored in
      let stored_at_k = subst (λ j. Stored j run' after.1.storage) (v.keyed k run st) as_failed in
      rw (recover-Stored reason k w run st)
        (rw t (rw (counted-ok after _ returned) (refl, stored_at_k)))

  -- After a restart a stored run that is still created or queued is not failed: the recovery of its
  -- document counts nothing and changes nothing.
  pub recover_unstarted :
      (reason k : String) (w : World) (run : InvestigationRun)
      → IsKeyed w.storage
      → Stored k run w.storage
      → (run.status ≡ created) ⊎ (run.status ≡ queued)
      → recover reason k w ≡ (ok 0, w)
  unfolding validate_transition
  recover_unstarted reason k w run v st (inl e) =
      recover_refused reason k w run _ v st (ap is_terminal_status e)
        (ap (λ s. validate_transition s failed) e)
  recover_unstarted reason k w run v st (inr e) =
      recover_refused reason k w run _ v st (ap is_terminal_status e)
        (ap (λ s. validate_transition s failed) e)

  -- The recovery of the document of a running or waiting run counts one failed run, and stores the run
  -- as failed for the given reason, where it is not empty, updated and finished at the time read, and else as it was.
  pub recover_started :
      (reason k : String) (w : World) (run : InvestigationRun)
      → IsKeyed w.storage
      → Stored k run w.storage
      → (run.status ≡ running) ⊎ (run.status ≡ waiting_approval)
      → ((recover reason k w).0 ≡ ok 1)
        × Stored k
            (without_blanks (failed_run run (env.utc_now_iso w.ticks) reason))
            (recover reason k w).1.storage
  unfolding validate_transition
  recover_started reason k w run v st (inl e) =
      recover_allowed reason k w run v st (ap is_terminal_status e)
        (ap (λ s. validate_transition s failed) e)
  recover_started reason k w run v st (inr e) =
      recover_allowed reason k w run v st (ap is_terminal_status e)
        (ap (λ s. validate_transition s failed) e)

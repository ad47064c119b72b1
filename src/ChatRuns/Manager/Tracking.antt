-- ===== src/ChatRuns/Manager/Tracking.antt =====
-- One run of a chat at a time: what the table tracks after a start and after a task's end.
use deepticket.Prelude.{
  ℕ, String, ◌≡◌, refl, sym, ap, subst, Bool, true, false, Option, none, some, inl, inr, List,
  Bool-cases, eq_refl, length,
}
use deepticket.Env.{Env}
use deepticket.Exec.{Result, ok, err, continue}
use deepticket.World.{World}
use deepticket.Investigation.Models.{InvestigationRun}
use deepticket.Investigation.Store.{get_active_run_for_chat}
use deepticket.Investigation.RunLifecycle.{AgentInput}
use deepticket.ChatRuns.State.{ChatRun, Job}
use deepticket.ChatRuns.Execution.{Phase, scheduled, Signal, Service, step}
use deepticket.ChatRuns.Manager.{
  Entry, Manager, key_of_chat, tracked, is_live, is_running, busy, register_run, fresh_run,
  create_task, on_state, start_new, start, signal_of, deliver_phase, deliver_to, deliver, release,
}
use deepticket.ChatRuns.Manager.Table.{
  pop, entry_at, lookup-put, lookup-pop, entry_at-replace, entry_at-last,
}

-- Nothing is tracked under a key that was removed.
untracked-pop :
    (w : World) (entries : List Entry) (runs : List (String × ℕ)) (k : String)
    → tracked k (record { world = w; entries = entries; runs = pop runs k }) ≡ none
unfolding tracked
untracked-pop w entries runs k = rw (lookup-pop runs k k) (rw eq_refl refl)

release-done :
    (was : Bool) (run : ChatRun) (runs : List (String × ℕ))
    → was ≡ false
    → run.done ≡ true
    → release was run runs ≡ pop runs (key_of_chat run.project_id run.uid run.chat_id)
release-done was run runs before after = simp (before, after)

module _ ⦃env : Env⦄ (service : Service) where
  abbrev pub after_step : Signal → Manager → Entry → Phase → Job
  after_step signal m e phase =
      (step service phase (signal_of e.cancelling signal)
        (record { world = m.world; run = e.run })).1

  phase_untracked :
      (i : ℕ) (signal : Signal) (m : Manager) (e : Entry) (phase : Phase)
      → e.run.done ≡ false
      → (after_step signal m e phase).run.done ≡ true
      → let run = (after_step signal m e phase).run in
        tracked
          (key_of_chat run.project_id run.uid run.chat_id)
          (deliver_phase service i signal e (some phase) m)
        ≡ none
  phase_untracked i signal m e phase before after =
      let j = after_step signal m e phase in
      let key = key_of_chat j.run.project_id j.run.uid j.run.chat_id in
      let entries = (deliver_phase service i signal e (some phase) m).entries in
      subst
        (λ runs. tracked key (record { world = j.world; entries = entries; runs = runs }) ≡ none)
        (sym (release-done e.run.done j.run m.runs before after))
        (untracked-pop j.world entries m.runs key)

  -- When a delivery makes a run object done, the table tracks no run of its chat any more, even if it was
  -- another object that it tracked.
  pub deliver-is_running :
      (i : ℕ) (signal : Signal) (m : Manager) (e : Entry) (phase : Phase)
      → entry_at m.entries i ≡ some e
      → e.task ≡ some phase
      → e.run.done ≡ false
      → (after_step signal m e phase).run.done ≡ true
      → let run = (after_step signal m e phase).run in
        is_running run.project_id run.uid run.chat_id (deliver service i signal m) ≡ false
  unfolding deliver is_running
  deliver-is_running i signal m e phase at task before after =
      let run = (after_step signal m e phase).run in
      let key = key_of_chat run.project_id run.uid run.chat_id in
      let untracked = phase_untracked i signal m e phase before after in
      let goes = λ (t : Option Phase).
        is_live (tracked key (deliver_phase service i signal e t m)) ≡ false in
      let found =
        λ (o : Option Entry). is_live (tracked key (deliver_to service i signal o m)) ≡ false in
      subst found (sym at) (subst goes (sym task) (ap is_live untracked))

  -- The object that was registered last is tracked.
  created_tracked :
      (key : String) (run : ChatRun) (agent_input : AgentInput) (m : Manager)
      → tracked key (create_task (length m.entries) agent_input (register_run key run m).1).1
        ≡ some (record { run = run; task = some (scheduled agent_input); cancelling = false })
  unfolding tracked create_task register_run
  created_tracked key run agent_input m =
      rw (lookup-put m.runs key (length m.entries) key)
        (rw eq_refl (entry_at-replace _ (length m.entries) _ _ (entry_at-last m.entries _)))

  new_tracked :
      (p u c : String) (agent_input : AgentInput) (active : Option InvestigationRun)
      (m m' : Manager) (i : ℕ)
      → start_new service p u c agent_input active m ≡ (ok i, m')
      → is_live (tracked (key_of_chat p u c) m') ≡ true
  unfolding register_run create_task
  new_tracked p u c agent_input (some run) m m' i h = cc
  new_tracked p u c agent_input none m m' i h =
      let key = key_of_chat p u c in
      let run = fresh_run p u c none agent_input.conversation_id in
      subst (λ x. is_live (tracked key x) ≡ true) (ap (λ x. x.1) h)
        (ap is_live (created_tracked key run agent_input m))

  started_tracked :
      (p u c : String) (agent_input : AgentInput) (x : Result (Option InvestigationRun) × Manager)
      (m' : Manager) (i : ℕ)
      → continue x (start_new service p u c agent_input) ≡ (ok i, m')
      → is_live (tracked (key_of_chat p u c) m') ≡ true
  started_tracked p u c agent_input (ok active, m) m' i h =
      new_tracked p u c agent_input active m m' i h
  started_tracked p u c agent_input (err e, m) m' i h = cc

  -- When a chat's run was started, the chat is running, and a second start of the chat, with any input,
  -- raises and changes nothing.
  pub start_once :
      (p u c : String) (agent_input other : AgentInput) (m m' : Manager) (i : ℕ)
      → start service p u c agent_input m ≡ (ok i, m')
      → (is_running p u c m' ≡ true) × (start service p u c other m' ≡ (err busy, m'))
  unfolding start is_running
  start_once p u c agent_input other m m' i h =
      elim (Bool-cases (is_live (tracked (key_of_chat p u c) m))) [
        | inl e ↦ cc (rw e at h)
        | inr e ↦
            let live =
              started_tracked p u c agent_input (on_state (get_active_run_for_chat p u c) m) m' i
                (rw e at h) in
            (live, rw live refl)
      ]

-- ===== src/Investigation/RunDocs/Frames.antt =====
-- What a save changes: the run's document, and nothing else that is read as JSON.
use deepticket.Prelude.{
  ℕ, suc, String, false, some, ◌==◌, if◌then◌else◌, ◌≡◌, inl, inr, Bool-cases, Option-cases,
}
use deepticket.Prelude.Text.{nonempty, with_offset}
use deepticket.Env.{Env}
use deepticket.Exec.{ok}
use deepticket.Storage.Local.{Storage, get_json, set_json, zadd}
use deepticket.Storage.Laws.{get_json-set_json, get_json-zadd}
use deepticket.World.{World}
use deepticket.Storage.Files.{same}
use deepticket.Prelude.{[], ◌∷◌}
use deepticket.Investigation.Models.{InvestigationRun, to_dict}
use deepticket.Investigation.RunDocs.{
  run_key, ns_run, ns_runs_by_user, ns_runs_by_chat, user_index_key, chat_index_key, text, save,
  score_from_iso, is_given,
}

abbrev user_key : InvestigationRun → String
user_key run = user_index_key run.project_id run.uid

-- Reading a score moves the clock at most.
score_from_iso_lem :
    ⦃env : Env⦄
    → (v : String) (w : World)
    → (score : ℕ) × (ticks : ℕ) × (score_from_iso v w ≡ (ok score, record w { ticks = ticks }))
unfolding score_from_iso
score_from_iso_lem ⦃env⦄ v w = elim (Bool-cases (nonempty v)) [
  | inl e ↦ elim (Option-cases (env.iso_ms (with_offset v))) [
    | inl f ↦ (env.time_ms w.ticks, suc w.ticks, rw e (rw f))
    | inr (n, f) ↦ (n, w.ticks, rw e (rw f))
  ]
  | inr e ↦ (env.time_ms w.ticks, suc w.ticks, rw e)
]

abbrev indexed : InvestigationRun → Storage → ℕ → Storage
indexed run s score =
    let by_user =
      zadd (set_json s ns_run (run_key run.project_id run.run_id) (to_dict run)) ns_runs_by_user
        (user_key run) ((run.run_id, score) ∷ []) in
    if is_given run.chat_id
    then zadd by_user ns_runs_by_chat (chat_index_key run.project_id (text run.chat_id))
        ((run.run_id, score) ∷ [])
    else by_user

save_lem :
    ⦃env : Env⦄
    → (run : InvestigationRun) (w : World)
    → (score : ℕ) × (ticks : ℕ) × (save run w
        ≡ (ok tt, record w { storage = indexed run w.storage score; ticks = ticks }))
unfolding save
save_lem run w =
    let w' = record w {
      storage = set_json w.storage ns_run (run_key run.project_id run.run_id) (to_dict run);
    } in
    let (score, ticks, e) = score_from_iso_lem run.updated_at w' in
    (score, ticks, rw e (elim (Bool-cases (is_given run.chat_id)) [ inl g ↦ rw g | inr g ↦ rw g ]))

get_json-indexed :
    (run : InvestigationRun) (s : Storage) (score : ℕ) (ns k : String)
    → (ns_runs_by_user == ns) ≡ false
    → (ns_runs_by_chat == ns) ≡ false
    → get_json (indexed run s score) ns k ≡ (
        if same ns_run (run_key run.project_id run.run_id) ns k
        then some (to_dict run)
        else get_json s ns k)
get_json-indexed run s score ns k u c = elim (Bool-cases (is_given run.chat_id)) [
  | inl g ↦ rw g (simp (get_json-zadd, get_json-set_json, u, c))
  | inr g ↦ rw g (simp (get_json-zadd, get_json-set_json, u))
]

module _ ⦃env : Env⦄ (run : InvestigationRun) (w : World) where
  -- A save does not raise.
  pub save_returns : (save run w).0 ≡ ok tt
  save_returns = let (score, ticks, e) = save_lem run w in rw e

  -- After a save a document outside of the two indices is the saved run's, or what it was.
  pub get_json-save :
      (ns k : String)
      → (ns_runs_by_user == ns) ≡ false
      → (ns_runs_by_chat == ns) ≡ false
      → get_json (save run w).1.storage ns k ≡ (
          if same ns_run (run_key run.project_id run.run_id) ns k
          then some (to_dict run)
          else get_json w.storage ns k)
  get_json-save ns k u c =
      let (score, ticks, e) = save_lem run w in rw e (get_json-indexed run w.storage score ns k u c)

-- ===== src/Investigation/Evolution/Laws.antt =====
-- What the abstract machine guarantees: a stored run is never lost, and moves only along the table.
use deepticket.Prelude.{
  String, ◌≡◌, refl, sym, ◌∙◌, true, none, some, ◌==◌, eq_iff, inl, inr, arith, ◌≤◌, Bool-cases,
  subst, ◌⊎◌,
}
use deepticket.Json.{Fields}
use deepticket.Env.{Env}
use deepticket.Exec.{ok}
use deepticket.Storage.Local.{Storage, get_json}
use deepticket.Investigation.Status.{RunStatus, validate_transition, is_terminal_status}
use deepticket.Investigation.Models.{InvestigationRun, to_dict, from_dict}
use deepticket.Investigation.Models.RoundTrip.{without_blanks, from_dict-to_dict}
use deepticket.Investigation.RunDocs.{ns_run}
use deepticket.Investigation.Evolution.{
  key_of, Moves, Written, Follows, Step, quiet, insert, update, Evolves, here, next,
}

-- A way through the transition table.
pub data Route (a : RunStatus) : RunStatus → Type 0 where
  stop : Route a a
  move : {b : RunStatus} (c : RunStatus) → Route a b → validate_transition b c ≡ ok tt → Route a c

pub Route-trans : {a b c : RunStatus} → Route a b → Route b c → Route a c
Route-trans p stop = p
Route-trans p (move c q h) = move c (Route-trans p q) h

Route-Moves : (a b : RunStatus) → Moves a b → Route a b
Route-Moves a b (inl e) = subst (Route a) e stop
Route-Moves a b (inr h) = move b stop h

-- A terminal status has no way on.
pub Route-terminal : {a b : RunStatus} → Route a b → is_terminal_status a ≡ true → b ≡ a
unfolding validate_transition
Route-terminal stop t = refl
Route-terminal {a} (move {b} c p h) t = let e = Route-terminal p t in cc (rw (e, t) at h)

module _ ⦃env : Env⦄ where
  -- The document at a key is readable as `run`.
  pub record Stored (k : String) (run : InvestigationRun) (s : Storage) : Type 0 where
    pub doc : Fields
    pub at : get_json s ns_run k ≡ some doc
    pub reads : from_dict doc ≡ ok run

  -- Each readable document stands at its run's key.
  pub record IsKeyed (s : Storage) : Type 0 where
    pub keyed : (k : String) (run : InvestigationRun) → Stored k run s → key_of run ≡ k

  -- `run` is stored under the key as a later version of itself.
  pub record Later (k : String) (run : InvestigationRun) (s : Storage) : Type 0 where
    pub run' : InvestigationRun
    pub stored : Stored k run' s
    pub uid : run'.uid ≡ run.uid
    pub route : Route run.status run'.status
    pub events : run.event_count ≤ run'.event_count

  Stored-Written :
      (run run' : InvestigationRun) (k : String) (s t : Storage)
      → Written run s t
      → Stored k run' t
      → ((key_of run ≡ k) × (run' ≡ without_blanks run)) ⊎ Stored k run' s
  Stored-Written run run' k s t w st = elim (Bool-cases (key_of run == k)) [
    | inl e ↦
        let written : get_json t ns_run k ≡ some (to_dict run) = rw e at (w k) in
        inl ((eq_iff _ _).0 e, cc (st.at, written, st.reads, from_dict-to_dict run))
    | inr e ↦
        let kept : get_json t ns_run k ≡ get_json s ns_run k = rw e at (w k) in
        inr (record { doc = st.doc; at = sym kept ∙ st.at; reads = st.reads })
  ]

  Written-Stored :
      (run run' : InvestigationRun) (k : String) (s t : Storage)
      → Written run s t
      → Stored k run' s
      → ((key_of run ≡ k) × Stored k (without_blanks run) t) ⊎ Stored k run' t
  Written-Stored run run' k s t w st = elim (Bool-cases (key_of run == k)) [
    | inl e ↦
        let written : get_json t ns_run k ≡ some (to_dict run) = rw e at (w k) in
        inl (
          (eq_iff _ _).0 e,
          record { doc = to_dict run; at = written; reads = from_dict-to_dict run },
        )
    | inr e ↦
        let kept : get_json t ns_run k ≡ get_json s ns_run k = rw e at (w k) in
        inr (record { doc = st.doc; at = kept ∙ st.at; reads = st.reads })
  ]

  Later-refl : (k : String) (run : InvestigationRun) (s : Storage) → Stored k run s → Later k run s
  Later-refl k run s st = record {
    run' = run;
    stored = st;
    uid = refl;
    route = stop;
    events = omega arith;
  }

  Later-trans :
      (k : String) (run : InvestigationRun) (s t : Storage) (l : Later k run s)
      → Later k l.run' t
      → Later k run t
  Later-trans k run s t l m = record {
    run' = m.run';
    stored = m.stored;
    uid = m.uid ∙ l.uid;
    route = Route-trans l.route m.route;
    events = omega (arith, l.events, m.events);
  }

  -- A step keeps each document at its run's key.
  Step-IsKeyed : {s t : Storage} → Step s t → IsKeyed s → IsKeyed t
  Step-IsKeyed {s} {t} (quiet h) v = record {
    keyed = λ k run st.
        v.keyed k run (record { doc = st.doc; at = sym (h k) ∙ st.at; reads = st.reads });
  }
  Step-IsKeyed {s} {t} (insert run c fresh w) v = record {
    keyed = λ k run' st. elim (Stored-Written run run' k s t w st) [
      | inl (e, same) ↦ rw same e
      | inr old ↦ v.keyed k run' old
    ];
  }
  Step-IsKeyed {s} {t} (update k₀ doc run₀ run h e f w) v = record {
    keyed = λ k run' st. elim (Stored-Written run run' k s t w st) [
      | inl (e, same) ↦ rw same e
      | inr old ↦ v.keyed k run' old
    ];
  }

  Stored-unique :
      {k : String} {a b : InvestigationRun} {s : Storage} → Stored k a s → Stored k b s → a ≡ b
  Stored-unique x y = cc (x.at, y.at, x.reads, y.reads)

  pub Follows-key_of : {run run' : InvestigationRun} → Follows run run' → key_of run' ≡ key_of run
  Follows-key_of f = rw (f.run_id, f.project_id)

  Follows-Later :
      (k : String) {run run' : InvestigationRun} {s : Storage}
      → Follows run run'
      → Stored k (without_blanks run') s
      → Later k run s
  Follows-Later k {run} {run'} f st = record {
    run' = without_blanks run';
    stored = st;
    uid = f.uid;
    route = Route-Moves run.status run'.status f.moves;
    events = f.events;
  }

  -- A step keeps each stored run, as a later version.
  Step-Later :
      {s t : Storage} (k : String) (run : InvestigationRun)
      → Step s t
      → IsKeyed s
      → Stored k run s
      → Later k run t
  Step-Later {s} {t} k run (quiet h) v st =
      Later-refl k run t (record { doc = st.doc; at = h k ∙ st.at; reads = st.reads })
  Step-Later {s} {t} k run (insert new c fresh w) v st = elim (Written-Stored new run k s t w st) [
    | inl (e, now) ↦ let clash : get_json s ns_run k ≡ none = rw e at fresh in cc (clash, st.at)
    | inr old ↦ Later-refl k run t old
  ]
  Step-Later {s} {t} k run (update k₀ doc run₀ new h e f w) v st =
      elim (Written-Stored new run k s t w st) [
        | inl (q, now) ↦
            let old : Stored k₀ run₀ s = record { doc = doc; at = h; reads = e } in
            let here_too =
              subst (λ j. Stored j run₀ s)
                (sym (v.keyed k₀ run₀ old) ∙ (sym (Follows-key_of f) ∙ q)) old in
            Follows-Later k (subst (λ r. Follows r new) (Stored-unique here_too st) f) now
        | inr old ↦ Later-refl k run t old
      ]

  pub Evolves-IsKeyed : {s t : Storage} → Evolves s t → IsKeyed s → IsKeyed t
  Evolves-IsKeyed here v = v
  Evolves-IsKeyed (next e st) v = Step-IsKeyed st (Evolves-IsKeyed e v)

  pub Evolves-Later :
      {s t : Storage} (k : String) (run : InvestigationRun)
      → Evolves s t
      → IsKeyed s
      → Stored k run s
      → Later k run t
  Evolves-Later {s} k run here v st = Later-refl k run s st
  Evolves-Later {s} {t} k run (next {t = m} e step) v st =
      let l = Evolves-Later k run e v st in
      Later-trans k run m t l (Step-Later k l.run' step (Evolves-IsKeyed e v) l.stored)

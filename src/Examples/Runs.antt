-- ===== src/Examples/Runs.antt =====
-- Stored runs: sequences of calls, transitions, and recovery.
use deepticket.Prelude.{none, some, ◌≡◌, refl, inl, List, [], ◌∷◌}
use deepticket.Exec.{ok, err, run_transition_error}
use deepticket.Storage.Local.{empty, get_json}
use deepticket.World.{World, start}
use deepticket.Investigation.Status.{created, running, completed, failed, chat, validate_transition}
use deepticket.Investigation.Models.{InvestigationRun, to_dict, from_dict}
use deepticket.Investigation.Models.RoundTrip.{without_blanks, from_dict-to_dict}
use deepticket.Investigation.RunDocs.{tool_call}
use deepticket.Investigation.Store.{transition, recover}
use deepticket.Investigation.Store.Transition.{transition_refused, transition_allowed}
use deepticket.Investigation.Store.Orphans.{recover_unstarted, recover_started}
use deepticket.Investigation.Evolution.Changes.{Changes}
use deepticket.Investigation.Evolution.Laws.{Stored, Later, IsKeyed}
use deepticket.Investigation.Evolution.History.{
  Call, create, move, bump, perform_all, perform_all-Later, perform_all_terminal,
  perform_all-Changes, perform, perform_all-IsKeyed, empty-IsKeyed,
}
use deepticket.Examples.Fixtures.{
  python, run_at, key, with_created, with_running, world_of, created-Stored, running-Stored,
  created-IsKeyed, running-IsKeyed,
}

abbrev calls : List Call
calls =
    bump "p" "r" tool_call
    ∷ move "p" "r" completed none none none
    ∷ move "p" "r" running none none none
    ∷ []

abbrev creation : List Call
creation = create "p" "u" chat (some "c") none none ∷ bump "p" "0a" tool_call ∷ []

perform_all-Later_example :
    Later key (run_at running) (perform_all calls (world_of with_running)).storage
perform_all-Later_example =
    perform_all-Later calls (world_of with_running) key (run_at running) running-IsKeyed
      (tt, (tt, (tt, tt))) running-Stored

perform_all-Changes_example : Changes empty (perform_all creation start).storage
unfolding get_json empty
perform_all-Changes_example = perform_all-Changes creation start empty-IsKeyed (refl, (tt, tt))

from_dict-to_dict_example :
    from_dict (to_dict (run_at running)) ≡ ok (without_blanks (run_at running))
from_dict-to_dict_example = from_dict-to_dict (run_at running)

transition_refused_example : transition "p" "r" completed none none none (world_of with_created) ≡ (
  err (run_transition_error "transition not allowed: created -> completed"),
  world_of with_created,
)
unfolding validate_transition
transition_refused_example =
    transition_refused "p" "r" completed none none none (world_of with_created) (run_at created)
      (run_transition_error "transition not allowed: created -> completed") created-Stored refl

abbrev finished : InvestigationRun
finished = record (run_at running) {
  status = completed;
  updated_at = "2026-01-02T03:04:05Z";
  finished_at = some "2026-01-02T03:04:05Z";
}

transition_allowed_example :
    ((transition "p" "r" completed none none none (world_of with_running)).0 ≡ ok finished)
    × Stored key
        (without_blanks finished)
        (transition "p" "r" completed none none none (world_of with_running)).1.storage
unfolding validate_transition
transition_allowed_example =
    transition_allowed "p" "r" completed none none (world_of with_running) (run_at running)
      running-IsKeyed running-Stored refl

abbrev done_world : World
done_world = (transition "p" "r" completed none none none (world_of with_running)).1

done-Stored : Stored key (without_blanks finished) done_world.storage
unfolding validate_transition
done-Stored =
    (transition_allowed "p" "r" completed none none (world_of with_running) (run_at running)
      running-IsKeyed running-Stored refl).1

done-IsKeyed : IsKeyed done_world.storage
unfolding perform_all perform
done-IsKeyed =
    perform_all-IsKeyed (move "p" "r" completed none none none ∷ []) (world_of with_running)
      running-IsKeyed (tt, tt)

perform_all_terminal_example :
    (run' : InvestigationRun) × Stored key run' (perform_all calls done_world).storage
    × (run'.status ≡ completed)
perform_all_terminal_example =
    perform_all_terminal calls done_world key (without_blanks finished) done-IsKeyed
      (tt, (tt, (tt, tt))) done-Stored refl

recover_unstarted_example :
    recover "restarted" key (world_of with_created) ≡ (ok 0, world_of with_created)
recover_unstarted_example =
    recover_unstarted "restarted" key (world_of with_created) (run_at created) created-IsKeyed
      created-Stored (inl refl)

abbrev recovered : InvestigationRun
recovered = record (run_at running) {
  status = failed;
  updated_at = "2026-01-02T03:04:05Z";
  finished_at = some "2026-01-02T03:04:05Z";
  error_message = some "restarted";
}

recover_started_example :
    ((recover "restarted" key (world_of with_running)).0 ≡ ok 1)
    × Stored key
        (without_blanks recovered)
        (recover "restarted" key (world_of with_running)).1.storage
unfolding deepticket.Prelude.Text.clip
recover_started_example =
    recover_started "restarted" key (world_of with_running) (run_at running) running-IsKeyed
      running-Stored (inl refl)

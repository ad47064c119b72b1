-- ===== src/ChatRuns/Settling/Body.antt =====
-- The `try` of `_execute`: it returns only with the run settled, and an exception leaves the run begun.
use deepticket.Prelude.{
  String, ◌≡◌, refl, Bool, true, false, ◌||◌, Option, none, some, inl, inr, List, [], ◌∷◌,
  if◌then◌else◌, Bool-cases,
}
use deepticket.Prelude.Text.{nonempty}
use deepticket.Json.{Fields}
use deepticket.Env.{Env}
use deepticket.Exec.{Result, ok, err, Exec, pure, gets, continue, ◌>>=◌, ◌>>◌}
use deepticket.Investigation.Status.{
  RunStatus, running, waiting_approval, completed, cancelled, is_status, validate_transition,
}
use deepticket.Investigation.Models.{is_terminal}
use deepticket.Investigation.RunDocs.{is_given, text}
use deepticket.Investigation.Store.Transition.{get_run-Stored}
use deepticket.Output.Chunks.{StreamChunk}
use deepticket.Usage.Recording.{Fetched}
use deepticket.Usage.Recording.Frames.{Keeps-record_chat_token_usage}
use deepticket.ChatRuns.State.{Job, ChatRun, update_run, broadcast, on_world}
use deepticket.ChatRuns.Execution.{
  Locals, Next, more, leave, usage, return, Service, noted, move, set_status, show_waiting,
  run_is_waiting, is_waiting, set_conversation, take_conversation, on_chunk, store_parts,
  store_reply, send_confidence, complete, finish_loaded, finish_run, finish, after_stream,
  record_usage, behind_loop,
}
use deepticket.ChatRuns.Holds.{Settled, Begun, Settled→Begun, Leads-set_oh_conversation_id}
use deepticket.ChatRuns.Settling.{
  Held, Takes, Takes-pure, Takes-gets, Takes-broadcast, Takes-on_world, Takes-kept, Takes-bind,
  Takes-run, Takes-set_status, Takes-move, takes_rules,
}

or_left : (a b : Bool) → a ≡ true → (a || b) ≡ true
or_left a b h = rw h refl

or_right : (a b : Bool) → b ≡ true → (a || b) ≡ true
or_right true b h = refl
or_right false b h = h

module _ ⦃env : Env⦄ (p r : String) where
  pub Held-Begun : (j : Job) → Held p r Settled j → Held p r Begun j
  Held-Begun j h = record {
    holds = record {
      run = h.holds.run;
      stored = h.holds.stored;
      keyed = h.holds.keyed;
      status = Settled→Begun h.holds.run.status h.holds.status;
    };
    run_id = h.run_id;
    project_id = h.project_id;
  }

  settle : (j : Job) (h : Held p r Begun j) → Settled h.holds.run.status → Held p r Settled j
  settle j h s = record {
    holds = record {
      run = h.holds.run;
      stored = h.holds.stored;
      keyed = h.holds.keyed;
      status = s;
    };
    run_id = h.run_id;
    project_id = h.project_id;
  }

  module _ (last : Bool) where
    -- What holds behind a part of the `try`; the last part does not go on.
    abbrev pub Post : Result Next → Job → Type 0
    Post (ok (more l)) j = (last ≡ false) × Held p r Begun j
    Post (ok (leave l)) j = (last ≡ false) × Held p r Begun j
    Post (ok (usage l)) j = (last ≡ false) × Held p r Begun j
    Post (ok return) j = Held p r Settled j
    Post (err e) j = Held p r Begun j

    pub record Ends (m : Exec Job Next) : Type 0 where
      pub at : (j : Job) → Held p r Begun j → Post (m j).0 (m j).1

    -- Code whose only result is `return`
    pub record Returns (m : Exec Job Next) : Type 0 where
      pub at : (j : Job) → Held p r Settled (m j).1 → Post (m j).0 (m j).1

    Returns-pure : Returns (pure return)
    Returns-pure = record { at = λ j h. h }

    continue-Returns :
        {A : Type 0} (x : Result A × Job) (f : A → Exec Job Next)
        → ((a : A) → Returns (f a))
        → Held p r Settled (continue x f).1
        → Post (continue x f).0 (continue x f).1
    continue-Returns (ok a, j) f k h = (k a).at j h
    continue-Returns (err e, j) f k h = Held-Begun j h

    Returns-bind :
        {A : Type 0} (m : Exec Job A) (f : A → Exec Job Next)
        → ((a : A) → Returns (f a))
        → Returns (m >>= f)
    Returns-bind m f k = record { at = λ j h. continue-Returns (m j) f k h }

    pub Ends-Returns : (m : Exec Job Next) → Takes p r Begun Settled m → Returns m → Ends m
    Ends-Returns m t k = record { at = λ j h. k.at j (t.at j h) }

    continue-Ends :
        {A : Type 0} (x : Result A × Job) (f : A → Exec Job Next)
        → Held p r Begun x.1
        → ((a : A) → Ends (f a))
        → Post (continue x f).0 (continue x f).1
    continue-Ends (ok a, j) f h k = (k a).at j h
    continue-Ends (err e, j) f h k = h

    pub Ends-bind :
        {A : Type 0} (m : Exec Job A) (f : A → Exec Job Next)
        → Takes p r Begun Begun m
        → ((a : A) → Ends (f a))
        → Ends (m >>= f)
    Ends-bind m f t k = record { at = λ j h. continue-Ends (m j) f (t.at j h) k }

    Ends-if : (b : Bool) (m n : Exec Job Next) → Ends m → Ends n → Ends (if b then m else n)
    Ends-if true m n h k = h
    Ends-if false m n h k = k

    Ends-run :
        (f : ChatRun → Exec Job Next)
        → ((run : ChatRun) → run.run_id ≡ some r → run.project_id ≡ p → Ends (f run))
        → Ends (gets (λ j. j.run) >>= f)
    Ends-run f k = record { at = λ j h. (k j.run h.run_id h.project_id).at j h }

    module _ (service : Service) (filled : nonempty r ≡ true) where
      -- A move, the status of the conversation, and `return`
      end_with :
          (to : RunStatus) (m : Option String)
          → validate_transition running to ≡ ok tt
          → Ends (move service to m >> (set_status service "idle" none >> pure return))
      end_with to m t =
          Ends-Returns _
            (Takes-bind p r _ _ (Takes-move p r service filled to m t)
              (λ _. search (takes_rules, Takes-set_status) depth 6))
            (search (Returns-bind, Returns-pure) depth 6)

      complete-Ends : (l : Locals) → Ends (complete service l)
      unfolding complete validate_transition
      complete-Ends l = end_with completed l.policy_denied_message refl

      show_status :
          (s : String) (m : Option String)
          → Takes p r Settled Settled (set_status service s m >> pure return)
      show_status s m = search (takes_rules, Takes-set_status) depth 6

      finish_loaded-Post :
          (l : Locals) (j : Job) (h : Held p r Begun j)
          → Post
              (finish_loaded service l (some h.holds.run) j).0
              (finish_loaded service l (some h.holds.run) j).1
      finish_loaded-Post l j h =
          let run = h.holds.run in
          let shown = λ (status : String) (m : Option String) (settled : Settled run.status).
            (Returns-bind (set_status service status m) (λ _. pure return) (λ _. Returns-pure)).at j
              ((show_status status m).at j (settle j h settled)) in
          elim (Bool-cases (is_status run.status waiting_approval)) [
            | inl w ↦
                rw w (shown "waiting_approval" run.error_message (or_right (is_terminal run) _ w))
            | inr w ↦ elim (Bool-cases (is_terminal run)) [
              | inl t ↦ rw (w, t) (shown "idle" none (or_left (is_terminal run) _ t))
              | inr t ↦ rw (w, t) ((complete-Ends l).at j h)
            ]
          ]

      pub finish-Ends : (l : Locals) → Ends (finish service l)
      unfolding finish on_world
      finish-Ends l = Ends-run (finish_run service l) (λ run e q.
          rw (e, q, filled)
            (record {
              at = λ j h.
                  rw (get_run-Stored p r j.world h.holds.run h.holds.stored)
                    (finish_loaded-Post l j h);
            }))

      send_confidence-Takes :
          (d : Option Fields) → Takes p r Begun Begun (send_confidence service d)
      send_confidence-Takes none = search takes_rules
      send_confidence-Takes (some d) = search takes_rules

      store_parts-Takes :
          (l : Locals) (reply : String) (d : Option Fields) (run : ChatRun) (parts : List String)
          → Takes p r Begun Begun (store_parts service l reply d run parts)
      store_parts-Takes l reply d run [] = search takes_rules depth 6
      store_parts-Takes l reply d run (part ∷ parts) = search takes_rules depth 6

      store_reply-Takes :
          (l : Locals) (reply : String) (d : Option Fields)
          → Takes p r Begun Begun (store_reply service l reply d)
      unfolding store_reply
      store_reply-Takes l reply d =
          Takes-bind p r (gets (λ j. j.run)) _ (Takes-gets p r (λ j. j.run))
            (λ run. store_parts-Takes l reply d run l.assistant_parts)

      record_usage-Takes :
          (l : Locals) (counted : Result (Option Fetched))
          → Takes p r Begun Begun (record_usage service l counted)
      unfolding record_usage
      record_usage-Takes l (err e) = record { at = λ j h. h }
      record_usage-Takes l (ok counted) = record {
        at = λ j h.
            (Takes-kept p r _ (Keeps-record_chat_token_usage service.llm _ _ _ _ counted)).at j h;
      }

      pub after_cancel :
          Ends (move service cancelled none >> (set_status service "idle" none >> pure return))
      unfolding validate_transition
      after_cancel = end_with cancelled none refl

      pub usage-Ends :
          (l : Locals) (counted : Result (Option Fetched))
          → Ends (record_usage service l counted >> finish service l)
      usage-Ends l counted = Ends-bind _ _ (record_usage-Takes l counted) (λ _. finish-Ends l)

module _ ⦃env : Env⦄ (p r : String) (service : Service) (filled : nonempty r ≡ true) where
  pub after_stream-Ends : (l : Locals) → Ends p r false (after_stream service l)
  unfolding after_stream
  after_stream-Ends l =
      let idle = after_cancel p r false service filled in
      let cancel_requested = λ (j : Job). j.run.cancel_requested in
      Ends-bind p r false (gets cancel_requested) _ (Takes-gets p r cancel_requested) (λ c.
        Ends-if p r false c _ _ idle (
          Ends-bind p r false _ _ (send_confidence-Takes p r false service filled _) (λ _.
            Ends-bind p r false _ _ (store_reply-Takes p r false service filled l _ _) (λ _.
              Ends-if p r false (is_given l.agent_conversation_id) _ _
                (record { at = λ j h. (refl, h) }) (finish-Ends p r false service filled l)))))

  -- What is known behind the question whether the run waits for the operator
  abbrev Asked : Result Bool → Job → Type 0
  Asked (ok true) j = Held p r Settled j
  Asked (ok false) j = Held p r Begun j
  Asked (err e) j = Held p r Begun j

  record Asks (m : Exec Job Bool) : Type 0 where
    pub at : (j : Job) → Held p r Begun j → Asked (m j).0 (m j).1

  Asks-run :
      (f : ChatRun → Exec Job Bool)
      → ((run : ChatRun) → run.run_id ≡ some r → run.project_id ≡ p → Asks (f run))
      → Asks (gets (λ j. j.run) >>= f)
  Asks-run f k = record { at = λ j h. (k j.run h.run_id h.project_id).at j h }

  told :
      (x : Result (Unit {0}) × Job)
      → Held p r Settled x.1
      → Asked (continue x (λ _. pure true)).0 (continue x (λ _. pure true)).1
  told (ok a, j) h = h
  told (err e, j) h = Held-Begun p r j h

  show_waiting-Asked :
      (j : Job) (h : Held p r Begun j)
      → Asked
          (show_waiting service (some h.holds.run) j).0
          (show_waiting service (some h.holds.run) j).1
  show_waiting-Asked j h =
      let run = h.holds.run in
      let m = set_status service "waiting_approval" run.error_message in
      elim (Bool-cases (is_status run.status waiting_approval)) [
        | inl w ↦ rw w (
            told (m j) (
              (Takes-set_status p r service "waiting_approval" run.error_message).at j
                (settle p r j h (or_right (is_terminal run) _ w))))
        | inr w ↦ rw w h
      ]

  is_waiting-Asks : Asks (is_waiting service)
  unfolding is_waiting on_world
  is_waiting-Asks = Asks-run (run_is_waiting service) (λ run e q.
      rw (e, q, filled)
        (record {
          at = λ j h.
              rw (get_run-Stored p r j.world h.holds.run h.holds.stored) (show_waiting-Asked j h);
        }))

  converse :
      (conversation : Option String)
      → Takes p r Begun Begun
          (update_run (λ run. record run { agent_conversation_id = conversation }))
  converse conversation = record {
    at = λ j h. record { holds = h.holds; run_id = h.run_id; project_id = h.project_id };
  }

  set_conversation-Takes :
      (conversation : String) (run : ChatRun)
      → run.run_id ≡ some r
      → run.project_id ≡ p
      → Takes p r Begun Begun (set_conversation service conversation run)
  set_conversation-Takes conversation run e q =
      rw (e, q, filled)
        (Takes-bind p r _ _ (Takes-on_world p r _ (Leads-set_oh_conversation_id p r conversation))
          (λ _. Takes-pure p r tt))

  take_conversation-Takes :
      (l : Locals) (c : StreamChunk) → Takes p r Begun Begun (take_conversation service l c)
  unfolding take_conversation
  take_conversation-Takes l c = elim (Bool-cases (is_given c.conversation_id)) [
    | inl e ↦
        let l' : Locals = record l { agent_conversation_id = c.conversation_id } in
        let conversation = text c.conversation_id in
        rw e (
          Takes-bind p r _ _ (converse c.conversation_id) (λ _.
            Takes-run p r (λ run. set_conversation service conversation run >> pure l')
              (λ run e q.
                Takes-bind p r _ _ (set_conversation-Takes conversation run e q)
                  (λ _. Takes-pure p r l'))))
    | inr e ↦ rw e (Takes-pure p r l)
  ]

  -- Behind a chunk that the question lets through, the code goes on as it ends.
  continue-Asked :
      (x : Result Bool × Job) (f : Bool → Exec Job Next)
      → Asked x.0 x.1
      → ((j : Job) → Held p r Settled j → Post p r false (f true j).0 (f true j).1)
      → Ends p r false (f false)
      → Post p r false (continue x f).0 (continue x f).1
  continue-Asked (ok true, j) f h s k = s j h
  continue-Asked (ok false, j) f h s k = k.at j h
  continue-Asked (err e, j) f h s k = h

  taken_chunk : (l : Locals) (c : StreamChunk) → Ends p r false (pure (more (noted l c)))
  taken_chunk l c = record { at = λ j h. (refl, h) }

  pub on_chunk-Ends : (l : Locals) (c : StreamChunk) → Ends p r false (on_chunk service l c)
  unfolding on_chunk
  on_chunk-Ends l c =
      let cancel_requested = λ (j : Job). j.run.cancel_requested in
      let take_in =
        take_conversation service l c >>= λ l'. broadcast c >> pure (more (noted l' c)) in
      Ends-bind p r false (gets cancel_requested) _ (Takes-gets p r cancel_requested) (λ b.
        Ends-if p r false b _ _ (record { at = λ j h. (refl, h) })
          (record {
            at = λ j h.
                continue-Asked (is_waiting service j)
                  (λ waiting. if waiting then pure return else take_in) (is_waiting-Asks.at j h)
                  (λ j' h'. h')
                  (Ends-bind p r false _ _ (take_conversation-Takes l c) (λ l'.
                    Ends-bind p r false _ _ (Takes-broadcast p r c) (λ _. taken_chunk l' c)));
          }))

  loop_on :
      (x : Result Next × Job)
      → Post p r false x.0 x.1
      → Post p r false (continue x (behind_loop service)).0 (continue x (behind_loop service)).1
  loop_on (ok (more l), j) h = h
  loop_on (ok (leave l), j) h = (after_stream-Ends l).at j h.1
  loop_on (ok (usage l), j) h = h
  loop_on (ok return, j) h = h
  loop_on (err e, j) h = h

  pub behind_loop-Ends :
      (m : Exec Job Next) → Ends p r false m → Ends p r false (m >>= behind_loop service)
  behind_loop-Ends m k = record { at = λ j h. loop_on (m j) (k.at j h) }

-- ===== src/Executor/Lifecycle.antt =====
-- src/executor.rs: the order in which an actor's callbacks are called over its whole life.
use tokactor.Common.{
  ℕ, zero, suc, ◌≡◌, sym, subst, Option, List, Flow, ok, ◌>>=◌, >>=-eq-ok, inl, inr, Bool-cases,
  length,
}
use tokactor.Tokio.{Tokio}
use tokactor.Message.{SendMessage, stopping, stopped}
use tokactor.Actor.{Actor}
use tokactor.Executor.{Executor, react, process_message}
use tokactor.Executor.Awaits.{Event, ready, Polled, got, ended, waits, drive, lift}
use tokactor.Executor.Loops.{
  poll_recv, with_mailbox, with_state, check, actor_turn, has_children, told, stopping_turn,
  await_children, stopping_loop, drain, on_drain, stop, stopped_phase, shutdown_executor,
  take_sender, run_actor, supervised_turn, run_supervised_actor,
}
use tokactor.Executor.Schedule.{and_then-eq-ready, lift-eq-ready, drive_rule}
use tokactor.Executor.Stages.{Stage, Stages, After-ok, react-After, process_message-Idle}
use tokactor.Executor.Turns.{
  At, Counting, To, actor_turn-To, supervised_turn-To, stopping_turn-To, actor-check,
}

module _ {A U R Chan W S : Type 0} (tk : Tokio (SendMessage U) Chan W S) (act : Actor A U R)
    (Fresh : A → Type 0) (Idle Busy Done : Stage → A → Type 0) (Over : A → Type 0)
    (st : Stages act Fresh Idle Busy Done Over) where
  on_drain-At :
      (q : Polled U Chan) (x y : Executor A R Chan W S)
      (rest : Executor A R Chan W S → Flow (Executor A R Chan W S))
      → ((z : Executor A R Chan W S)
          → At Idle Stage.stopped z
          → rest z ≡ ok y
          → At Idle Stage.stopped y)
      → At Idle Stage.stopped x
      → on_drain tk act q x rest ≡ ok y
      → At Idle Stage.stopped y
  on_drain-At (got m c) x y rest later p h =
      let ((z, l), ran, more) =
        >>=-eq-ok (process_message tk act (with_mailbox tk act c x) m) _ h in
      later z (process_message-Idle tk act Fresh Idle Busy Done Over st Stage.stopped _ m z l p ran)
        more
  on_drain-At ended x y rest later p h =
      let same : x ≡ y = cc h in subst (At Idle Stage.stopped) same p
  on_drain-At waits x y rest later p h =
      let same : x ≡ y = cc h in subst (At Idle Stage.stopped) same p

  drain-At :
      (fuel : ℕ) (x y : Executor A R Chan W S)
      → At Idle Stage.stopped x
      → drain tk act fuel x ≡ ok y
      → At Idle Stage.stopped y
  unfolding drain
  drain-At zero x y p h = cc
  drain-At (suc fuel) x y p h =
      on_drain-At (poll_recv tk act x.context.mailbox) x y (drain tk act fuel)
        (λ z q more. drain-At fuel z y q more) p h

  stop-At :
      (x y : Executor A R Chan W S)
      → At Idle Stage.stopped x
      → stop tk act x ≡ ok y
      → At Idle Stage.stopped y
  unfolding stop
  stop-At x y p h = elim (Bool-cases (has_children tk act x)) [
    | inl some_left ↦ cc (rw some_left at h)
    | inr alone ↦ drain-At (suc (length (tk.queue x.context.mailbox))) x y p (rw alone at h)
  ]

  stopped_phase-Over :
      (x y : Executor A R Chan W S)
      → At Idle Stage.stopping x
      → stopped_phase tk act x ≡ ok y
      → Over y.actor
  unfolding stopped_phase
  stopped_phase-Over x y p h =
      let x' = with_state tk act stopped x in
      let (z, first, h₁) = >>=-eq-ok (react tk act (act.on_stopped x'.actor) x') _ h in
      let (w, middle, last) = >>=-eq-ok (stop tk act z) _ h₁ in
      let q : At Idle Stage.stopped z =
        After-ok tk act (Idle Stage.stopped) (react tk act (act.on_stopped x'.actor) x') z
          (react-After tk act (Idle Stage.stopped) (act.on_stopped x'.actor) x'
            λ b ks e. st.on_stopped _ b ks p e)
          first in
      After-ok tk act Over (react tk act (act.on_end w.actor) w) y
        (react-After tk act Over (act.on_end w.actor) w
          λ b ks e. st.on_end _ b ks (stop-At z w q middle) e)
        last

  stopping_loop-At :
      (x : Executor A R Chan W S) (es : List (Event U)) (y : Executor A R Chan W S)
      (rest : List (Event U))
      → At Idle Stage.stopping x
      → stopping_loop tk act x es ≡ ready y rest
      → At Idle Stage.stopping y
  unfolding stopping_loop await_children
  stopping_loop-At x es y rest p h = elim (Bool-cases (has_children tk act x)) [
    | inl some_left ↦ waited (rw some_left at h)
    | inr alone ↦
        let same : with_mailbox tk act (tk.close x.context.mailbox) x ≡ y = cc (rw alone at h) in
        subst (At Idle Stage.stopping) same p
  ]
    where
      waited : await_children tk act x es ≡ ready y rest → At Idle Stage.stopping y
      waited h =
          let (q, later, done, last) =
            and_then-eq-ready (drive (stopping_turn tk act) (0, told tk act x) es)
              (λ q es'. ready q.1 es') h in
          let end : At Idle Stage.stopping q.1 =
            drive_rule (stopping_turn tk act) (Counting Idle) (Counting Idle)
              (λ r e z v went.
                subst (To (Counting Idle)) went
                  (stopping_turn-To tk act Fresh Idle Busy Done Over st r.0 r.1 e v))
              (λ r e z v went.
                subst (To (Counting Idle)) went
                  (stopping_turn-To tk act Fresh Idle Busy Done Over st r.0 r.1 e v))
              (0, told tk act x) es q later p done in
          let same : q.1 ≡ y = cc last in subst (At Idle Stage.stopping) same end

  shutdown_rest-Over :
      (x : Executor A R Chan W S) (es : List (Event U)) (y : Executor A R Chan W S)
      (rest : List (Event U))
      → At Idle Stage.serving x
      → shutdown_executor tk act x es ≡ ready y rest
      → Over y.actor
  unfolding shutdown_executor
  shutdown_rest-Over x es y rest p h =
      let x' = with_state tk act stopping x in
      let (z, es₁, h₁, later) =
        and_then-eq-ready (lift (react tk act (act.on_stopping x'.actor) x') es) _ h in
      let (w, es₂, h₂, last) = and_then-eq-ready (stopping_loop tk act z es₁) _ later in
      let q : At Idle Stage.stopping z =
        After-ok tk act (Idle Stage.stopping) (react tk act (act.on_stopping x'.actor) x') z
          (react-After tk act (Idle Stage.stopping) (act.on_stopping x'.actor) x'
            λ b ks e. st.on_stopping _ b ks p e)
          (lift-eq-ready (react tk act (act.on_stopping x'.actor) x') es h₁).0 in
      stopped_phase-Over w y (stopping_loop-At z es₁ w es₂ q h₂)
        (lift-eq-ready (stopped_phase tk act w) es₂ last).0

  -- What the callbacks and handlers of an actor keep up, if they are called in the order of the life
  -- cycle, holds of the actor at its end, whatever happens in between: `on_start` first; then any
  -- number of messages, each with `pre_run`, at most one handler and `post_run`; `on_stopping`, and
  -- messages; `on_stopped`, and messages; and `on_end` last.
  pub run_actor-Over :
      (x : Executor A R Chan W S) (es : List (Event U)) (y : Executor A R Chan W S)
      (sent : Option (ℕ × A)) (rest : List (Event U))
      → Fresh x.actor
      → run_actor tk act x es ≡ ready (y, sent) rest
      → Over y.actor
  unfolding run_actor
  run_actor-Over x es y sent rest p h =
      let (a, es₁, h₁, r₁) =
        and_then-eq-ready (lift (react tk act (act.on_start x.actor) x) es) _ h in
      let (b, es₂, h₂, r₂) = and_then-eq-ready (drive (actor_turn tk act) a es₁) _ r₁ in
      let (c, es₃, h₃, r₃) = and_then-eq-ready (shutdown_executor tk act b es₂) _ r₂ in
      let first : At Idle Stage.serving a =
        After-ok tk act (Idle Stage.serving) (react tk act (act.on_start x.actor) x) a
          (react-After tk act (Idle Stage.serving) (act.on_start x.actor) x
            λ d ks e. st.on_start _ d ks p e)
          (lift-eq-ready (react tk act (act.on_start x.actor) x) es h₁).0 in
      let served : At Idle Stage.serving b =
        drive_rule (actor_turn tk act) (At Idle Stage.serving) (At Idle Stage.serving)
          (λ z e w v went.
            subst (To (At Idle Stage.serving)) went
              (actor_turn-To tk act Fresh Idle Busy Done Over st z e v))
          (λ z e w v went.
            subst (To (At Idle Stage.serving)) went
              (actor_turn-To tk act Fresh Idle Busy Done Over st z e v))
          a es₁ b es₂ first h₂ in
      let over : Over c.actor = shutdown_rest-Over b es₂ c es₃ served h₃ in
      let same : (take_sender tk act c).0 ≡ y = cc r₃ in subst (λ z. Over z.actor) same over

  -- The same of a supervised actor.
  pub run_supervised_actor-Over :
      (x : Executor A R Chan W S) (es : List (Event U)) (y : Executor A R Chan W S)
      (rest : List (Event U))
      → Fresh x.actor
      → run_supervised_actor tk act x es ≡ ready y rest
      → Over y.actor
  unfolding run_supervised_actor
  run_supervised_actor-Over x es y rest p h =
      let start = react tk act (act.on_start x.actor) x in
      let (a, es₁, h₁, r₁) = and_then-eq-ready (lift (start >>= check tk act) es) _ h in
      let (b, es₂, h₂, r₂) = and_then-eq-ready (drive (supervised_turn tk act) a es₁) _ r₁ in
      let (a', first, checked) =
        >>=-eq-ok start (check tk act) (lift-eq-ready (start >>= check tk act) es h₁).0 in
      let ready_ : At Idle Stage.serving a' =
        After-ok tk act (Idle Stage.serving) start a'
          (react-After tk act (Idle Stage.serving) (act.on_start x.actor) x
            λ d ks e. st.on_start _ d ks p e)
          first in
      let begun : At Idle Stage.serving a =
        subst (Idle Stage.serving)
          (sym (actor-check tk act Fresh Idle Busy Done Over st a' a checked)) ready_ in
      let turn = supervised_turn-To tk act Fresh Idle Busy Done Over st in
      let served : At Idle Stage.serving b =
        drive_rule (supervised_turn tk act) (At Idle Stage.serving) (At Idle Stage.serving)
          (λ z e w v went. subst (To (At Idle Stage.serving)) went (turn z e v))
          (λ z e w v went. subst (To (At Idle Stage.serving)) went (turn z e v)) a es₁ b es₂ begun
          h₂ in
      shutdown_rest-Over b es₂ y rest served r₂

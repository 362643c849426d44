-- ===== src/Executor/Throughout/Life.antt =====
-- src/executor.rs: from the steps of the loops to the whole life of an actor.
use tokactor.Common.{ℕ, suc, ◌≡◌, subst, Option, List, ok, >>=-eq-ok, length, inl, inr, Bool-cases}
use tokactor.Tokio.{Tokio}
use tokactor.Message.{SendMessage, stopping, stopped}
use tokactor.Actor.{Actor}
use tokactor.Executor.{Executor, react}
use tokactor.Executor.Awaits.{Event, ready, drive, lift}
use tokactor.Executor.Loops.{
  with_mailbox, with_state, actor_turn, has_children, stopping_turn, told, await_children,
  stopping_loop, stop, stopped_phase, shutdown_executor, take_sender, run_actor,
}
use tokactor.Executor.Schedule.{and_then-eq-ready, lift-eq-ready, drive_rule}
use tokactor.Executor.Turns.{To}
use tokactor.Executor.Throughout.{Steps, Goes, actor_turn-P, stopping_turn-Goes, drain-P}

module _ {A U R Chan W S : Type 0} (tk : Tokio (SendMessage U) Chan W S) (act : Actor A U R)
    (P : Executor A R Chan W S → Type 0) (st : Steps tk act P) where
  stop-P : (x y : Executor A R Chan W S) → P x → stop tk act x ≡ ok y → P y
  unfolding stop
  stop-P x y p h = elim (Bool-cases (has_children tk act x)) [
    | inl some_left ↦ cc (rw some_left at h)
    | inr alone ↦
        drain-P tk act P st.rounds (suc (length (tk.queue x.context.mailbox))) x y p (rw alone at h)
  ]

  pub stopped_phase-P : (x y : Executor A R Chan W S) → P x → stopped_phase tk act x ≡ ok y → P y
  unfolding stopped_phase
  stopped_phase-P x y p h =
      let x' = with_state tk act stopped x in
      let (z, first, h₁) = >>=-eq-ok (react tk act (act.on_stopped x'.actor) x') _ h in
      let (w, middle, last) = >>=-eq-ok (stop tk act z) _ h₁ in
      st.on_end w y (stop-P z w (st.on_stopped x' z (st.sets x stopped p) first) middle) last

  stopping_loop-P :
      (x : Executor A R Chan W S) (es : List (Event U)) (y : Executor A R Chan W S)
      (rest : List (Event U))
      → P x
      → stopping_loop tk act x es ≡ ready y rest
      → P y
  unfolding stopping_loop await_children
  stopping_loop-P x es y rest p h = elim (Bool-cases (has_children tk act x)) [
    | inl some_left ↦ waited (rw some_left at h)
    | inr alone ↦
        let same : with_mailbox tk act (tk.close x.context.mailbox) x ≡ y = cc (rw alone at h) in
        subst P same (st.closes x p)
  ]
    where
      waited : await_children tk act x es ≡ ready y rest → P y
      waited h =
          let (q, later, done, last) =
            and_then-eq-ready (drive (stopping_turn tk act) (0, told tk act x) es)
              (λ q es'. ready q.1 es') h in
          let end : P q.1 =
            drive_rule (stopping_turn tk act) (λ r. P r.1) (λ r. P r.1)
              (λ r e z v went.
                subst (Goes tk act P P st.rounds st.closes) went
                  (stopping_turn-Goes tk act P P st.rounds st.closes r.0 r.1 e v))
              (λ r e z v went.
                subst (Goes tk act P P st.rounds st.closes) went
                  (stopping_turn-Goes tk act P P st.rounds st.closes r.0 r.1 e v))
              (0, told tk act x) es q later (st.tells x p) done in
          let same : q.1 ≡ y = cc last in subst P same end

  pub shutdown_executor-P :
      (x : Executor A R Chan W S) (es : List (Event U)) (y : Executor A R Chan W S)
      (rest : List (Event U))
      → P x
      → shutdown_executor tk act x es ≡ ready y rest
      → P y
  unfolding shutdown_executor
  shutdown_executor-P x es y rest p h =
      let x' = with_state tk act stopping x in
      let (z, es₁, h₁, later) =
        and_then-eq-ready (lift (react tk act (act.on_stopping x'.actor) x') es) _ h in
      let (w, es₂, h₂, last) = and_then-eq-ready (stopping_loop tk act z es₁) _ later in
      let ran = (lift-eq-ready (react tk act (act.on_stopping x'.actor) x') es h₁).0 in
      stopped_phase-P w y
        (stopping_loop-P z es₁ w es₂ (st.on_stopping x' z (st.sets x stopping p) ran) h₂)
        (lift-eq-ready (stopped_phase tk act w) es₂ last).0

  -- What the steps keep up, and holds once the actor has started, holds of the executor at its end,
  -- from which the oneshot sender is then taken.
  pub run_actor-P :
      (x : Executor A R Chan W S) (es : List (Event U)) (y : Executor A R Chan W S)
      (sent : Option (ℕ × A)) (rest : List (Event U))
      → ((z : Executor A R Chan W S) → react tk act (act.on_start x.actor) x ≡ ok z → P z)
      → run_actor tk act x es ≡ ready (y, sent) rest
      → (w : Executor A R Chan W S) × P w × (take_sender tk act w ≡ (y, sent))
  unfolding run_actor
  run_actor-P x es y sent rest p h =
      let (a, es₁, h₁, r₁) =
        and_then-eq-ready (lift (react tk act (act.on_start x.actor) x) es) _ h in
      let (b, es₂, h₂, r₂) = and_then-eq-ready (drive (actor_turn tk act) a es₁) _ r₁ in
      let (c, es₃, h₃, r₃) = and_then-eq-ready (shutdown_executor tk act b es₂) _ r₂ in
      let first = p a (lift-eq-ready (react tk act (act.on_start x.actor) x) es h₁).0 in
      let served : P b =
        drive_rule (actor_turn tk act) P P
          (λ z e w v went. subst (To P) went (actor_turn-P tk act P st.rounds z e v))
          (λ z e w v went. subst (To P) went (actor_turn-P tk act P st.rounds z e v)) a es₁ b es₂
          first h₂ in
      (c, shutdown_executor-P b es₂ c es₃ served h₃, cc r₃)

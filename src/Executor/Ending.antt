-- ===== src/Executor/Ending.antt =====
-- src/executor.rs, `shutdown` as a whole and the two ways to run an actor that end with it.
use tokactor.Common.{
  ℕ, ◌+◌, ◌≤◌, ◌≡◌, refl, ◌∙◌, subst, true, Option, none, some, List, [], Flow, ok, panicked,
  blocked, >>=-eq-ok, ◌==◌, if◌then◌else◌, arith, ◌⊎◌, inl, inr, Bool-cases,
}
use tokactor.Tokio.{Tokio, TokioLaws}
use tokactor.Message.{
  ActorState, running, stopping, stopped, SendMessage, IntoFutureSender, into_inner,
}
use tokactor.Actor.{Actor, Command}
use tokactor.Context.{Ctx, drop_ctx}
use tokactor.Context.State.{rank}
use tokactor.Executor.{ExecutorLoop, Executor, react, process_message}
use tokactor.Executor.Awaits.{
  Event, wakes, sleeps, leave, Outcome, ready, Polled, got, ended, waits, drive, lift,
}
use tokactor.Executor.Loops.{
  poll_recv, with_mailbox, with_state, has_children, stopping_turn, stopping_loop, await_children,
  told, stop, stopped_phase, shutdown_executor, take_sender, handed, close_if_alone,
  after_stopping_message, on_stopping_recv, run_actor, actor_turn,
}
use tokactor.Executor.Reaching.{Progress, react-Reaches, Reaches}
use tokactor.Executor.Shutdown.{stop-Drained}
use tokactor.Executor.Schedule.{and_then-eq-ready, lift-eq-ready, drive_rule}

module _ {U R Chan W S : Type 0} (tk : Tokio (SendMessage U) Chan W S) where
  -- A context whose actor has ended.
  pub record Ended (c : Ctx R Chan W S) : Type 0 where
    pub state : c.state ≡ stopped
    pub closed : tk.is_closed c.mailbox ≡ true
    pub empty : tk.queue c.mailbox ≡ []

module _ {A U R Chan W S : Type 0} (tk : Tokio (SendMessage U) Chan W S) (act : Actor A U R)
    (laws : TokioLaws tk) where
  pub react-Progress :
      (r : Option (A × List Command)) (x y : Executor A R Chan W S)
      → react tk act r x ≡ ok y
      → Progress tk x.context y.context
  react-Progress r x y h = subst (Reaches tk act laws x.context) h (react-Reaches tk act laws r x)

  -- The loop for the children ends with none of them left, and with the mailbox closed.
  abbrev Alone : Executor A R Chan W S → Type 0
  Alone x = (tk.receivers x.context.notifier ≡ 0) × (tk.is_closed x.context.mailbox ≡ true)

  close_if_alone-Alone :
      (n : ℕ) (x : Executor A R Chan W S) (p : ℕ × Executor A R Chan W S)
      → close_if_alone tk act n x ≡ leave p
      → Alone p.1
  close_if_alone-Alone n x p h = ground (arith, laws.is_closed-close x.context.mailbox)

  message-Alone :
      (n : ℕ) (r : Flow (Executor A R Chan W S × ExecutorLoop)) (p : ℕ × Executor A R Chan W S)
      → after_stopping_message tk act n r ≡ leave p
      → Alone p.1
  message-Alone n (ok (x, l)) p h = close_if_alone-Alone n x p h
  message-Alone n panicked p h = cc
  message-Alone n blocked p h = cc

  recv-Alone :
      (n : ℕ) (q : Polled U Chan) (x : Executor A R Chan W S) (p : ℕ × Executor A R Chan W S)
      → on_stopping_recv tk act n q x ≡ leave p
      → Alone p.1
  recv-Alone n (got m c) x p h =
      message-Alone n (process_message tk act (with_mailbox tk act c x) m) p h
  recv-Alone n ended x p h = close_if_alone-Alone n x p h
  recv-Alone n waits x p h = cc

  stopping_turn-Alone :
      (n : ℕ) (x : Executor A R Chan W S) (e : Event U) (p : ℕ × Executor A R Chan W S)
      → stopping_turn tk act (n, x) e ≡ leave p
      → Alone p.1
  unfolding stopping_turn
  stopping_turn-Alone n x wakes p h = recv-Alone n (poll_recv tk act x.context.mailbox) x p h
  stopping_turn-Alone n x sleeps p h = elim (Bool-cases (n == 10)) [
    | inl last ↦ ground arith
    | inr more ↦ close_if_alone-Alone (n + 1) x p (rw more at h)
  ]
  stopping_turn-Alone n x e p h = cc

  await_children-Alone :
      (x : Executor A R Chan W S) (es : List (Event U)) (y : Executor A R Chan W S)
      (rest : List (Event U))
      → await_children tk act x es ≡ ready y rest
      → Alone y
  unfolding await_children
  await_children-Alone x es y rest h =
      let (p, later, done, last) =
        and_then-eq-ready (drive (stopping_turn tk act) (0, told tk act x) es)
          (λ q es'. ready q.1 es') h in
      let alone : Alone p.1 =
        drive_rule (stopping_turn tk act) (λ _. Unit {0}) (λ q. Alone q.1) (λ _ _ _ _ _. tt)
          (λ q e r _ went. stopping_turn-Alone q.0 q.1 e r went) (0, told tk act x) es p later tt
          done in
      let same : p.1 ≡ y = cc last in subst Alone same alone

  -- When `stopping` returns, no child is left and the mailbox is closed.
  pub stopping_loop-Alone :
      (x : Executor A R Chan W S) (es : List (Event U)) (y : Executor A R Chan W S)
      (rest : List (Event U))
      → stopping_loop tk act x es ≡ ready y rest
      → (tk.receivers y.context.notifier ≡ 0) × (tk.is_closed y.context.mailbox ≡ true)
  unfolding stopping_loop
  stopping_loop-Alone x es y rest h = elim (Bool-cases (has_children tk act x)) [
    | inl waiting ↦ await_children-Alone x es y rest (rw waiting at h)
    | inr alone ↦ ground (arith, laws.is_closed-close x.context.mailbox)
  ]

  rank-top : (s : ActorState) → 2 ≤ rank s → s ≡ stopped
  rank-top running h = absurd (omega arith)
  rank-top stopping h = absurd (omega arith)
  rank-top stopped h = refl

  stopped_phase-Ended :
      (x y : Executor A R Chan W S)
      → tk.is_closed x.context.mailbox ≡ true
      → stopped_phase tk act x ≡ ok y
      → Ended tk y.context
  unfolding stopped_phase
  stopped_phase-Ended x y shut h =
      let x' = with_state tk act stopped x in
      let (z, first, h₁) = >>=-eq-ok (react tk act (act.on_stopped x'.actor) x') _ h in
      let (w, middle, h₂) = >>=-eq-ok (stop tk act z) _ h₁ in
      let p = react-Progress (act.on_stopped x'.actor) x' z first in
      let d = stop-Drained tk act laws z w (p.closed shut) middle in
      let q = react-Progress (act.on_end w.actor) w y h₂ in
      record {
        state = rank-top y.context.state (omega (arith, p.state, d.state, q.state));
        closed = q.closed d.closed;
        empty = q.sealed d.closed ∙ d.empty;
      }

  -- However the surroundings interleave, an actor whose shutdown has returned is `Stopped`, and
  -- its mailbox is closed and empty.
  pub shutdown_executor-Ended :
      (x : Executor A R Chan W S) (es : List (Event U)) (y : Executor A R Chan W S)
      (rest : List (Event U))
      → shutdown_executor tk act x es ≡ ready y rest
      → Ended tk y.context
  unfolding shutdown_executor
  shutdown_executor-Ended x es y rest h =
      let x' = with_state tk act stopping x in
      let (z, es₁, h₁, later) =
        and_then-eq-ready (lift (react tk act (act.on_stopping x'.actor) x') es) _ h in
      let (w, es₂, h₂, last) = and_then-eq-ready (stopping_loop tk act z es₁) _ later in
      stopped_phase-Ended w y (stopping_loop-Alone z es₁ w es₂ h₂).1
        (lift-eq-ready (stopped_phase tk act w) es₂ last).0

  pub ready-injective :
      {X : Type 0} {p q : X} {es rest : List (Event U)}
      → ◌≡◌ {A = Outcome U X} (ready p es) (ready q rest)
      → p ≡ q
  ready-injective h = cc

  -- What `run_actor` comes to: the actor has ended, nobody waits for it any more, its context can be
  -- dropped unless a task still watches it, and if a oneshot sender was left with the context, the
  -- final actor itself was sent to it.
  pub record Finished (y : Executor A R Chan W S) (sent : Option (ℕ × A)) : Type 0 where
    pub ended : Ended tk y.context
    pub awaited : y.context.into_future_sender ≡ none
    pub dropped :
        drop_ctx tk y.context ≡ (if tk.receivers y.context.notifier == 0 then ok tt else panicked)
    pub delivered : (sent ≡ none) ⊎ ((tx : ℕ) × (sent ≡ some (tx, y.actor)))

  Ended-drop :
      (c : Ctx R Chan W S)
      → Ended tk c
      → c.into_future_sender ≡ none
      → drop_ctx tk c ≡ (if tk.receivers c.notifier == 0 then ok tt else panicked)
  unfolding drop_ctx
  Ended-drop c v e = rw (v.state, e) refl

  handed-actor :
      (o : Option IntoFutureSender) (a : A)
      → (handed tk act o a ≡ none) ⊎ ((tx : ℕ) × (handed tk act o a ≡ some (tx, a)))
  handed-actor none a = inl refl
  handed-actor (some tx) a = inr (into_inner tx, refl)

  pub take_sender-Finished :
      (x y : Executor A R Chan W S) (sent : Option (ℕ × A))
      → Ended tk x.context
      → take_sender tk act x ≡ (y, sent)
      → Finished y sent
  take_sender-Finished x y sent v h =
      let over : Ended tk (take_sender tk act x).0.context = ground (arith, v) in
      subst (λ p. Finished p.0 p.1) h
        (record {
          ended = over;
          awaited = refl;
          dropped = Ended-drop (take_sender tk act x).0.context over refl;
          delivered = handed-actor x.context.into_future_sender x.actor;
        })

  -- When the task of an unsupervised actor is over, its actor is `Stopped` with a closed and empty
  -- mailbox, nobody is left who awaits it, and if the actor was sent to somebody, then in its final
  -- state. Dropping its context passes the assertions of `Drop for Ctx` if nothing watches its
  -- notifier any more, and panics otherwise.
  pub run_actor-Finished :
      (x : Executor A R Chan W S) (es : List (Event U)) (y : Executor A R Chan W S)
      (sent : Option (ℕ × A)) (rest : List (Event U))
      → run_actor tk act x es ≡ ready (y, sent) rest
      → Finished y sent
  unfolding run_actor
  run_actor-Finished x es y sent rest h =
      let (a, es₁, h₁, r₁) =
        and_then-eq-ready (lift (react tk act (act.on_start x.actor) x) es) _ h in
      let (b, es₂, h₂, r₂) = and_then-eq-ready (drive (actor_turn tk act) a es₁) _ r₁ in
      let (c, es₃, h₃, r₃) = and_then-eq-ready (shutdown_executor tk act b es₂) _ r₂ in
      take_sender-Finished c y sent (shutdown_executor-Ended b es₂ c es₃ h₃) (ready-injective r₃)

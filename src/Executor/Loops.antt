-- ===== src/Executor/Loops.antt =====
-- src/executor.rs: the loops of an actor, along schedules of what happens at their awaits.
use tokactor.Common.{
  ℕ, zero, suc, ◌+◌, Bool, true, false, Option, none, some, List, length, Flow, ok, panicked,
  blocked, ◌>>=◌, if◌then◌else◌, ◌==◌,
}
use tokactor.Tokio.{Tokio, SupervisorMessage}
use tokactor.Message.{SendMessage, ActorState, stopping, stopped, into_inner, IntoFutureSender}
use tokactor.Actor.{Actor}
use tokactor.Executor.{
  ExecutorLoop, continue, break, Executor, check_anonymous_actors, react, process_message,
}
use tokactor.Executor.Awaits.{
  Event, delivers, child_exits, permit_returns, wakes, sleeps, notified, supervisor_dropped, Turn,
  stay, leave, crash, hang, Outcome, ready, drive, lift, and_then, Polled, got, ended, waits,
  polled,
}

module _ {A U R Chan W S : Type 0} (tk : Tokio (SendMessage U) Chan W S) (act : Actor A U R) where
  abbrev pub poll_recv : Chan → Polled U Chan
  poll_recv c = polled (tk.try_recv c) (tk.is_closed c)

  abbrev pub with_mailbox : Chan → Executor A R Chan W S → Executor A R Chan W S
  with_mailbox c x = record x { context = record x.context { mailbox = c } }

  abbrev pub with_state : ActorState → Executor A R Chan W S → Executor A R Chan W S
  with_state s x = record x { context = record x.context { state = s } }

  -- What the other tasks do to the handles that the context shares with them.
  abbrev pub surroundings : Event U → Executor A R Chan W S → Executor A R Chan W S
  surroundings (delivers m) x = with_mailbox (tk.try_send m x.context.mailbox).1 x
  surroundings child_exits x = record x {
    context = record x.context { notifier = tk.drop_receiver x.context.notifier };
  }
  surroundings permit_returns x = record x {
    context = record x.context { max_anonymous_actors = tk.release x.context.max_anonymous_actors };
  }
  surroundings _ x = x

  abbrev pub check : Executor A R Chan W S → Flow (Executor A R Chan W S)
  check x = check_anonymous_actors tk act x.context >>= λ c. ok (record x { context = c })

  abbrev pub next : Flow (Executor A R Chan W S × ExecutorLoop) → Turn (Executor A R Chan W S)
  next (ok (x, continue)) = stay x
  next (ok (x, break)) = leave x
  next panicked = crash
  next blocked = hang

  abbrev pub on_recv : Polled U Chan → Executor A R Chan W S → Turn (Executor A R Chan W S)
  on_recv (got m c) x = next (check (with_mailbox c x) >>= λ y. process_message tk act y m)
  on_recv ended x = leave x
  on_recv waits x = stay x

  -- One round of `while let Some(msg) = mailbox.recv().await` of `run_actor`.
  unfoldable pub actor_turn : Executor A R Chan W S → Event U → Turn (Executor A R Chan W S)
  actor_turn x wakes = on_recv (poll_recv x.context.mailbox) x
  actor_turn x e = stay (surroundings e x)

  -- A supervised actor checks its anonymous actors before each wait, so after each turn that
  -- goes on.
  abbrev pub recheck :
      Flow (Executor A R Chan W S × ExecutorLoop) → Flow (Executor A R Chan W S × ExecutorLoop)
  recheck (ok (x, continue)) = check x >>= λ y. ok (y, continue)
  recheck other = other

  abbrev pub on_supervised_recv :
      Polled U Chan → Executor A R Chan W S → Turn (Executor A R Chan W S)
  on_supervised_recv (got m c) x = next (recheck (process_message tk act (with_mailbox c x) m))
  on_supervised_recv ended x = leave x
  on_supervised_recv waits x = stay x

  -- One round of the loop of `run_supervised_actor`, with `handle_supervised_message`.
  unfoldable pub supervised_turn : Executor A R Chan W S → Event U → Turn (Executor A R Chan W S)
  supervised_turn x (notified (some SupervisorMessage.shutdown)) = leave x
  supervised_turn x (notified none) = next (check x >>= λ y. ok (y, continue))
  supervised_turn x supervisor_dropped = crash
  supervised_turn x wakes = on_supervised_recv (poll_recv x.context.mailbox) x
  supervised_turn x e = stay (surroundings e x)

  abbrev pub has_children : Executor A R Chan W S → Bool
  has_children x = if tk.receivers x.context.notifier == 0 then false else true

  -- "If all of our children have died"
  abbrev pub close_if_alone : ℕ → Executor A R Chan W S → Turn (ℕ × Executor A R Chan W S)
  close_if_alone n x =
      if has_children x then stay (n, x) else leave (n, with_mailbox (tk.close x.context.mailbox) x)

  abbrev pub after_stopping_message :
      ℕ → Flow (Executor A R Chan W S × ExecutorLoop) → Turn (ℕ × Executor A R Chan W S)
  after_stopping_message n (ok (x, _)) = close_if_alone n x
  after_stopping_message n panicked = crash
  after_stopping_message n blocked = hang

  abbrev pub on_stopping_recv :
      ℕ → Polled U Chan → Executor A R Chan W S → Turn (ℕ × Executor A R Chan W S)
  on_stopping_recv n (got m c) x =
      after_stopping_message n (process_message tk act (with_mailbox c x) m)
  on_stopping_recv n ended x = close_if_alone n x
  on_stopping_recv n waits x = stay (n, x)

  -- One round of the loop of `stopping`; the number is `timeout_counter`.
  unfoldable pub stopping_turn :
      ℕ × Executor A R Chan W S → Event U → Turn (ℕ × Executor A R Chan W S)
  stopping_turn (n, x) wakes = on_stopping_recv n (poll_recv x.context.mailbox) x
  stopping_turn (n, x) sleeps = if n == 10 then crash else close_if_alone (n + 1) x
  stopping_turn (n, x) e = stay (n, surroundings e x)

  abbrev pub told : Executor A R Chan W S → Executor A R Chan W S
  told x = record x {
    context = record x.context {
      notifier = tk.notify SupervisorMessage.shutdown x.context.notifier;
    };
  }

  unfoldable pub await_children :
      Executor A R Chan W S → List (Event U) → Outcome U (Executor A R Chan W S)
  await_children x es = and_then (drive stopping_turn (0, told x) es) (λ p rest. ready p.1 rest)

  unfoldable pub stopping_loop :
      Executor A R Chan W S → List (Event U) → Outcome U (Executor A R Chan W S)
  stopping_loop x es =
      if has_children x
      then await_children x es
      else ready (with_mailbox (tk.close x.context.mailbox) x) es

  abbrev pub on_drain :
      Polled U Chan
      → Executor A R Chan W S
      → (Executor A R Chan W S → Flow (Executor A R Chan W S))
      → Flow (Executor A R Chan W S)
  on_drain (got m c) x rest = process_message tk act (with_mailbox c x) m >>= λ p. rest p.0
  on_drain _ x rest = ok x

  -- `while let Ok(msg) = mailbox.try_recv()` of `stop`, with fuel.
  unfoldable pub drain : ℕ → Executor A R Chan W S → Flow (Executor A R Chan W S)
  drain zero x = blocked
  drain (suc fuel) x = on_drain (poll_recv x.context.mailbox) x (drain fuel)

  unfoldable pub stop : Executor A R Chan W S → Flow (Executor A R Chan W S)
  stop x = if has_children x then panicked else drain (suc (length (tk.queue x.context.mailbox))) x

  -- `shutdown` after its wait for the children.
  unfoldable pub stopped_phase : Executor A R Chan W S → Flow (Executor A R Chan W S)
  stopped_phase x = do
    let y = with_state stopped x
    z ← react tk act (act.on_stopped y.actor) y
    w ← stop z
    react tk act (act.on_end w.actor) w

  unfoldable pub shutdown_executor :
      Executor A R Chan W S → List (Event U) → Outcome U (Executor A R Chan W S)
  unfolding stopped_phase
  shutdown_executor x es =
      let y = with_state stopping x in
      and_then (lift (react tk act (act.on_stopping y.actor) y) es)
        λ z rest. and_then (stopping_loop z rest) λ w later. lift (stopped_phase w) later

  abbrev pub handed : Option IntoFutureSender → A → Option (ℕ × A)
  handed none a = none
  handed (some tx) a = some (into_inner tx, a)

  -- `into_future_sender.take()`, and the actor is sent to it
  abbrev pub take_sender : Executor A R Chan W S → Executor A R Chan W S × Option (ℕ × A)
  take_sender x = (
    record x { context = record x.context { into_future_sender = none } },
    handed x.context.into_future_sender x.actor,
  )

  -- The result says to which oneshot channel the actor was sent, if to any.
  unfoldable pub run_actor :
      Executor A R Chan W S → List (Event U) → Outcome U (Executor A R Chan W S × Option (ℕ × A))
  run_actor x es = and_then (lift (react tk act (act.on_start x.actor) x) es) λ y rest.
      and_then (drive actor_turn y rest)
        λ z later. and_then (shutdown_executor z later) λ w last. ready (take_sender w) last

  unfoldable pub run_supervised_actor :
      Executor A R Chan W S → List (Event U) → Outcome U (Executor A R Chan W S)
  run_supervised_actor x es =
      and_then (lift (react tk act (act.on_start x.actor) x >>= check) es)
        λ y rest. and_then (drive supervised_turn y rest) shutdown_executor

-- ===== src/Executor/Exits.antt =====
-- src/executor.rs, `stopping`: whom the shutdown of an actor waits for.
use tokactor.Common.{
  false, ℕ, suc, ◌+◌, ◌-◌, ◌≤◌, ◌≡◌, refl, ap, List, [], ◌∷◌, Flow, ok, panicked, blocked, ◌==◌,
  arith, inl, inr, Bool-cases,
}
use tokactor.Tokio.{Tokio, TokioLaws, SupervisorMessage}
use tokactor.Message.{SendMessage, stopping}
use tokactor.Actor.{Actor}
use tokactor.Executor.{ExecutorLoop, Executor, react, process_message}
use tokactor.Executor.Awaits.{
  Event, delivers, child_exits, permit_returns, wakes, sleeps, notified, supervisor_dropped, Turn,
  stay, leave, crash, hang, ready, panics, hangs, drive, lift, Polled, got, ended, waits,
}
use tokactor.Executor.Loops.{
  poll_recv, with_mailbox, with_state, has_children, stopping_turn, stopping_loop, await_children,
  told, close_if_alone, after_stopping_message, on_stopping_recv, shutdown_executor,
}
use tokactor.Executor.Ending.{react-Progress}
use tokactor.Executor.Progress.{process_message-Progress}
use tokactor.Executor.Schedule.{and_then-eq-ready, lift-eq-ready}

-- How often a task that watches the actor ends.
unfoldable pub exits : {U : Type 0} → List (Event U) → ℕ
exits [] = 0
exits (child_exits ∷ es) = suc (exits es)
exits (delivers m ∷ es) = exits es
exits (permit_returns ∷ es) = exits es
exits (wakes ∷ es) = exits es
exits (sleeps ∷ es) = exits es
exits (notified n ∷ es) = exits es
exits (supervisor_dropped ∷ es) = exits es

module _ {A U R Chan W S : Type 0} (tk : Tokio (SendMessage U) Chan W S) (act : Actor A U R)
    (laws : TokioLaws tk) where
  abbrev pub watchers : Executor A R Chan W S → ℕ
  watchers x = tk.receivers x.context.notifier

  -- A turn leaves so many watchers at least, and ends the loop with none.
  abbrev pub Keeps : ℕ → Turn (ℕ × Executor A R Chan W S) → Type 0
  Keeps k (stay p) = k ≤ watchers p.1
  Keeps k (leave p) = k ≤ 0
  Keeps k crash = Unit
  Keeps k hang = Unit

  pub alone_lem : (x : Executor A R Chan W S) → has_children tk act x ≡ false → watchers x ≡ 0
  alone_lem x h = ground arith

  close-Keeps :
      (k n : ℕ) (x : Executor A R Chan W S) → k ≤ watchers x → Keeps k (close_if_alone tk act n x)
  close-Keeps k n x h = elim (Bool-cases (has_children tk act x)) [
    | inl some_left ↦ rw some_left h
    | inr alone ↦ rw alone (omega (arith, h, alone_lem x alone))
  ]

  message-Keeps :
      (k n : ℕ) (x : Executor A R Chan W S) (m : SendMessage U)
      (r : Flow (Executor A R Chan W S × ExecutorLoop))
      → process_message tk act x m ≡ r
      → k ≤ watchers x
      → Keeps k (after_stopping_message tk act n r)
  message-Keeps k n x m (ok (y, l)) e h =
      close-Keeps k n y
        (omega (arith, h, (process_message-Progress tk act laws x m y l e).0.receivers))
  message-Keeps k n x m panicked e h = tt
  message-Keeps k n x m blocked e h = tt

  recv-Keeps :
      (k n : ℕ) (q : Polled U Chan) (x : Executor A R Chan W S)
      → k ≤ watchers x
      → Keeps k (on_stopping_recv tk act n q x)
  recv-Keeps k n (got m c) x h = message-Keeps k n (with_mailbox tk act c x) m _ refl h
  recv-Keeps k n ended x h = close-Keeps k n x h
  recv-Keeps k n waits x h = h

  -- The watchers that are left after this event.
  abbrev pub after : Event U → ℕ → ℕ
  after child_exits k = k - 1
  after _ k = k

  pub turn-Keeps :
      (k n : ℕ) (x : Executor A R Chan W S) (e : Event U)
      → k ≤ watchers x
      → Keeps (after e k) (stopping_turn tk act (n, x) e)
  unfolding stopping_turn
  turn-Keeps k n x wakes h = recv-Keeps k n (poll_recv tk act x.context.mailbox) x h
  turn-Keeps k n x sleeps h = elim (Bool-cases (n == 10)) [
    | inl last ↦ rw last tt
    | inr more ↦ rw more (close-Keeps k (n + 1) x h)
  ]
  turn-Keeps k n x child_exits h = omega (arith, h, laws.receivers-drop x.context.notifier)
  turn-Keeps k n x (delivers m) h = h
  turn-Keeps k n x permit_returns h = h
  turn-Keeps k n x (notified m) h = h
  turn-Keeps k n x supervisor_dropped h = h

  exits-after :
      (e : Event U) (es : List (Event U)) (k : ℕ) → after e k ≤ exits es → k ≤ exits (e ∷ es)
  unfolding exits
  exits-after child_exits es k h = omega (arith, h)
  exits-after wakes es k h = h
  exits-after sleeps es k h = h
  exits-after (delivers m) es k h = h
  exits-after permit_returns es k h = h
  exits-after (notified m) es k h = h
  exits-after supervisor_dropped es k h = h

  drive-exits :
      (k : ℕ) (p q : ℕ × Executor A R Chan W S) (es rest : List (Event U))
      → k ≤ watchers p.1
      → drive (stopping_turn tk act) p es ≡ ready q rest
      → k ≤ exits es
  unfolding drive
  drive-exits k p q [] rest h d = cc
  drive-exits k p q (e ∷ es) rest h d = exits-after e es k (
      turned (stopping_turn tk act p e) (turn-Keeps k p.0 p.1 e h)
        (λ z kept d'. drive-exits (after e k) z q es rest kept d') d)
    where
      turned :
          (t : Turn (ℕ × Executor A R Chan W S))
          → Keeps (after e k) t
          → ((z : ℕ × Executor A R Chan W S)
              → after e k ≤ watchers z.1
              → drive (stopping_turn tk act) z es ≡ ready q rest
              → after e k ≤ exits es)
          → (elim t [
            | stay z ↦ drive (stopping_turn tk act) z es
            | leave z ↦ ready z es
            | crash ↦ panics
            | hang ↦ hangs
          ])
            ≡ ready q rest
          → after e k ≤ exits es
      turned (stay z) kept later d = later z kept d
      turned (leave z) kept later d = omega (arith, kept)
      turned crash kept later d = cc
      turned hang kept later d = cc

  stopping_loop-exits :
      (x y : Executor A R Chan W S) (es rest : List (Event U))
      → stopping_loop tk act x es ≡ ready y rest
      → watchers x ≤ exits es
  unfolding stopping_loop await_children
  stopping_loop-exits x y es rest h = elim (Bool-cases (has_children tk act x)) [
    | inl some_left ↦
        let (p, later, d, last) =
          and_then-eq-ready (drive (stopping_turn tk act) (0, told tk act x) es)
            (λ q es'. ready q.1 es') (rw some_left at h) in
        drive-exits (watchers x) (0, told tk act x) p es later
          (omega (arith, laws.receivers-notify SupervisorMessage.shutdown x.context.notifier)) d
    | inr alone ↦ omega (arith, alone_lem x alone)
  ]

  -- An actor's shutdown returns only once every task that watches it has ended: as many of them end
  -- on the way as watched it at its beginning, at least.
  pub shutdown_executor-exits :
      (x y : Executor A R Chan W S) (es rest : List (Event U))
      → shutdown_executor tk act x es ≡ ready y rest
      → tk.receivers x.context.notifier ≤ exits es
  unfolding shutdown_executor
  shutdown_executor-exits x y es rest h =
      let x' = with_state tk act stopping x in
      let (z, es₁, h₁, later) =
        and_then-eq-ready (lift (react tk act (act.on_stopping x'.actor) x') es) _ h in
      let (w, es₂, h₂, last) = and_then-eq-ready (stopping_loop tk act z es₁) _ later in
      let (ran, same) = lift-eq-ready (react tk act (act.on_stopping x'.actor) x') es h₁ in
      let p = react-Progress tk act laws (act.on_stopping x'.actor) x' z ran in
      omega (arith, p.receivers, stopping_loop-exits z w es₁ es₂ h₂, ap exits same)

-- ===== src/Executor/Turns.antt =====
-- src/executor.rs: what a turn of each loop of an actor keeps up, if its callbacks and handlers do.
use tokactor.Common.{
  ℕ, ◌+◌, ◌≡◌, refl, sym, ap, subst, none, some, Flow, ok, panicked, blocked, ◌>>=◌, >>=-eq-ok,
  ◌==◌, inl, inr, Bool-cases,
}
use tokactor.Tokio.{Tokio, SupervisorMessage}
use tokactor.Message.{SendMessage}
use tokactor.Actor.{Actor}
use tokactor.Executor.{
  Executor, ExecutorLoop, continue, break, process_message, check_anonymous_actors,
}
use tokactor.Executor.Awaits.{
  Event, delivers, child_exits, permit_returns, wakes, sleeps, notified, supervisor_dropped, Turn,
  stay, leave, crash, hang, Polled, got, ended, waits,
}
use tokactor.Executor.Loops.{
  poll_recv, with_mailbox, check, next, on_recv, actor_turn, supervised_turn, on_supervised_recv,
  recheck, has_children, close_if_alone, after_stopping_message, on_stopping_recv, stopping_turn,
}
use tokactor.Executor.Stages.{Stage, Stages, process_message-Idle}

-- Where a turn leads.
abbrev pub To : {X : Type 0} → (X → Type 0) → Turn X → Type 0
To P (stay x) = P x
To P (leave x) = P x
To P crash = Unit
To P hang = Unit

-- The actor is idle, in this stage.
abbrev pub At :
    {A R Chan W S : Type 0} → (Stage → A → Type 0) → Stage → Executor A R Chan W S → Type 0
At Idle s x = Idle s x.actor

abbrev pub Counting :
    {A R Chan W S : Type 0} → (Stage → A → Type 0) → ℕ × Executor A R Chan W S → Type 0
Counting Idle p = Idle Stage.stopping p.1.actor

module _ {A U R Chan W S : Type 0} (tk : Tokio (SendMessage U) Chan W S) (act : Actor A U R)
    (Fresh : A → Type 0) (Idle Busy Done : Stage → A → Type 0) (Over : A → Type 0)
    (st : Stages act Fresh Idle Busy Done Over) where
  pub actor-check : (x y : Executor A R Chan W S) → check tk act x ≡ ok y → y.actor ≡ x.actor
  actor-check x y h =
      let (c, ran, made) = >>=-eq-ok (check_anonymous_actors tk act x.context) _ h in
      let same : record x { context = c } ≡ y = cc made in ap (λ z. z.actor) (sym same)

  next-To :
      (P : Executor A R Chan W S → Type 0) (r : Flow (Executor A R Chan W S × ExecutorLoop))
      → ((y : Executor A R Chan W S) (l : ExecutorLoop) → r ≡ ok (y, l) → P y)
      → To P (next tk act r)
  next-To P (ok (y, continue)) p = p y continue refl
  next-To P (ok (y, break)) p = p y break refl
  next-To P panicked p = tt
  next-To P blocked p = tt

  recv-To :
      (q : Polled U Chan) (x : Executor A R Chan W S)
      → At Idle Stage.serving x
      → To (At Idle Stage.serving) (on_recv tk act q x)
  recv-To (got m c) x p = next-To (At Idle Stage.serving) _ λ y l h.
      let (z, checked, ran) = >>=-eq-ok (check tk act (with_mailbox tk act c x)) _ h in
      process_message-Idle tk act Fresh Idle Busy Done Over st Stage.serving z m y l
        (subst (Idle Stage.serving) (sym (actor-check _ z checked)) p) ran
  recv-To ended x p = p
  recv-To waits x p = p

  pub actor_turn-To :
      (x : Executor A R Chan W S) (e : Event U)
      → At Idle Stage.serving x
      → To (At Idle Stage.serving) (actor_turn tk act x e)
  unfolding actor_turn
  actor_turn-To x wakes p = recv-To (poll_recv tk act x.context.mailbox) x p
  actor_turn-To x (delivers m) p = p
  actor_turn-To x child_exits p = p
  actor_turn-To x permit_returns p = p
  actor_turn-To x sleeps p = p
  actor_turn-To x (notified n) p = p
  actor_turn-To x supervisor_dropped p = p

  recheck-To :
      (r : Flow (Executor A R Chan W S × ExecutorLoop))
      → ((y : Executor A R Chan W S) (l : ExecutorLoop) → r ≡ ok (y, l) → At Idle Stage.serving y)
      → To (At Idle Stage.serving) (next tk act (recheck tk act r))
  recheck-To (ok (y, break)) p = p y break refl
  recheck-To panicked p = tt
  recheck-To blocked p = tt
  recheck-To (ok (y, continue)) p =
      next-To (At Idle Stage.serving) (check tk act y >>= λ z. ok (z, continue)) λ z l h.
        let (v, checked, same) = >>=-eq-ok (check tk act y) _ h in
        let there : v ≡ z = cc same in
        subst (At Idle Stage.serving) there
          (subst (Idle Stage.serving) (sym (actor-check y v checked)) (p y continue refl))

  supervised_recv-To :
      (q : Polled U Chan) (x : Executor A R Chan W S)
      → At Idle Stage.serving x
      → To (At Idle Stage.serving) (on_supervised_recv tk act q x)
  supervised_recv-To (got m c) x p =
      recheck-To (process_message tk act (with_mailbox tk act c x) m)
        λ y l h. process_message-Idle tk act Fresh Idle Busy Done Over st Stage.serving _ m y l p h
  supervised_recv-To ended x p = p
  supervised_recv-To waits x p = p

  pub supervised_turn-To :
      (x : Executor A R Chan W S) (e : Event U)
      → At Idle Stage.serving x
      → To (At Idle Stage.serving) (supervised_turn tk act x e)
  unfolding supervised_turn
  supervised_turn-To x wakes p = supervised_recv-To (poll_recv tk act x.context.mailbox) x p
  supervised_turn-To x (notified (some SupervisorMessage.shutdown)) p = p
  supervised_turn-To x (notified none) p =
      recheck-To (ok (x, continue))
        λ y l h. let same : x ≡ y = cc h in subst (At Idle Stage.serving) same p
  supervised_turn-To x supervisor_dropped p = tt
  supervised_turn-To x (delivers m) p = p
  supervised_turn-To x child_exits p = p
  supervised_turn-To x permit_returns p = p
  supervised_turn-To x sleeps p = p

  close-To :
      (n : ℕ) (x : Executor A R Chan W S)
      → At Idle Stage.stopping x
      → To (Counting Idle) (close_if_alone tk act n x)
  close-To n x p = elim (Bool-cases (has_children tk act x)) [
    | inl some_left ↦ rw some_left p
    | inr alone ↦ rw alone p
  ]

  stopping_recv-To :
      (n : ℕ) (q : Polled U Chan) (x : Executor A R Chan W S)
      → At Idle Stage.stopping x
      → To (Counting Idle) (on_stopping_recv tk act n q x)
  stopping_recv-To n (got m c) x p =
      processed (process_message tk act (with_mailbox tk act c x) m)
        λ y l h. process_message-Idle tk act Fresh Idle Busy Done Over st Stage.stopping _ m y l p h
    where
      processed :
          (r : Flow (Executor A R Chan W S × ExecutorLoop))
          → ((y : Executor A R Chan W S) (l : ExecutorLoop)
              → r ≡ ok (y, l)
              → At Idle Stage.stopping y)
          → To (Counting Idle) (after_stopping_message tk act n r)
      processed (ok (y, l)) k = close-To n y (k y l refl)
      processed panicked k = tt
      processed blocked k = tt
  stopping_recv-To n ended x p = close-To n x p
  stopping_recv-To n waits x p = p

  pub stopping_turn-To :
      (n : ℕ) (x : Executor A R Chan W S) (e : Event U)
      → At Idle Stage.stopping x
      → To (Counting Idle) (stopping_turn tk act (n, x) e)
  unfolding stopping_turn
  stopping_turn-To n x wakes p = stopping_recv-To n (poll_recv tk act x.context.mailbox) x p
  stopping_turn-To n x sleeps p = elim (Bool-cases (n == 10)) [
    | inl last ↦ rw last tt
    | inr more ↦ rw more (close-To (n + 1) x p)
  ]
  stopping_turn-To n x (delivers m) p = p
  stopping_turn-To n x child_exits p = p
  stopping_turn-To n x permit_returns p = p
  stopping_turn-To n x (notified m) p = p
  stopping_turn-To n x supervisor_dropped p = p

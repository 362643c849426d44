-- ===== src/Executor/Throughout.antt =====
-- src/executor.rs: what holds of an actor's executor throughout its life, if the steps of which the
-- loops are made keep it up.
pub mod Life
pub mod Supervised
use tokactor.Common.{
  ℕ, zero, suc, ◌+◌, ◌≡◌, refl, subst, true, false, Option, List, Flow, ok, panicked, blocked,
  ◌>>=◌, >>=-eq-ok, ◌==◌, length, inl, inr, Bool-cases,
}
use tokactor.Tokio.{Tokio}
use tokactor.Message.{SendMessage, ActorState, stopping, stopped}
use tokactor.Actor.{Actor}
use tokactor.Executor.{Executor, ExecutorLoop, continue, break, react, process_message}
use tokactor.Executor.Awaits.{
  Event, delivers, child_exits, permit_returns, wakes, sleeps, notified, supervisor_dropped, Turn,
  stay, leave, crash, hang, ready, Polled, got, ended, waits, drive, lift,
}
use tokactor.Executor.Loops.{
  poll_recv, with_mailbox, with_state, surroundings, check, next, on_recv, actor_turn, has_children,
  close_if_alone, after_stopping_message, on_stopping_recv, stopping_turn, told, await_children,
  stopping_loop, on_drain, drain, stop, stopped_phase, shutdown_executor, take_sender, run_actor,
}
use tokactor.Executor.Schedule.{and_then-eq-ready, lift-eq-ready, drive_rule}
use tokactor.Executor.Turns.{To}

-- The steps of the loops: a message that is taken and processed, with or without a look at the
-- anonymous actors in between; and what the surroundings do.
pub record Rounds {A U R Chan W S : Type 0} (tk : Tokio (SendMessage U) Chan W S)
    (act : Actor A U R) (P : Executor A R Chan W S → Type 0) : Type 0 where
  pub takes :
      (x z y : Executor A R Chan W S) (m : SendMessage U) (c : Chan) (l : ExecutorLoop)
      → P x
      → poll_recv tk act x.context.mailbox ≡ got m c
      → check tk act (with_mailbox tk act c x) ≡ ok z
      → process_message tk act z m ≡ ok (y, l)
      → P y
  pub takes_late :
      (x y : Executor A R Chan W S) (m : SendMessage U) (c : Chan) (l : ExecutorLoop)
      → P x
      → poll_recv tk act x.context.mailbox ≡ got m c
      → process_message tk act (with_mailbox tk act c x) m ≡ ok (y, l)
      → P y
  pub surrounds : (x : Executor A R Chan W S) (e : Event U) → P x → P (surroundings tk act e x)

-- Those of a whole life: besides, the mailbox closed, the children told, the state set; and the
-- callbacks of the shutdown.
pub record Steps {A U R Chan W S : Type 0} (tk : Tokio (SendMessage U) Chan W S) (act : Actor A U R)
    (P : Executor A R Chan W S → Type 0) : Type 0 where
  pub rounds : Rounds tk act P
  pub closes :
      (x : Executor A R Chan W S) → P x → P (with_mailbox tk act (tk.close x.context.mailbox) x)
  pub tells : (x : Executor A R Chan W S) → P x → P (told tk act x)
  pub sets : (x : Executor A R Chan W S) (s : ActorState) → P x → P (with_state tk act s x)
  pub on_stopping :
      (x y : Executor A R Chan W S) → P x → react tk act (act.on_stopping x.actor) x ≡ ok y → P y
  pub on_stopped :
      (x y : Executor A R Chan W S) → P x → react tk act (act.on_stopped x.actor) x ≡ ok y → P y
  pub on_end :
      (x y : Executor A R Chan W S) → P x → react tk act (act.on_end x.actor) x ≡ ok y → P y

module _ {A U R Chan W S : Type 0} (tk : Tokio (SendMessage U) Chan W S) (act : Actor A U R)
    (P : Executor A R Chan W S → Type 0) (rs : Rounds tk act P) where
  pub next-To :
      (r : Flow (Executor A R Chan W S × ExecutorLoop))
      → ((y : Executor A R Chan W S) (l : ExecutorLoop) → r ≡ ok (y, l) → P y)
      → To P (next tk act r)
  next-To (ok (y, continue)) p = p y continue refl
  next-To (ok (y, break)) p = p y break refl
  next-To panicked p = tt
  next-To blocked p = tt

  recv-To :
      (q : Polled U Chan) (x : Executor A R Chan W S)
      → poll_recv tk act x.context.mailbox ≡ q
      → P x
      → To P (on_recv tk act q x)
  recv-To (got m c) x e p = next-To _ λ y l h.
      let (z, checked, ran) = >>=-eq-ok (check tk act (with_mailbox tk act c x)) _ h in
      rs.takes x z y m c l p e checked ran
  recv-To ended x e p = p
  recv-To waits x e p = p

  pub actor_turn-P : (x : Executor A R Chan W S) (e : Event U) → P x → To P (actor_turn tk act x e)
  unfolding actor_turn
  actor_turn-P x wakes p = recv-To (poll_recv tk act x.context.mailbox) x refl p
  actor_turn-P x (delivers m) p = rs.surrounds x (delivers m) p
  actor_turn-P x child_exits p = rs.surrounds x child_exits p
  actor_turn-P x permit_returns p = rs.surrounds x permit_returns p
  actor_turn-P x sleeps p = p
  actor_turn-P x (notified n) p = p
  actor_turn-P x supervisor_dropped p = p

  on_drain-P :
      (q : Polled U Chan) (x y : Executor A R Chan W S)
      (rest : Executor A R Chan W S → Flow (Executor A R Chan W S))
      → poll_recv tk act x.context.mailbox ≡ q
      → ((z : Executor A R Chan W S) → P z → rest z ≡ ok y → P y)
      → P x
      → on_drain tk act q x rest ≡ ok y
      → P y
  on_drain-P (got m c) x y rest e later p h =
      let ((z, l), ran, more) =
        >>=-eq-ok (process_message tk act (with_mailbox tk act c x) m) _ h in
      later z (rs.takes_late x z m c l p e ran) more
  on_drain-P ended x y rest e later p h = let same : x ≡ y = cc h in subst P same p
  on_drain-P waits x y rest e later p h = let same : x ≡ y = cc h in subst P same p

  pub drain-P : (fuel : ℕ) (x y : Executor A R Chan W S) → P x → drain tk act fuel x ≡ ok y → P y
  unfolding drain
  drain-P zero x y p h = cc
  drain-P (suc fuel) x y p h =
      on_drain-P (poll_recv tk act x.context.mailbox) x y (drain tk act fuel) refl
        (λ z q more. drain-P fuel z y q more) p h

module _ {A U R Chan W S : Type 0} (tk : Tokio (SendMessage U) Chan W S) (act : Actor A U R)
    (P Q : Executor A R Chan W S → Type 0) (rs : Rounds tk act P)
    (closes : (x : Executor A R Chan W S)
      → P x
      → Q (with_mailbox tk act (tk.close x.context.mailbox) x)) where
  -- A turn of the wait for the children goes on with `P`, or leaves the loop with `Q`.
  abbrev pub Goes : Turn (ℕ × Executor A R Chan W S) → Type 0
  Goes (stay q) = P q.1
  Goes (leave q) = Q q.1
  Goes crash = Unit
  Goes hang = Unit

  close-Goes : (n : ℕ) (x : Executor A R Chan W S) → P x → Goes (close_if_alone tk act n x)
  close-Goes n x p = elim (Bool-cases (has_children tk act x)) [
    | inl some_left ↦ rw some_left p
    | inr alone ↦ rw alone (closes x p)
  ]

  processed-Goes :
      (n : ℕ) (r : Flow (Executor A R Chan W S × ExecutorLoop))
      → ((y : Executor A R Chan W S) (l : ExecutorLoop) → r ≡ ok (y, l) → P y)
      → Goes (after_stopping_message tk act n r)
  processed-Goes n (ok (y, l)) p = close-Goes n y (p y l refl)
  processed-Goes n panicked p = tt
  processed-Goes n blocked p = tt

  stopping_recv-Goes :
      (n : ℕ) (q : Polled U Chan) (x : Executor A R Chan W S)
      → poll_recv tk act x.context.mailbox ≡ q
      → P x
      → Goes (on_stopping_recv tk act n q x)
  stopping_recv-Goes n (got m c) x e p =
      processed-Goes n (process_message tk act (with_mailbox tk act c x) m)
        λ y l h. rs.takes_late x y m c l p e h
  stopping_recv-Goes n ended x e p = close-Goes n x p
  stopping_recv-Goes n waits x e p = p

  pub stopping_turn-Goes :
      (n : ℕ) (x : Executor A R Chan W S) (e : Event U) → P x → Goes (stopping_turn tk act (n, x) e)
  unfolding stopping_turn
  stopping_turn-Goes n x wakes p =
      stopping_recv-Goes n (poll_recv tk act x.context.mailbox) x refl p
  stopping_turn-Goes n x sleeps p = elim (Bool-cases (n == 10)) [
    | inl last ↦ rw last tt
    | inr more ↦ rw more (close-Goes (n + 1) x p)
  ]
  stopping_turn-Goes n x (delivers m) p = rs.surrounds x (delivers m) p
  stopping_turn-Goes n x child_exits p = rs.surrounds x child_exits p
  stopping_turn-Goes n x permit_returns p = rs.surrounds x permit_returns p
  stopping_turn-Goes n x (notified m) p = p
  stopping_turn-Goes n x supervisor_dropped p = p

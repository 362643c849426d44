-- ===== src/Executor/Throughout/Supervised.antt =====
-- src/executor.rs, `run_supervised_actor`: from the steps of the loops to the whole life of a child.
use tokactor.Common.{
  ◌≡◌, refl, subst, some, none, List, Flow, ok, panicked, blocked, ◌>>=◌, >>=-eq-ok,
}
use tokactor.Tokio.{Tokio, SupervisorMessage}
use tokactor.Message.{SendMessage}
use tokactor.Actor.{Actor}
use tokactor.Executor.{Executor, ExecutorLoop, continue, break, react, process_message}
use tokactor.Executor.Awaits.{
  Event, delivers, child_exits, permit_returns, wakes, sleeps, notified, supervisor_dropped, ready,
  Polled, got, ended, waits, drive, lift,
}
use tokactor.Executor.Loops.{
  poll_recv, with_mailbox, check, recheck, on_supervised_recv, supervised_turn, shutdown_executor,
  run_supervised_actor,
}
use tokactor.Executor.Schedule.{and_then-eq-ready, lift-eq-ready, drive_rule}
use tokactor.Executor.Turns.{To}
use tokactor.Executor.Throughout.{Steps, next-To}
use tokactor.Executor.Throughout.Life.{shutdown_executor-P}

module _ {A U R Chan W S : Type 0} (tk : Tokio (SendMessage U) Chan W S) (act : Actor A U R)
    (P : Executor A R Chan W S → Type 0) (st : Steps tk act P)
    (checks : (x z : Executor A R Chan W S) → P x → check tk act x ≡ ok z → P z) where
  rechecked :
      (r : Flow (Executor A R Chan W S × ExecutorLoop))
      → ((y : Executor A R Chan W S) (l : ExecutorLoop) → r ≡ ok (y, l) → P y)
      → (y : Executor A R Chan W S) (l : ExecutorLoop) → recheck tk act r ≡ ok (y, l)
      → P y
  rechecked (ok (x, continue)) p y l h =
      let (z, ran, made) = >>=-eq-ok (check tk act x) _ h in
      let same : z ≡ y = cc made in subst P same (checks x z (p x continue refl) ran)
  rechecked (ok (x, break)) p y l h = let same : x ≡ y = cc h in subst P same (p x break refl)
  rechecked panicked p y l h = cc h
  rechecked blocked p y l h = cc h

  recv-To :
      (q : Polled U Chan) (x : Executor A R Chan W S)
      → poll_recv tk act x.context.mailbox ≡ q
      → P x
      → To P (on_supervised_recv tk act q x)
  recv-To (got m c) x e p = next-To tk act P st.rounds _ (
      rechecked (process_message tk act (with_mailbox tk act c x) m)
        λ y l h. st.rounds.takes_late x y m c l p e h)
  recv-To ended x e p = p
  recv-To waits x e p = p

  supervised_turn-P :
      (x : Executor A R Chan W S) (e : Event U) → P x → To P (supervised_turn tk act x e)
  unfolding supervised_turn
  supervised_turn-P x wakes p = recv-To (poll_recv tk act x.context.mailbox) x refl p
  supervised_turn-P x (notified (some SupervisorMessage.shutdown)) p = p
  supervised_turn-P x (notified none) p = next-To tk act P st.rounds _ λ y l h.
      let (z, ran, made) = >>=-eq-ok (check tk act x) _ h in
      let same : z ≡ y = cc made in subst P same (checks x z p ran)
  supervised_turn-P x supervisor_dropped p = tt
  supervised_turn-P x (delivers m) p = st.rounds.surrounds x (delivers m) p
  supervised_turn-P x child_exits p = st.rounds.surrounds x child_exits p
  supervised_turn-P x permit_returns p = st.rounds.surrounds x permit_returns p
  supervised_turn-P x sleeps p = st.rounds.surrounds x sleeps p

  -- What the steps and the look at the anonymous actors keep up, and holds once the actor has
  -- started, holds of the executor at its end.
  pub run_supervised_actor-P :
      (x : Executor A R Chan W S) (es : List (Event U)) (y : Executor A R Chan W S)
      (rest : List (Event U))
      → ((z : Executor A R Chan W S) → react tk act (act.on_start x.actor) x ≡ ok z → P z)
      → run_supervised_actor tk act x es ≡ ready y rest
      → P y
  unfolding run_supervised_actor
  run_supervised_actor-P x es y rest p h =
      let start = react tk act (act.on_start x.actor) x >>= check tk act in
      let (a, es₁, h₁, r₁) = and_then-eq-ready (lift start es) _ h in
      let (b, es₂, h₂, r₂) =
        and_then-eq-ready (drive (supervised_turn tk act) a es₁) (shutdown_executor tk act) r₁ in
      let (z, began, looked) =
        >>=-eq-ok (react tk act (act.on_start x.actor) x) (check tk act)
          (lift-eq-ready start es h₁).0 in
      let served : P b =
        drive_rule (supervised_turn tk act) P P
          (λ z e w v went. subst (To P) went (supervised_turn-P z e v))
          (λ z e w v went. subst (To P) went (supervised_turn-P z e v)) a es₁ b es₂
          (checks z a (p z began) looked) h₂ in
      shutdown_executor-P tk act P st b es₂ y rest served r₂

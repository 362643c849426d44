-- ===== src/Family/FanIn/Watching.antt =====
-- src/executor.rs: what an event does to the tasks that watch an actor.
use tokactor.Common.{
  ℕ, ◌-◌, ◌≤◌, ◌≡◌, refl, ap, subst, true, Flow, ok, panicked, blocked, >>=-eq-ok, arith, inl, inr,
  Bool-cases,
}
use tokactor.Tokio.{Tokio, TokioLaws}
use tokactor.Message.{SendMessage, stopping}
use tokactor.Actor.{Actor}
use tokactor.Executor.{Executor, ExecutorLoop, continue, break, react}
use tokactor.Executor.Awaits.{
  Event, delivers, child_exits, permit_returns, wakes, sleeps, notified, supervisor_dropped, Turn,
  stay, leave, crash, hang, Polled, got, ended, waits,
}
use tokactor.Executor.Loops.{
  check, next, on_recv, poll_recv, actor_turn, stopping_turn, with_mailbox, with_state,
  has_children, told, stopped_phase, surroundings,
}
use tokactor.Executor.Turns.{To}
use tokactor.Executor.Ending.{react-Progress}
use tokactor.Executor.Progress.{process_message-Progress}
use tokactor.Executor.Exits.{Keeps, after, turn-Keeps, alone_lem}
use tokactor.Executor.Mailbox.Messages.{check_keeps}
use tokactor.Family.FanIn.{
  Phase, serving, awaiting, over, is_own, linger, begin_shutdown, after_turn, after_wait, advance,
  watchers, mailbox,
}

module _ {A U R Chan W S : Type 0} (tk : Tokio (SendMessage U) Chan W S) (act : Actor A U R)
    (laws : TokioLaws tk) where
  -- A phase that is over began with no watcher.
  abbrev pub Ends : ℕ → Phase A R Chan W S → Type 0
  Ends k (serving x) = Unit
  Ends k (awaiting p) = Unit
  Ends k (over x) = k ≤ 0

  abbrev Many : ℕ → Executor A R Chan W S → Type 0
  Many k x = k ≤ tk.receivers x.context.notifier

  next-Many :
      (k : ℕ) (r : Flow (Executor A R Chan W S × ExecutorLoop))
      → ((y : Executor A R Chan W S) (l : ExecutorLoop) → r ≡ ok (y, l) → Many k y)
      → To (Many k) (next tk act r)
  next-Many k (ok (y, continue)) p = p y continue refl
  next-Many k (ok (y, break)) p = p y break refl
  next-Many k panicked p = tt
  next-Many k blocked p = tt

  recv-Many :
      (k : ℕ) (q : Polled U Chan) (x : Executor A R Chan W S)
      → Many k x
      → To (Many k) (on_recv tk act q x)
  recv-Many k (got m c) x p = next-Many k _ λ y l h.
      let x₁ = with_mailbox tk act c x in
      let (z, checked, ran) = >>=-eq-ok (check tk act x₁) _ h in
      let (d, looked, made) = >>=-eq-ok _ _ checked in
      let kept = ap tk.receivers (check_keeps tk act x₁.context d looked).1 in
      let same : record x₁ { context = d } ≡ z = cc made in
      omega (
        arith,
        p,
        kept,
        ap (λ (v : Executor A R Chan W S). tk.receivers v.context.notifier) same,
        (process_message-Progress tk act laws z m y l ran).0.receivers,
      )
  recv-Many k ended x p = p
  recv-Many k waits x p = p

  turn-Many :
      (k : ℕ) (x : Executor A R Chan W S) (e : Event U)
      → is_own e ≡ true
      → Many k x
      → To (Many k) (actor_turn tk act x e)
  unfolding actor_turn
  turn-Many k x wakes own p = recv-Many k (poll_recv tk act x.context.mailbox) x p
  turn-Many k x (delivers m) own p = p
  turn-Many k x child_exits own p = cc own
  turn-Many k x permit_returns own p = p
  turn-Many k x sleeps own p = p
  turn-Many k x (notified n) own p = p
  turn-Many k x supervisor_dropped own p = p

  linger-Ends :
      (k : ℕ) (z : Executor A R Chan W S) (q : Phase A R Chan W S)
      → Many k z
      → linger tk act z ≡ ok q
      → Ends k q
  linger-Ends k z q p h = elim (Bool-cases (has_children tk act z)) [
    | inl some_left ↦
        let same : awaiting (0, told tk act z) ≡ q = cc (rw some_left at h) in
        subst (Ends k) same tt
    | inr alone ↦
        let w = with_mailbox tk act (tk.close z.context.mailbox) z in
        let (y, ran, made) =
          >>=-eq-ok (stopped_phase tk act w) (λ y. ok (over y)) (rw alone at h) in
        let same : over y ≡ q = cc made in
        subst (Ends k) same (omega (arith, p, alone_lem tk act laws z alone))
  ]

  begin-Ends :
      (k : ℕ) (x : Executor A R Chan W S) (q : Phase A R Chan W S)
      → Many k x
      → begin_shutdown tk act x ≡ ok q
      → Ends k q
  unfolding begin_shutdown
  begin-Ends k x q p h =
      let y = with_state tk act stopping x in
      let (z, ran, made) = >>=-eq-ok (react tk act (act.on_stopping y.actor) y) _ h in
      linger-Ends k z q
        (omega (arith, p, (react-Progress tk act laws (act.on_stopping y.actor) y z ran).receivers))
        made

  -- What is no child's doing brings an actor to its end only if no task watches it.
  pub own-Ends :
      (p q : Phase A R Chan W S) (e : Event U)
      → is_own e ≡ true
      → advance tk act p e ≡ ok q
      → Ends (watchers tk act p) q
  unfolding advance
  own-Ends (serving x) q e own h =
      turned (actor_turn tk act x e)
        (turn-Many (tk.receivers x.context.notifier) x e own (omega arith)) h
    where
      turned :
          (t : Turn (Executor A R Chan W S))
          → To (Many (tk.receivers x.context.notifier)) t
          → after_turn tk act t ≡ ok q
          → Ends (tk.receivers x.context.notifier) q
      turned (stay y) p h =
          let same : serving y ≡ q = cc h in subst (Ends (tk.receivers x.context.notifier)) same tt
      turned (leave y) p h = begin-Ends (tk.receivers x.context.notifier) y q p h
      turned crash p h = cc h
      turned hang p h = cc h
  own-Ends (awaiting (n, x)) q e own h =
      let k = tk.receivers x.context.notifier in
      turned (stopping_turn tk act (n, x) e)
        (still_all e (stopping_turn tk act (n, x) e) own
          (turn-Keeps tk act laws k n x e (omega arith)))
        h
    where
      still_all :
          (e : Event U) (t : Turn (ℕ × Executor A R Chan W S))
          → is_own e ≡ true
          → Keeps tk act laws (after tk act laws e (tk.receivers x.context.notifier)) t
          → Keeps tk act laws (tk.receivers x.context.notifier) t
      still_all wakes t own p = p
      still_all (delivers m) t own p = p
      still_all child_exits t own p = cc own
      still_all permit_returns t own p = p
      still_all sleeps t own p = p
      still_all (notified m) t own p = p
      still_all supervisor_dropped t own p = p

      turned :
          (t : Turn (ℕ × Executor A R Chan W S))
          → Keeps tk act laws (tk.receivers x.context.notifier) t
          → after_wait tk act t ≡ ok q
          → Ends (tk.receivers x.context.notifier) q
      turned (stay p) kept h =
          let same : awaiting p ≡ q = cc h in subst (Ends (tk.receivers x.context.notifier)) same tt
      turned (leave (m, y)) kept h =
          let (z, ran, made) = >>=-eq-ok (stopped_phase tk act y) (λ z. ok (over z)) h in
          let same : over z ≡ q = cc made in
          subst (Ends (tk.receivers x.context.notifier)) same kept
      turned crash kept h = cc h
      turned hang kept h = cc h
  own-Ends (over x) q e own h = cc h

  -- An actor that is not at its end, and has so many watchers.
  abbrev pub Watched : ℕ → Phase A R Chan W S → Type 0
  Watched k (serving x) = tk.receivers x.context.notifier ≡ k
  Watched k (awaiting (n, x)) = tk.receivers x.context.notifier ≡ k
  Watched k (over x) = ⊥

  pub exit-Watched :
      (p q : Phase A R Chan W S)
      → advance tk act p child_exits ≡ ok q
      → Watched (watchers tk act p - 1) q × (mailbox tk act q ≡ mailbox tk act p)
  unfolding advance actor_turn stopping_turn
  exit-Watched (serving x) q h =
      let x' = surroundings tk act child_exits x in
      let same : serving x' ≡ q = cc h in
      subst
        (λ r. Watched (watchers tk act (serving x) - 1) r × (mailbox tk act r ≡ x.context.mailbox))
        same (laws.receivers-drop x.context.notifier, refl)
  exit-Watched (awaiting (n, x)) q h =
      let x' = surroundings tk act child_exits x in
      let same : awaiting (n, x') ≡ q = cc h in
      subst
        (λ r.
          Watched (watchers tk act (awaiting (n, x)) - 1) r
          × (mailbox tk act r ≡ x.context.mailbox))
        same (laws.receivers-drop x.context.notifier, refl)
  exit-Watched (over x) q h = cc h

  pub tell-Watched :
      (p q : Phase A R Chan W S) (m : SendMessage U)
      → advance tk act p (delivers m) ≡ ok q
      → Watched (watchers tk act p) q × (mailbox tk act q ≡ (tk.try_send m (mailbox tk act p)).1)
  unfolding advance actor_turn stopping_turn
  tell-Watched (serving x) q m h =
      let x' = surroundings tk act (delivers m) x in
      let same : serving x' ≡ q = cc h in
      subst
        (λ r.
          Watched (watchers tk act (serving x)) r
          × (mailbox tk act r ≡ (tk.try_send m x.context.mailbox).1))
        same (refl, refl)
  tell-Watched (awaiting (n, x)) q m h =
      let x' = surroundings tk act (delivers m) x in
      let same : awaiting (n, x') ≡ q = cc h in
      subst
        (λ r.
          Watched (watchers tk act (awaiting (n, x))) r
          × (mailbox tk act r ≡ (tk.try_send m x.context.mailbox).1))
        same (refl, refl)
  tell-Watched (over x) q m h = cc h

-- ===== src/Executor/Waiting.antt =====
-- src/executor.rs, `shutdown` of an actor with children: that it ends when they have.
use tokactor.Common.{
  ℕ, zero, suc, ◌+◌, ◌≡◌, ◌≢◌, refl, sym, ◌∙◌, subst, true, false, List, ◌∷◌, ◌++◌, replicate, Flow,
  ok, panicked, blocked, arith, ◌==◌, inl, inr, Bool-cases,
}
use tokactor.Tokio.{Tokio, TokioLaws, SupervisorMessage}
use tokactor.Message.{SendMessage, stopping}
use tokactor.Actor.{Actor, Prompt}
use tokactor.Executor.{Executor, react}
use tokactor.Executor.Awaits.{
  Event, child_exits, sleeps, stay, leave, Outcome, ready, drive, lift, and_then,
}
use tokactor.Executor.Loops.{
  has_children, with_mailbox, with_state, surroundings, told, stopping_turn, stopping_loop,
  await_children, stopped_phase, shutdown_executor,
}
use tokactor.Executor.Schedule.{drive_stay, drive_leave}
use tokactor.Executor.Terminating.{
  Over, panicked_, lift-Over, stopped_phase-ne-blocked, react-ne-blocked,
}

-- So many children end, and then the timer runs out.
abbrev pub children_end : {U : Type 0} → ℕ → List (Event U) → List (Event U)
children_end k es = replicate k child_exits ++ sleeps ∷ es

module _ {A U R Chan W S : Type 0} (tk : Tokio (SendMessage U) Chan W S) (act : Actor A U R)
    (laws : TokioLaws tk) where
  -- The loop for the children is left, with the mailbox closed.
  abbrev pub Left : ℕ × Executor A R Chan W S → List (Event U) → List (Event U) → Type 0
  Left p sched es =
      (q : ℕ × Executor A R Chan W S) × (drive (stopping_turn tk act) p sched ≡ ready q es)
      × (tk.is_closed q.1.context.mailbox ≡ true)

  tick :
      (n : ℕ) (x : Executor A R Chan W S)
      → (n == 10) ≡ false
      → has_children tk act x ≡ false
      → stopping_turn tk act (n, x) sleeps
        ≡ leave (n + 1, with_mailbox tk act (tk.close x.context.mailbox) x)
  unfolding stopping_turn
  tick n x early none_left = rw (early, none_left) refl

  departs :
      (n : ℕ) (x : Executor A R Chan W S)
      → stopping_turn tk act (n, x) child_exits ≡ stay (n, surroundings tk act child_exits x)
  unfolding stopping_turn
  departs n x = refl

  last_tick :
      (n : ℕ) (x : Executor A R Chan W S) (es : List (Event U))
      → (n == 10) ≡ false
      → tk.receivers x.context.notifier ≡ 0
      → Left (n, x) (sleeps ∷ es) es
  last_tick n x es early alone =
      let none_left : has_children tk act x ≡ false = ground (arith, alone) in
      (
        _,
        drive_leave (stopping_turn tk act) (n, x) sleeps es (tick n x early none_left),
        laws.is_closed-close x.context.mailbox,
      )

  pub children_end-Left :
      (k n : ℕ) (x : Executor A R Chan W S) (es : List (Event U))
      → (n == 10) ≡ false
      → tk.receivers x.context.notifier ≡ k
      → Left (n, x) (children_end k es) es
  children_end-Left zero n x es early some_left = last_tick n x es early some_left
  children_end-Left (suc k) n x es early some_left =
      let (q, ran, shut) =
        children_end-Left k n (surroundings tk act child_exits x) es early
          (omega (arith, some_left, laws.receivers-drop x.context.notifier)) in
      (
        q,
        drive_stay (stopping_turn tk act) (n, x) child_exits (children_end k es) (departs n x)
            ∙ ran,
        shut,
      )

  pub phase-Over :
      (w : Executor A R Chan W S) (es : List (Event U))
      → Prompt act
      → tk.is_closed w.context.mailbox ≡ true
      → Over tk act laws (lift (stopped_phase tk act w) es)
  phase-Over w es prompt shut =
      lift-Over tk act laws (stopped_phase tk act w) es
        (stopped_phase-ne-blocked tk act laws w prompt shut)

  abbrev pub rest_of : Outcome U (Executor A R Chan W S) → Outcome U (Executor A R Chan W S)
  rest_of o = and_then o λ w later. lift (stopped_phase tk act w) later

  waited-Over :
      (k : ℕ) (z : Executor A R Chan W S) (es : List (Event U))
      → Prompt act
      → tk.receivers z.context.notifier ≡ k
      → Over tk act laws (rest_of (await_children tk act z (children_end k es)))
  unfolding await_children
  waited-Over k z es prompt some_left =
      let (q, ran, shut) =
        children_end-Left k 0 (told tk act z) es refl
          (laws.receivers-notify SupervisorMessage.shutdown z.context.notifier ∙ some_left) in
      subst
        (λ (o : Outcome U (ℕ × Executor A R Chan W S)).
          Over tk act laws (rest_of (and_then o λ p rest. ready p.1 rest)))
        (sym ran) (phase-Over q.1 es prompt shut)

  loop-Over :
      (k : ℕ) (z : Executor A R Chan W S) (es : List (Event U))
      → Prompt act
      → tk.receivers z.context.notifier ≡ k
      → Over tk act laws (rest_of (stopping_loop tk act z (children_end k es)))
  unfolding stopping_loop
  loop-Over k z es prompt some_left = elim (Bool-cases (has_children tk act z)) [
    | inl waits ↦ rw waits (waited-Over k z es prompt some_left)
    | inr alone ↦ rw alone (
        phase-Over (with_mailbox tk act (tk.close z.context.mailbox) z) (children_end k es) prompt
          (laws.is_closed-close z.context.mailbox))
  ]

  pub shutdown_waits-Over :
      (k : ℕ) (x : Executor A R Chan W S) (es : List (Event U))
      → Prompt act
      → ((z : Executor A R Chan W S)
          → react tk act (act.on_stopping x.actor) (with_state tk act stopping x) ≡ ok z
          → tk.receivers z.context.notifier ≡ k)
      → Over tk act laws (shutdown_executor tk act x (children_end k es))
  unfolding shutdown_executor
  shutdown_waits-Over k x es prompt left_ =
      over (react tk act (act.on_stopping x.actor) (with_state tk act stopping x))
        (react-ne-blocked tk act laws (act.on_stopping x.actor) (with_state tk act stopping x))
        left_
    where
      over :
          (m : Flow (Executor A R Chan W S))
          → m ≢ blocked
          → ((z : Executor A R Chan W S) → m ≡ ok z → tk.receivers z.context.notifier ≡ k)
          → Over tk act laws (
              and_then (lift m (children_end k es)) λ z rest. rest_of (stopping_loop tk act z rest))
      over (ok z) p q = loop-Over k z es prompt (q z refl)
      over panicked p q = panicked_
      over blocked p q = absurd (p refl)

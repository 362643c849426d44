-- ===== src/Executor/Timeouts.antt =====
-- src/executor.rs, `stopping`: how long an actor waits for children that do not exit.
use tokactor.Common.{
  ℕ, zero, suc, ◌+◌, ◌-◌, ◌≤◌, ◌≡◌, ◌≢◌, refl, sym, ap, ◌∙◌, true, List, [], ◌++◌, replicate,
  if◌then◌else◌, ltb, ◌==◌, arith, inl, inr, Bool-cases,
}
use tokactor.Tokio.{Tokio, TokioLaws}
use tokactor.Message.{SendMessage}
use tokactor.Actor.{Actor}
use tokactor.Executor.{Executor}
use tokactor.Executor.Awaits.{
  Event, wakes, sleeps, Turn, stay, crash, pending, panics, ended, drive,
}
use tokactor.Executor.Loops.{
  has_children, poll_recv, stopping_turn, stopping_loop, await_children, told, on_stopping_recv,
}
use tokactor.Executor.Schedule.{drive_stay, drive_crash}
use tokactor.Executor.Shutdown.{poll_ended}

module _ {A U R Chan W S : Type 0} (tk : Tokio (SendMessage U) Chan W S) (act : Actor A U R)
    (laws : TokioLaws tk) (x : Executor A R Chan W S)
    (alive : tk.receivers x.context.notifier ≢ 0) where
  -- The executor that has told its children to shut down.
  abbrev x' : Executor A R Chan W S
  x' = told tk act x

  abbrev turn : ℕ × Executor A R Chan W S → Event U → Turn (ℕ × Executor A R Chan W S)
  turn = stopping_turn tk act

  still : tk.receivers x'.context.notifier ≢ 0
  still e = alive (sym (laws.receivers-notify _ x.context.notifier) ∙ e)

  sleeps_turn :
      (n : ℕ) → stopping_turn tk act (n, x') sleeps ≡ (if n == 10 then crash else stay (n + 1, x'))
  unfolding stopping_turn
  sleeps_turn n = ground (arith, still)

  drive_sleeps :
      (n k : ℕ)
      → n ≤ 10
      → drive (stopping_turn tk act) (n, x') (replicate k sleeps)
        ≡ (if ltb (10 - n) k then panics else pending)
  unfolding drive
  drive_sleeps n zero h = ground arith
  drive_sleeps n (suc k) h = elim (Bool-cases (n == 10)) [
    | inl last ↦
        drive_crash turn (n, x') sleeps (replicate k sleeps) (sleeps_turn n ∙ ground arith)
        ∙ ground arith
    | inr more ↦
        drive_stay turn (n, x') sleeps (replicate k sleeps) (sleeps_turn n ∙ ground arith)
        ∙ drive_sleeps (n + 1) k (ground arith)
        ∙ ground arith
  ]

  -- While a child of the actor lives and no message comes, the actor waits through ten runs of
  -- the one second timer, and panics at the eleventh.
  pub stopping_loop-sleeps :
      (k : ℕ) → stopping_loop tk act x (replicate k sleeps) ≡ (if ltb 10 k then panics else pending)
  unfolding stopping_loop await_children
  stopping_loop-sleeps k = rw (has, drive_sleeps 0 k (omega arith)) (ground arith)
    where
      has : has_children tk act x ≡ true
      has = ground arith

  wakes_turn :
      (n : ℕ)
      → tk.queue x.context.mailbox ≡ []
      → tk.is_closed x.context.mailbox ≡ true
      → stopping_turn tk act (n, x') wakes ≡ stay (n, x')
  unfolding stopping_turn
  wakes_turn n e shut =
      ap (λ p. on_stopping_recv tk act n p x') (poll_ended tk act laws x.context.mailbox e shut)
      ∙ ground (arith, still)

  drive_wakes :
      (n k : ℕ) (es : List (Event U))
      → tk.queue x.context.mailbox ≡ []
      → tk.is_closed x.context.mailbox ≡ true
      → drive (stopping_turn tk act) (n, x') (replicate k wakes ++ es)
        ≡ drive (stopping_turn tk act) (n, x') es
  unfolding drive
  drive_wakes n zero es e shut = refl
  drive_wakes n (suc k) es e shut =
      drive_stay turn (n, x') wakes (replicate k wakes ++ es) (wakes_turn n e shut)
      ∙ drive_wakes n k es e shut

  -- An actor that has aborted, so that its mailbox is closed, and whose mailbox is empty while a child
  -- lives, finds that mailbox ready with its end at every poll, where it does not wait. Each poll leaves
  -- the actor and the count of the timeouts as they are, wherever that count stands: after polls as
  -- many as may be, the loop goes on as if there had been none.
  pub stopping_loop-spins :
      (k : ℕ) (es : List (Event U))
      → tk.queue x.context.mailbox ≡ []
      → tk.is_closed x.context.mailbox ≡ true
      → (poll_recv tk act x'.context.mailbox ≡ ended)
        × ((n : ℕ)
            → (stopping_turn tk act (n, x') wakes ≡ stay (n, x'))
              × (drive (stopping_turn tk act) (n, x') (replicate k wakes ++ es)
                  ≡ drive (stopping_turn tk act) (n, x') es))
        × (stopping_loop tk act x (replicate k wakes ++ es) ≡ stopping_loop tk act x es)
  unfolding stopping_loop await_children
  stopping_loop-spins k es e shut = (
    poll_ended tk act laws x.context.mailbox e shut,
    λ n. (wakes_turn n e shut, drive_wakes n k es e shut),
    rw (has, drive_wakes 0 k es e shut) refl,
  )
    where
      has : has_children tk act x ≡ true
      has = ground arith

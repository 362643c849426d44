-- ===== src/Executor/Reaching.antt =====
-- src/executor.rs: how a context can move while code of the actor runs, and when that can block.
use tokactor.Common.{
  inr, inl, ◌⊎◌, ℕ, ◌≤◌, ◌≡◌, ◌≢◌, refl, true, false, Option, none, some, List, [], ◌∷◌, Flow, ok,
  panicked, blocked, ◌>>=◌, arith,
}
use tokactor.Tokio.{Tokio, TokioLaws}
use tokactor.Message.{SendMessage, take, IntoFutureShutdown}
use tokactor.Actor.{
  Actor, Command, stop, abort, spawn, anonymous, anonymous_task, anonymous_handle, Endless,
}
use tokactor.Context.{
  Ctx, unit_task, child, start, anonymous_ctx, run_command, run_commands, subscribe_and_stop,
  subscribe_and_wait,
}
use tokactor.Context.State.{rank, Forward, run_commands-Forward}
use tokactor.Executor.{Executor, take_tx, react, private_shutdown}

module _ {U R Chan W S : Type 0} (tk : Tokio (SendMessage U) Chan W S) where
  -- A context can come to be another while a message is processed.
  pub record Progress (c d : Ctx R Chan W S) : Type 0 where
    pub state : rank c.state ≤ rank d.state
    pub closed : tk.is_closed c.mailbox ≡ true → tk.is_closed d.mailbox ≡ true
    pub sealed : tk.is_closed c.mailbox ≡ true → tk.queue d.mailbox ≡ tk.queue c.mailbox
    pub receivers : tk.receivers c.notifier ≤ tk.receivers d.notifier

module _ {U R Chan W S : Type 0} (tk : Tokio (SendMessage U) Chan W S) (laws : TokioLaws tk) where
  pub Progress-refl : (c : Ctx R Chan W S) → Progress tk c c
  Progress-refl c = ground arith

  pub Progress-trans :
      {c d e : Ctx R Chan W S} → Progress tk c d → Progress tk d e → Progress tk c e
  Progress-trans f g = ground arith

  pub Forward-Progress : {c d : Ctx R Chan W S} → Forward tk c d → Progress tk c d
  Forward-Progress f = ground arith

  pub private_shutdown-Progress :
      (m : IntoFutureShutdown) (c : Ctx R Chan W S) → Progress tk c (private_shutdown m c)
  unfolding subscribe_and_stop subscribe_and_wait
  private_shutdown-Progress m c = ground arith

  pub anonymous_ctx-Progress : (c : Ctx R Chan W S) → Progress tk c (anonymous_ctx tk unit_task c)
  unfolding anonymous_ctx
  anonymous_ctx-Progress c = ground (arith, laws.receivers-subscribe c.notifier)

pub take-ne-blocked : {M : Type 0} (o : Option M) → take o ≢ blocked
take-ne-blocked none e = cc
take-ne-blocked (some m) e = cc

pub take_tx-ne-blocked : (o : Option ℕ) → take_tx o ≢ blocked
take_tx-ne-blocked none e = cc
take_tx-ne-blocked (some tx) e = cc

module _ {A U R Chan W S : Type 0} (tk : Tokio (SendMessage U) Chan W S) (act : Actor A U R)
    (laws : TokioLaws tk) where
  -- What comes of a computation from the context `c`; only an open mailbox lets it block.
  abbrev pub Reaches : Ctx R Chan W S → Flow (Executor A R Chan W S) → Type 0
  Reaches c (ok y) = Progress tk c y.context
  Reaches c panicked = Unit
  Reaches c blocked = (tk.is_closed c.mailbox ≡ false) ⊎ Endless act

  pub Reaches-after :
      (c d : Ctx R Chan W S) (r : Flow (Executor A R Chan W S))
      → Progress tk c d
      → Reaches d r
      → Reaches c r
  Reaches-after c d (ok y) p q = Progress-trans tk laws p q
  Reaches-after c d panicked p q = tt
  Reaches-after c d blocked p (inl open_) = inl (ground (arith, p))
  Reaches-after c d blocked p (inr endless) = inr endless

  pub Reaches-bind :
      (c : Ctx R Chan W S) (m : Flow (Executor A R Chan W S))
      (f : Executor A R Chan W S → Flow (Executor A R Chan W S))
      → Reaches c m
      → ((y : Executor A R Chan W S) → Reaches y.context (f y))
      → Reaches c (m >>= f)
  Reaches-bind c (ok y) f p q = Reaches-after c y.context (f y) p (q y)
  Reaches-bind c panicked f p q = tt
  Reaches-bind c blocked f p q = p

  pub Reaches-const :
      {B : Type 0} (c : Ctx R Chan W S) (m : Flow B) (f : B → Flow (Executor A R Chan W S))
      → m ≢ blocked
      → ((b : B) → Reaches c (f b))
      → Reaches c (m >>= f)
  Reaches-const c (ok b) f p q = q b
  Reaches-const c panicked f p q = tt
  Reaches-const c blocked f p q = absurd (p refl)

  pub run_commands-ne-blocked :
      (ks : List Command) (c : Ctx R Chan W S) → run_commands tk ks c ≢ blocked
  unfolding run_commands run_command
  run_commands-ne-blocked [] c e = cc
  run_commands-ne-blocked (stop ∷ ks) c e = run_commands-ne-blocked ks _ e
  run_commands-ne-blocked (abort ∷ ks) c e = run_commands-ne-blocked ks _ e
  run_commands-ne-blocked (spawn ∷ ks) c e =
      ground (arith, run_commands-ne-blocked ks (start tk child c))
  run_commands-ne-blocked (anonymous ∷ ks) c e = run_commands-ne-blocked ks _ e
  run_commands-ne-blocked (anonymous_task ∷ ks) c e = run_commands-ne-blocked ks _ e
  run_commands-ne-blocked (anonymous_handle ∷ ks) c e = run_commands-ne-blocked ks _ e

  commands-Reaches :
      (a : A) (x : Executor A R Chan W S) (r : Flow (Ctx R Chan W S))
      → ((d : Ctx R Chan W S) → r ≡ ok d → Progress tk x.context d)
      → r ≢ blocked
      → Reaches x.context (r >>= λ c. ok (record x { actor = a; context = c }))
  commands-Reaches a x (ok d) p q = p d refl
  commands-Reaches a x panicked p q = tt
  commands-Reaches a x blocked p q = absurd (q refl)

  pub react-Reaches :
      (r : Option (A × List Command)) (x : Executor A R Chan W S)
      → Reaches x.context (react tk act r x)
  react-Reaches none x = tt
  react-Reaches (some (a, ks)) x =
      commands-Reaches a x (run_commands tk ks x.context)
        (λ d e. Forward-Progress tk laws (run_commands-Forward tk laws ks x.context d e))
        (run_commands-ne-blocked ks x.context)

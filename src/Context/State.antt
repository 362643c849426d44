-- ===== src/Context/State.antt =====
-- src/context.rs: how far the calls that user code makes on a context can move it.
use tokactor.Common.{ℕ, ◌≤◌, ◌≡◌, true, List, [], ◌∷◌, ok, >>=-eq-ok, arith}
use tokactor.Tokio.{Tokio, TokioLaws}
use tokactor.Message.{ActorState, running, stopping, stopped, SendMessage}
use tokactor.Actor.{Command, abort}
use tokactor.Context.{Ctx, run_command, run_commands}

-- `Running` → `Stopping` → `Stopped`
abbrev pub rank : ActorState → ℕ
rank running = 0
rank stopping = 1
rank stopped = 2

module _ {U R Chan W S : Type 0} (tk : Tokio (SendMessage U) Chan W S) where
  -- A context can come to be another by calls on it.
  pub record Forward (c d : Ctx R Chan W S) : Type 0 where
    pub state : rank c.state ≤ rank d.state
    pub queue : tk.queue d.mailbox ≡ tk.queue c.mailbox
    pub closed : tk.is_closed c.mailbox ≡ true → tk.is_closed d.mailbox ≡ true
    pub receivers : tk.receivers c.notifier ≤ tk.receivers d.notifier
    pub awaited : d.into_future_sender ≡ c.into_future_sender

module _ {U R Chan W S : Type 0} (tk : Tokio (SendMessage U) Chan W S) (laws : TokioLaws tk) where
  Forward-refl : (c : Ctx R Chan W S) → Forward tk c c
  Forward-refl c = ground arith

  Forward-trans : {c d e : Ctx R Chan W S} → Forward tk c d → Forward tk d e → Forward tk c e
  Forward-trans f g = ground arith

  run_command-Forward :
      (k : Command) (c d : Ctx R Chan W S) → run_command tk k c ≡ ok d → Forward tk c d
  unfolding run_command
  run_command-Forward abort c d h =
      ground (arith, laws.queue-close c.mailbox, laws.is_closed-close c.mailbox)
  run_command-Forward k c d h = ground (arith, laws.receivers-subscribe c.notifier)

  -- Whatever calls user code makes on its context, the state never goes back, the mailbox keeps
  -- its messages and stays closed once it is, no receiver of the notifier is lost, and who waits
  -- for the actor does not change.
  pub run_commands-Forward :
      (ks : List Command) (c d : Ctx R Chan W S) → run_commands tk ks c ≡ ok d → Forward tk c d
  unfolding run_commands
  run_commands-Forward [] c d h = ground (arith, Forward-refl c)
  run_commands-Forward (k ∷ ks) c d h =
      let (e, first, rest) = >>=-eq-ok (run_command tk k c) (run_commands tk ks) h in
      Forward-trans (run_command-Forward k c e first) (run_commands-Forward ks e d rest)

-- ===== src/Tests/Raising.antt =====
-- An example for the theorem on what is told of a child, with an account of the messages.
use tokactor.Common.{ℕ, ◌≡◌, refl, true, false, Option, some, List, [], ◌∷◌, ok, arith}
use tokactor.Tokio.{SupervisorMessage}
use tokactor.Tokio.Recording.{Account, recording}
use tokactor.Tokio.Simple.{Queue, simple, simple_laws}
use tokactor.Message.{SendMessage, ChildError}
use tokactor.Address.{Reply}
use tokactor.Context.{run_commands}
use tokactor.Executor.{process_message, run_message, send, scheduler, check_anonymous_actors}
use tokactor.Executor.Awaits.{Event, delivers, wakes, notified, drive}
use tokactor.Executor.Loops.{
  run_supervised_actor, supervised_turn, shutdown_executor, stopping_loop, stopped_phase, stop,
  drain,
}
use tokactor.Supervision.{DeadActor}
use tokactor.Supervision.Children.{child_task, Told}
use tokactor.Supervision.Children.Replayed.{Replays, child_task-Replays}
use tokactor.Tests.{tk, counter, add}
use tokactor.Tests.Lives.{rtk, kept, counter-Plain}

abbrev News : Type 0
News = Reply (DeadActor ℕ ℕ (Account tk) ℕ ℕ) (ChildError ℕ)

abbrev parent : Queue (SendMessage News)
parent = record { items = []; limit = 2; shut = false }

-- The second message is still in the mailbox when the child is told to stop.
abbrev two_then_stop : List (Event ℕ)
two_then_stop =
    delivers (add 2) ∷ wakes ∷ delivers (add 3) ∷ notified (some SupervisorMessage.shutdown) ∷ []

child_task-Replays_example :
    (p : Option (ℕ × ℕ) × Queue (SendMessage News)) × (child_task rtk counter simple
        (λ n. n)
        true
        0
        kept
        two_then_stop
        parent
      ≡ ok p)
    × Told rtk counter simple
        (λ n. n)
        (Replays tk counter simple_laws 1)
        true
        0
        parent
        (run_supervised_actor rtk counter kept two_then_stop)
        p
unfolding run_supervised_actor drive supervised_turn shutdown_executor stopping_loop stopped_phase
    stop drain process_message run_message send scheduler run_commands check_anonymous_actors
    recording
child_task-Replays_example =
    child_task-Replays tk counter simple (λ n. n) simple_laws simple_laws true 0 kept two_then_stop
      parent counter-Plain refl (λ e. cc) (λ e. cc) refl (omega arith)

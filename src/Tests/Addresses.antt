-- ===== src/Tests/Addresses.antt =====
-- Examples for the theorems on addresses and on what a supervisor hears.
use tokactor.Common.{
  Option, ℕ, ◌≡◌, refl, true, false, none, some, List, [], ◌∷◌, ok, panicked, arith,
}
use tokactor.Tokio.Simple.{Queue, simple, simple_laws}
use tokactor.Message.{running, SendMessage, cancelled_envelope, confide, success, ChildError}
use tokactor.Address.{
  Reply, fine, ask, async_ask, wait_for_completion, into_future, shutdown_message,
}
use tokactor.Address.Results.{ask_lem, into_future_lem}
use tokactor.Executor.{Executor, process_message, run_message, scheduler, check_anonymous_actors}
use tokactor.Supervision.{Race, finishes, delegate, DeadActor, handle}
use tokactor.Supervision.Delegation.{delegate_lem}
use tokactor.Supervision.Children.{child_task, Told, child_task-Told}
use tokactor.Tokio.{SupervisorMessage}
use tokactor.Executor.Awaits.{Event, notified, drive}
use tokactor.Executor.Loops.{
  run_supervised_actor, supervised_turn, shutdown_executor, stopping_loop, stopped_phase, stop,
  drain,
}
use tokactor.Executor
use tokactor.Executor.Ending.{Ended}
use tokactor.Context.{run_commands}
use tokactor.Tests.{Box, tk, counter, box, ctx, exec, add}

abbrev full : Box
full = box false (add 1 ∷ add 2 ∷ add 3 ∷ add 4 ∷ [])

abbrev empty : Box
empty = box false []

abbrev shut : Box
shut = box true []

ask_example :
    (ask tk {R = ℕ} 5 0 (some 9) shut ≡ panicked)
    × (async_ask tk {R = ℕ} 5 0 (some 9) shut ≡ panicked)
ask_example = ask_lem tk simple_laws 5 0 (some 9) shut

into_future_example :
    (into_future tk {A = ℕ} 0 (some 6) empty
      ≡ ok (fine 6, box false (shutdown_message true 0 ∷ [])))
    × (wait_for_completion tk {A = ℕ} 0 (some 6) empty
        ≡ ok (fine 6, box false (shutdown_message false 0 ∷ [])))
into_future_example = into_future_lem tk simple_laws 0 (some 6) empty

abbrev typed : {M : Type 0} → List M → Queue M
typed ms = record { items = ms; limit = 1; shut = false }

abbrev News : Type 0
News = Reply (DeadActor ℕ ℕ Box ℕ ℕ) (ChildError ℕ)

abbrev family : Queue (SendMessage News)
family = typed []

abbrev five : Race ℕ
five = finishes 5

delegate_example :
    (delegate tk false 9 (handle false five) empty
      ≡ (some (9, 5), ok (box false (cancelled_envelope (confide success) ∷ []))))
    × (delegate tk true 9 (handle false five) empty
        ≡ (none, ok (box false (cancelled_envelope (confide success) ∷ []))))
delegate_example = delegate_lem tk simple_laws false 9 five empty

abbrev kid : Executor ℕ ℕ Box ℕ ℕ
kid = exec 1 (ctx running (box false (add 2 ∷ [])) 0)

abbrev told_off : List (Event ℕ)
told_off = notified (some SupervisorMessage.shutdown) ∷ []

child_task-Told_example :
    (p : Option (ℕ × ℕ) × Queue (SendMessage News)) × (child_task tk counter simple
        (λ n. n)
        true
        0
        kid
        told_off
        family
      ≡ ok p)
    × Told tk counter simple
        (λ n. n)
        (λ y. Ended tk y.context)
        true
        0
        family
        (run_supervised_actor tk counter kid told_off)
        p
unfolding run_supervised_actor drive supervised_turn shutdown_executor stopping_loop stopped_phase
    stop drain process_message run_message Executor.send scheduler run_commands
    check_anonymous_actors
child_task-Told_example =
    child_task-Told tk counter simple (λ n. n) simple_laws simple_laws true 0 kid told_off family
      (λ e. cc) (λ e. cc) refl (omega arith)

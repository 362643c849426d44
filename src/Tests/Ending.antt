-- ===== src/Tests/Ending.antt =====
-- Examples for the theorems on how an actor ends.
use tokactor.Common.{ℕ, ◌≡◌, refl, true, false, some, List, [], ◌∷◌, ◌++◌, replicate}
use tokactor.Tokio.Simple.{simple_laws}
use tokactor.Message.{running, stopping, stopped, into_inner}
use tokactor.Context.{run_commands, subscribe_and_stop, stop_ctx}
use tokactor.Executor.{
  Executor, check_anonymous_actors, process_message, run_message, send, scheduler,
}
use tokactor.Actor.{Prompt}
use tokactor.Executor.Awaits.{ended, stay, Event, delivers, wakes, sleeps, panics, drive}
use tokactor.Executor.Loops.{
  poll_recv, told, stopping_turn, stop, drain, actor_turn, stopping_loop, stopped_phase,
  shutdown_executor, run_actor, run_supervised_actor, supervised_turn,
}
use tokactor.Executor.Shutdown.{Drained, stop-Drained}
use tokactor.Executor.Terminating.{Over}
use tokactor.Executor.Stoppable.{stop_signal, run_supervised_actor-Stops}
use tokactor.Executor.Ending.{Finished, run_actor-Finished}
use tokactor.Executor.Timeouts.{stopping_loop-sleeps, stopping_loop-spins}
use tokactor.Tests.{Box, tk, counter, box, ctx, exec, add, await_it}

abbrev closing : Executor ℕ ℕ Box ℕ ℕ
closing = exec 1 (ctx stopped (box true (add 2 ∷ add 3 ∷ [])) 0)

abbrev over : ℕ → Executor ℕ ℕ Box ℕ ℕ
over a = exec a (ctx stopped (box true []) 0)

stop-Drained_example : Drained tk counter closing (over 6)
unfolding stop drain process_message run_message send scheduler run_commands
stop-Drained_example = stop-Drained tk counter simple_laws closing (over 6) refl refl

abbrev waited_by_two : Executor ℕ ℕ Box ℕ ℕ
waited_by_two = exec 1 (ctx running (box false (add 2 ∷ add 3 ∷ [])) 2)

counter-Prompt : Prompt counter
counter-Prompt (u, a, b, e) = cc e

abbrev told_to_stop : Executor ℕ ℕ Box ℕ ℕ
told_to_stop = exec 1 (ctx stopping (box false (add 2 ∷ add 3 ∷ [])) 0)

abbrev awaited : Executor ℕ ℕ Box ℕ ℕ
awaited = exec 1 (ctx running (box false (add 2 ∷ await_it 9 ∷ add 3 ∷ [])) 0)

run_actor-Finished_example : Finished tk counter simple_laws (over 6) (some (9, 6))
unfolding run_actor drive actor_turn shutdown_executor stopping_loop stopped_phase stop drain
    process_message run_message send scheduler run_commands subscribe_and_stop stop_ctx
    check_anonymous_actors into_inner
run_actor-Finished_example =
    run_actor-Finished tk counter simple_laws awaited (wakes ∷ wakes ∷ []) (over 6) (some (9, 6)) []
      refl

abbrev parent : Executor ℕ ℕ Box ℕ ℕ
parent = exec 1 (ctx stopping (box true []) 1)

stopping_loop-sleeps_example : stopping_loop tk counter parent (replicate 11 sleeps) ≡ panics
stopping_loop-sleeps_example = stopping_loop-sleeps tk counter simple_laws parent (λ e. cc) 11

stopping_loop-spins_example :
    (poll_recv tk counter (told tk counter parent).context.mailbox ≡ ended)
    × ((n : ℕ)
        → (stopping_turn tk counter (n, told tk counter parent) wakes
            ≡ stay (n, told tk counter parent))
          × (drive
                (stopping_turn tk counter)
                (n, told tk counter parent)
                (replicate 100 wakes ++ sleeps ∷ [])
              ≡ drive (stopping_turn tk counter) (n, told tk counter parent) (sleeps ∷ [])))
    × (stopping_loop tk counter parent (replicate 100 wakes ++ sleeps ∷ [])
        ≡ stopping_loop tk counter parent (sleeps ∷ []))
stopping_loop-spins_example =
    stopping_loop-spins tk counter simple_laws parent (λ e. cc) 100 (sleeps ∷ []) refl refl

-- A child that has handled a message and waits for the next.
abbrev at_work : List (Event ℕ)
at_work = delivers (add 2) ∷ wakes ∷ delivers (add 3) ∷ []

run_supervised_actor-Stops_example :
    (k : ℕ) × Over tk counter simple_laws (
      run_supervised_actor tk counter
        (exec 1 (ctx running (box false []) 1))
        (at_work ++ stop_signal k))
unfolding run_supervised_actor drive supervised_turn process_message run_message send scheduler
    run_commands check_anonymous_actors
run_supervised_actor-Stops_example =
    run_supervised_actor-Stops tk counter simple_laws counter-Prompt
      (exec 1 (ctx running (box false []) 1)) at_work refl

-- ===== src/Tests/Serving.antt =====
-- Examples for the theorems on whole runs, on answers and on relays.
use tokactor.Common.{ℕ, ◌+◌, ◌≡◌, refl, true, false, some, [], ◌∷◌, ◌++◌}
use tokactor.Tokio.Simple.{simple_laws}
use tokactor.Message.{running, stopped}
use tokactor.Context.{run_commands, replies}
use tokactor.Address.{ask_message, shutdown_message}
use tokactor.Executor.{Executor, run_message, send, scheduler}
use tokactor.Executor.Awaits.{wakes, ready}
use tokactor.Executor.Loops.{run_actor}
use tokactor.Executor.Answering.{answered, run_message-answers}
use tokactor.Executor.Silent.{Silent}
use tokactor.Executor.Quiet.{Quiet}
use tokactor.Executor.Awaiting.{run_actor-awaited}
use tokactor.Tests.{Box, tk, counter, box, ctx, exec, add}

abbrev asked : Executor ℕ ℕ Box ℕ ℕ
asked = exec 4 (ctx running (box false []) 0)

abbrev told : Executor ℕ ℕ Box ℕ ℕ
told = exec 7 (record (ctx running (box false []) 0) { effects = replies 9 7 ∷ [] })

run_message-answers_example : answered tk counter told ≡ [] ++ (9, 7) ∷ []
unfolding run_message send scheduler run_commands
run_message-answers_example = run_message-answers tk counter asked (ask_message 3 9) told refl

counter-Silent : Silent counter
counter-Silent = record {
  on_start = λ a. refl;
  pre_run = λ a. refl;
  post_run = λ a. refl;
  on_stopping = λ a. refl;
  on_stopped = λ a. refl;
  on_end = λ a. refl;
}

pub counter-Quiet : Quiet counter (λ u a. a + u)
counter-Quiet = record { silent = counter-Silent; handle = λ u a. refl }

abbrev waited_for : Executor ℕ ℕ Box ℕ ℕ
waited_for = exec 1 (ctx running (box false (add 2 ∷ shutdown_message true 9 ∷ add 3 ∷ [])) 0)

run_actor-awaited_example :
    (y : Executor ℕ ℕ Box ℕ ℕ) × (run_actor tk counter waited_for (wakes ∷ wakes ∷ [])
      ≡ ready (y, some (9, 6)) [])
    × (y.actor ≡ 6)
run_actor-awaited_example =
    run_actor-awaited tk counter simple_laws (λ u a. a + u) counter-Quiet (2 ∷ []) (3 ∷ []) 9
      waited_for (record { runs = refl; alone = refl; settled = refl }) refl

abbrev gone : Executor ℕ ℕ Box ℕ ℕ
gone = exec 3 (ctx stopped (box true []) 0)

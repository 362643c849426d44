-- ===== src/Tests/Running.antt =====
-- Examples for the theorems on contexts and on the processing of a message.
use tokactor.Common.{ℕ, ◌≡◌, ◌↔◌, refl, true, false, List, [], ◌∷◌, ok, arith}
use tokactor.Tokio.Simple.{simple_laws}
use tokactor.Message.{running, stopping}
use tokactor.Actor.{Command, stop, spawn, anonymous}
use tokactor.Context.{
  Ctx, run_commands, run_command, new, spawn_task, stop_ctx, anonymous_ctx,
  acquire_anonymous_permit, starts, child, message_task,
}
use tokactor.Context.Permits.{Accounted, run_commands-Accounted}
use tokactor.Executor.{
  continue, process_message, run_message, send, scheduler, check_anonymous_actors,
}
use tokactor.Executor.Anonymous.{settle, check_anonymous_actors-settle}
use tokactor.Executor.Reaching.{Progress}
use tokactor.Executor.Progress.{process_message-Progress}
use tokactor.Tests.{Box, tk, counter, box, ctx, exec, add}

abbrev idle : Ctx ℕ Box ℕ ℕ
idle = ctx running (box false []) 0

abbrev busy : Ctx ℕ Box ℕ ℕ
busy = record (ctx stopping (box false []) 2) {
  max_anonymous_actors = 1;
  effects = starts child ∷ starts (message_task true) ∷ [];
}

abbrev calls : List Command
calls = spawn ∷ anonymous ∷ stop ∷ []

run_commands-Accounted_example : Accounted tk 2 busy
unfolding run_commands run_command spawn_task stop_ctx anonymous_ctx acquire_anonymous_permit new
run_commands-Accounted_example = run_commands-Accounted tk simple_laws counter calls busy refl

abbrev overflowing : Ctx ℕ Box ℕ ℕ
overflowing = record idle { max_anonymous_actors = 0; overflow_anonymous_actors = 3 }

check_anonymous_actors-settle_example :
    check_anonymous_actors tk counter overflowing ≡ ok (settle tk counter overflowing)
check_anonymous_actors-settle_example =
    check_anonymous_actors-settle tk counter overflowing (omega arith) (omega arith)

process_message-Progress_example :
    Progress tk idle idle × ((continue ≡ continue) ↔ (running ≡ running))
unfolding process_message run_message send scheduler run_commands
process_message-Progress_example =
    process_message-Progress tk counter simple_laws (exec 4 idle) (add 3) (exec 7 idle) continue
      refl

-- ===== src/Tests/Lives.antt =====
-- Examples for the theorems on whole lives of actors and their tasks.
use tokactor.Common.{
  Option, ℕ, ◌+◌, ◌≡◌, ◌≢◌, ◌↔◌, refl, true, false, some, none, List, [], ◌∷◌, ◌++◌, panicked,
}
use tokactor.Tokio.Recording.{Account, recording}
use tokactor.Executor.Replay.{replay}
use tokactor.Executor.Replay.Runs.{Plain, run_actor-replay}
use tokactor.Tokio.Simple.{simple_laws}
use tokactor.Tokio.{Tokio, SupervisorMessage}
use tokactor.Message.{SendMessage, running, stopped, into_inner}
use tokactor.Actor.{spawn}
use tokactor.Context.{
  child, run_command, spawn_task, new, run_commands, subscribe_and_stop, stop_ctx, starts,
}
use tokactor.Executor.{
  Executor, check_anonymous_actors, process_message, run_message, send, scheduler,
}
use tokactor.Executor.Awaits.{Event, Outcome, ready, delivers, notified, wakes, drive}
use tokactor.Executor.Loops.{
  run_supervised_actor, supervised_turn, actor_turn, run_actor, shutdown_executor, stopping_loop,
  stopped_phase, stop, drain,
}
use tokactor.Executor.Inbox.{Inbox, sends, turns, serve}
use tokactor.Executor.Refinement.{Shows, schedule, actor_turn_refines}
use tokactor.Executor.Trace.{
  Noting, walked, over, run_actor-walked, run_supervised_actor-walked, Callback, on_start, pre_run,
  handler, post_run, on_stopping, on_stopped, on_end,
}
use tokactor.Family.{Family, Reach, start, next, calls, started}
use tokactor.Family.Counting.{Counted, Reach-safe}
use tokactor.Tests.{Box, tk, counter, box, ctx, exec, add, await_it}
use tokactor.Tests.Serving.{counter-Quiet}

abbrev fresh : Executor ℕ ℕ Box ℕ ℕ
fresh = exec 1 (ctx running (box false []) 0)

abbrev inbox : Inbox ℕ ℕ
inbox = record { waiting = []; actor = 1 }

actor_turn_refines_example :
    (y : Executor ℕ ℕ Box ℕ ℕ) × (drive
        (actor_turn tk counter)
        fresh
        (schedule (sends 2 ∷ sends 3 ∷ turns ∷ []) ++ wakes ∷ [])
      ≡ drive (actor_turn tk counter) y (wakes ∷ []))
    × Shows tk counter simple_laws
        (λ u a. a + u)
        counter-Quiet
        y
        (serve 4 (λ u a. a + u) (sends 2 ∷ sends 3 ∷ turns ∷ []) inbox)
actor_turn_refines_example =
    actor_turn_refines tk counter simple_laws (λ u a. a + u) counter-Quiet
      (sends 2 ∷ sends 3 ∷ turns ∷ []) fresh inbox (wakes ∷ [])
      (record {
        calm = record { runs = refl; alone = refl; settled = refl };
        open_ = refl;
        holds = refl;
        same = refl;
      })

abbrev noted : Executor (Noting counter) ℕ Box ℕ ℕ
noted = record {
  actor = (1, []);
  context = ctx running (box false (add 2 ∷ await_it 9 ∷ add 3 ∷ [])) 0;
  receiver = none;
}

abbrev story : List Callback
story =
    on_end ∷ post_run ∷ handler ∷ pre_run ∷ on_stopped ∷ on_stopping ∷ post_run ∷ pre_run ∷ post_run
    ∷ handler ∷ pre_run ∷ on_start ∷ []

abbrev ended : Executor (Noting counter) ℕ Box ℕ ℕ
ended = record { actor = (6, story); context = ctx stopped (box true []) 0; receiver = none }

run_actor-walked_example : walked story ≡ some over
unfolding run_actor drive actor_turn shutdown_executor stopping_loop stopped_phase stop drain
    process_message run_message send scheduler run_commands subscribe_and_stop stop_ctx
    check_anonymous_actors into_inner
run_actor-walked_example =
    run_actor-walked tk counter noted ended (wakes ∷ wakes ∷ []) [] (some (9, (6, story))) refl refl

abbrev short_story : List Callback
short_story = on_end ∷ on_stopped ∷ on_stopping ∷ post_run ∷ handler ∷ pre_run ∷ on_start ∷ []

abbrev noted_with : List (SendMessage ℕ) → Executor (Noting counter) ℕ Box ℕ ℕ
noted_with ms = record noted { context = ctx running (box false ms) 0 }

run_supervised_actor-walked_example : walked short_story ≡ some over
unfolding run_supervised_actor drive supervised_turn shutdown_executor stopping_loop stopped_phase
    stop drain process_message run_message send scheduler run_commands check_anonymous_actors
run_supervised_actor-walked_example =
    run_supervised_actor-walked tk counter (noted_with (add 2 ∷ []))
      (record ended { actor = (3, short_story) })
      (wakes ∷ notified (some SupervisorMessage.shutdown) ∷ []) [] refl refl

abbrev one_child : Family ℕ Box ℕ ℕ
one_child = record {
  context = record (ctx running (box false []) 1) { effects = starts child ∷ [] };
  watching = child ∷ [];
  permitted = child ∷ [];
}

one_child-Reach : Reach tk counter one_child
unfolding run_command spawn_task started new
one_child-Reach = next start (calls spawn one_child.context refl)

Reach-safe_example :
    Counted tk counter simple_laws one_child
    × (check_anonymous_actors tk counter one_child.context ≢ panicked)
    × ((one_child.context.notifier ≡ 0) ↔ (one_child.watching ≡ []))
Reach-safe_example = Reach-safe tk counter simple_laws one_child-Reach

abbrev pub rtk : Tokio (SendMessage ℕ) (Account tk) ℕ ℕ
rtk = recording tk simple_laws

abbrev pub Kept : Type 0
Kept = Executor ℕ ℕ (Account tk) ℕ ℕ

abbrev pub kept : Kept
kept = record {
  actor = 1;
  context = record {
    mailbox = record { chan = box false []; accepted = []; taken = []; balance = refl };
    notifier = 0;
    state = running;
    max_anonymous_actors = 2;
    overflow_anonymous_actors = 0;
    into_future_sender = none;
    effects = [];
  };
  receiver = none;
}

abbrev final : Outcome ℕ (Kept × Option (ℕ × ℕ)) → Kept
final (ready (y, sent) rest) = y
final _ = kept

abbrev mixed : List (Event ℕ)
mixed = delivers (add 2) ∷ delivers (await_it 9) ∷ wakes ∷ delivers (add 3) ∷ wakes ∷ []

abbrev kept_end : Kept
kept_end = final (run_actor rtk counter kept mixed)

pub counter-Plain : Plain counter
counter-Plain = record {
  on_stopping = λ a b ks h. cc;
  on_stopped = λ a b ks h. cc;
  on_end = λ a b ks h. cc;
}

run_actor-replay_example : kept_end.actor ≡ replay counter kept_end.context.mailbox.accepted 1
unfolding run_actor drive actor_turn shutdown_executor stopping_loop stopped_phase stop drain
    process_message run_message send scheduler run_commands subscribe_and_stop stop_ctx
    check_anonymous_actors into_inner recording
run_actor-replay_example =
    run_actor-replay tk counter simple_laws kept kept_end mixed [] (some (9, 6)) counter-Plain refl
      refl

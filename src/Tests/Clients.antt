-- ===== src/Tests/Clients.antt =====
-- Examples for the theorems on the programs that use the library.
use tokactor.Common.{
  ◌<◌, ◌≤◌, ℕ, ◌+◌, ◌≡◌, refl, false, Option, none, some, ok, arith, [], ◌∷◌, ◌⊎◌, panicked,
}
use tokactor.Tokio.{Tokio}
use tokactor.Tokio.Simple.{Queue, simple, simple_laws}
use tokactor.Message.{SendMessage, running}
use tokactor.Address.{shutdown_message}
use tokactor.Executor.{Executor}
use tokactor.Executor.Awaits.{delivers, wakes, ready, panics}
use tokactor.Executor.Loops.{run_actor}
use tokactor.Examples.PingPong.{Msg, ping, ping_pong, program}
use tokactor.Examples.PingPong.Playing.{Comes, run_actor-counts}
use tokactor.Examples.Stateful.{state, unit_message, compute_state, compute_state-races}

abbrev unit_room : Tokio (SendMessage (Unit {0})) (Queue (SendMessage (Unit {0}))) ℕ ℕ
unit_room = simple

abbrev computing : Executor ℕ (Unit {0}) (Queue (SendMessage (Unit {0}))) ℕ ℕ
computing = record {
  actor = 7;
  context = record {
    mailbox = record { items = unit_message ∷ []; limit = 6; shut = false };
    notifier = 0;
    state = running;
    max_anonymous_actors = 2305843009213693951;
    overflow_anonymous_actors = 0;
    into_future_sender = none;
    effects = [];
  };
  receiver = none;
}

compute_state-races_example :
    ((y : Executor ℕ (Unit {0}) (Queue (SendMessage (Unit {0}))) ℕ ℕ) × (run_actor unit_room state
          computing
          (delivers (shutdown_message false 3) ∷ wakes ∷ [])
        ≡ ready (y, some (3, 7)) [])
      × (compute_state {St = ℕ} unit_room 3 (some 7) computing.context.mailbox ≡ ok 7))
    × ((z : Executor ℕ (Unit {0}) (Queue (SendMessage (Unit {0}))) ℕ ℕ) × (run_actor unit_room state
            computing
            (wakes ∷ [])
          ≡ ready (z, none) [])
        × ((o : Option ℕ) → compute_state unit_room 3 o z.context.mailbox ≡ panicked))
compute_state-races_example =
    compute_state-races unit_room simple_laws computing 3 []
      (record { runs = refl; alone = refl; settled = refl }) refl refl (omega arith) refl

abbrev msg_room : Tokio (SendMessage Msg) (Queue (SendMessage Msg)) ℕ ℕ
msg_room = simple

-- The actor of the program, before its ten questions.
abbrev at_zero : Executor ℕ Msg (Queue (SendMessage Msg)) ℕ ℕ
at_zero = record {
  actor = 0;
  context = record {
    mailbox = record { items = []; limit = 6; shut = false };
    notifier = 0;
    state = running;
    max_anonymous_actors = 2305843009213693951;
    overflow_anonymous_actors = 0;
    into_future_sender = none;
    effects = [];
  };
  receiver = none;
}

run_actor-counts_example :
    ((0 + 10 < 256)
      × Comes msg_room simple_laws 10 ping 0 at_zero
          (run_actor msg_room ping_pong at_zero (program 10 ping 0)))
    ⊎ ((256 ≤ 0 + 10) × (run_actor msg_room ping_pong at_zero (program 10 ping 0) ≡ panics))
run_actor-counts_example =
    run_actor-counts msg_room simple_laws 10 ping 0 at_zero
      (record {
        calm = record { runs = refl; alone = refl; settled = refl };
        empty = refl;
        open_ = refl;
        room = omega arith;
      })
      (omega arith)

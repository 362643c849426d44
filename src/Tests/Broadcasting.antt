-- ===== src/Tests/Broadcasting.antt =====
-- An example for the theorem on the server that hands on what its clients say.
use tokactor.Common.{ℕ, ◌≡◌, refl, false, none, some, List, [], ◌∷◌}
use tokactor.Tokio.{Tokio, SupervisorMessage}
use tokactor.Tokio.Simple.{Queue, simple, simple_laws}
use tokactor.Tokio.Recording.{Account, recording}
use tokactor.Message.{SendMessage, envelope, enclose, running}
use tokactor.Context.{run_commands, run_command, anonymous_ctx, acquire_anonymous_permit}
use tokactor.Executor.{
  Executor, check_anonymous_actors, process_message, run_message, send, scheduler,
}
use tokactor.Executor.Awaits.{
  Event, Outcome, ready, delivers, wakes, permit_returns, child_exits, notified, drive,
}
use tokactor.Executor.Loops.{
  supervised_turn, run_supervised_actor, shutdown_executor, stopping_loop, stopped_phase, stop,
  drain,
}
use tokactor.Examples.Broadcast.{
  Note, joins, says, leaves, Broadcaster, broadcaster, on_note, insert, remove, entries,
}
use tokactor.Examples.Broadcast.Delivered.{due, received, notes, run_supervised_actor-received}

abbrev Said : Type 0
Said = Note ℕ ℕ

abbrev room : Tokio (SendMessage Said) (Queue (SendMessage Said)) ℕ ℕ
room = simple

abbrev kept : Tokio (SendMessage Said) (Account room) ℕ ℕ
kept = recording room simple_laws

abbrev Server : Type 0
Server = Executor (Broadcaster ℕ ℕ) (Unit {0}) (Account room) ℕ ℕ

abbrev nobody_yet : Server
nobody_yet = record {
  actor = record { clients = []; tasks = [] };
  context = record {
    mailbox = record {
      chan = record { items = []; limit = 6; shut = false };
      accepted = [];
      taken = [];
      balance = refl;
    };
    notifier = 0;
    state = running;
    max_anonymous_actors = 2;
    overflow_anonymous_actors = 0;
    into_future_sender = none;
    effects = [];
  };
  receiver = none;
}

abbrev note : Said → Event Said
note n = delivers (envelope (enclose n))

-- Two clients come and hear a message; the second leaves, and the first hears another one.
abbrev evening : List (Event Said)
evening =
    note (joins 0 50)
    ∷ note (joins 1 51)
    ∷ note (says (7 ∷ []))
    ∷ note (leaves 1)
    ∷ wakes
    ∷ wakes
    ∷ wakes
    ∷ child_exits
    ∷ permit_returns
    ∷ note (says (8 ∷ []))
    ∷ wakes
    ∷ wakes
    ∷ child_exits
    ∷ permit_returns
    ∷ notified (some SupervisorMessage.shutdown)
    ∷ []

abbrev final : Outcome Said Server → Server
final (ready y rest) = y
final _ = nobody_yet

abbrev closing : Server
closing = final (run_supervised_actor kept broadcaster nobody_yet evening)

run_supervised_actor-received_example :
    received 1 closing.actor.tasks ≡ due 1 none (notes closing.context.mailbox.accepted)
unfolding run_supervised_actor supervised_turn drive shutdown_executor stopping_loop stopped_phase
    stop drain process_message run_message send scheduler run_commands run_command anonymous_ctx
    acquire_anonymous_permit check_anonymous_actors on_note insert remove recording
run_supervised_actor-received_example =
    run_supervised_actor-received room simple_laws nobody_yet closing evening [] 1 refl refl refl
      refl

heard_once : received 1 closing.actor.tasks ≡ (51, 7 ∷ []) ∷ []
unfolding run_supervised_actor supervised_turn drive shutdown_executor stopping_loop stopped_phase
    stop drain process_message run_message send scheduler run_commands run_command anonymous_ctx
    acquire_anonymous_permit check_anonymous_actors on_note insert remove recording received entries
heard_once = refl

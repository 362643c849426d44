-- ===== src/Tests/Echoing.antt =====
-- An example for the theorem on the server that writes back what it reads.
use tokactor.Common.{
  take, ltb, inl, inr, Bool-cases, Option, length, ap, ◌++◌, ℕ, ◌≡◌, refl, Bool, true, false,
  Option, none, some, List, [], ◌∷◌, Flow, ok, arith,
}
use tokactor.Tokio.{Tokio}
use tokactor.Tokio.Simple.{Queue, simple, simple_laws}
use tokactor.Tokio.Recording.{Account, recording}
use tokactor.Message.{SendMessage, running, into_inner}
use tokactor.Address.{fine, async_message, shutdown_message, async_ask, into_future}
use tokactor.Context.{run_commands, subscribe_and_stop, stop_ctx}
use tokactor.Executor.{
  Executor, check_anonymous_actors, process_message, run_message, send, scheduler,
}
use tokactor.Executor.Awaits.{Event, Outcome, ready, delivers, wakes, drive}
use tokactor.Executor.Loops.{
  actor_turn, run_actor, shutdown_executor, stopping_loop, stopped_phase, stop, drain,
}
use tokactor.Io.{idle, read, reader_run, reader_step}
use tokactor.Io.Frame.{Read, poll, empty_frame, as_slice}
use tokactor.Io.Socket.{plain, plain_laws}
use tokactor.Io.Frames.{concat}
use tokactor.World.Connection.{
  ConnectionEvent, reads, takes, Connection, connection_run, connection_step, connection_end,
}
use tokactor.World.Connection.Asking.{payloads}
use tokactor.World.Connection.Streamed.{outcomes, connection_run-session}
use tokactor.World.Connection.Session.{Echoes, session}
use tokactor.Examples.Echo.{EchoConnection, connection, print_message}
use tokactor.Examples.Echo.Served.{connection-echoes}

abbrev Bytes : Type 0
Bytes = List ℕ

abbrev room : Tokio (SendMessage Bytes) (Queue (SendMessage Bytes)) ℕ ℕ
room = simple

abbrev kept : Tokio (SendMessage Bytes) (Account room) ℕ ℕ
kept = recording room simple_laws

abbrev any_text : Bytes → Bool
any_text bs = true

abbrev typed : Bytes × Bool
typed = (1 ∷ 2 ∷ 3 ∷ [], true)

abbrev empty_mailbox : Account room
empty_mailbox = record {
  chan = record { items = []; limit = 6; shut = false };
  accepted = [];
  taken = [];
  balance = refl;
}

abbrev Task : Type 0
Task = Connection Bytes (Account room)

abbrev at_first : Task
at_first = record { mailbox = empty_mailbox; asked = []; reading = true }

abbrev talk : List (ConnectionEvent Bytes (Unit {0}) (Unit {0}))
talk =
    reads (fine (some (1 ∷ 2 ∷ []))) 0 (some tt)
    ∷ takes
    ∷ reads (fine (some (3 ∷ []))) 1 none
    ∷ reads (fine none) 2 none
    ∷ []

abbrev settled : Flow Task → Task
settled (ok c) = c
settled _ = at_first

abbrev Server : Type 0
Server = Executor (EchoConnection ℕ ℕ) (Unit {0}) (Account room) ℕ ℕ

abbrev server : Server
server = record {
  actor = record { writer = 5; written = []; writes_left = 1 };
  context = record {
    mailbox = empty_mailbox;
    notifier = 0;
    state = running;
    max_anonymous_actors = 2305843009213693951;
    overflow_anonymous_actors = 0;
    into_future_sender = none;
    effects = [];
  };
  receiver = none;
}

abbrev schedule : List (Event Bytes)
schedule =
    delivers (async_message (1 ∷ 2 ∷ []) 0)
    ∷ wakes
    ∷ delivers (async_message (3 ∷ []) 1)
    ∷ delivers (shutdown_message true 7)
    ∷ wakes
    ∷ wakes
    ∷ []

abbrev final : Outcome Bytes (Server × Option (ℕ × EchoConnection ℕ ℕ)) → Server
final (ready (y, sent) rest) = y
final _ = server

abbrev whole_run : Outcome Bytes (Server × Option (ℕ × EchoConnection ℕ ℕ))
whole_run = run_actor kept (connection ℕ ℕ any_text) server schedule

abbrev asked : Task
asked = settled (connection_run kept talk at_first)

abbrev told : Task
told = settled (connection_end kept {A = EchoConnection ℕ ℕ} 7 none asked)

-- The writer actor lives for one write only.
connection-echoes_example :
    ((final whole_run).actor.written ≡ (1 ∷ 2 ∷ []) ∷ [])
    × (concat (final whole_run).actor.written ++ 3 ∷ [] ≡ 1 ∷ 2 ∷ 3 ∷ [])
unfolding run_actor drive actor_turn shutdown_executor stopping_loop stopped_phase stop drain
    process_message run_message send scheduler run_commands subscribe_and_stop stop_ctx
    check_anonymous_actors into_inner recording connection_run connection_step connection_end
    async_ask into_future reader_run payloads session reader_step poll empty_frame as_slice
    print_message
connection-echoes_example =
    connection-echoes room simple_laws any_text plain plain_laws 0 2 (omega arith) typed 5 9
      (omega arith) refl talk at_first asked told 7 none refl refl refl refl refl refl server
      (final whole_run) schedule []
      (some (7, record { writer = 5; written = (1 ∷ 2 ∷ []) ∷ []; writes_left = 0 })) refl refl refl
      refl

-- The payload of the examples in the repository.
abbrev data_recv : List ℕ → Read ℕ → List ℕ × Option (List ℕ)
data_recv p frame = (p, some (take frame.read_len frame.buffer))

data_recv-Echoes : Echoes data_recv
unfolding as_slice
data_recv-Echoes = record {
  echo = λ p r bs h. elim (Bool-cases (ltb (length r.buffer) r.read_len)) [
    | inl over_ ↦ cc (rw over_ at h)
    | inr fits ↦ let same : take r.read_len r.buffer ≡ bs = cc (rw fits at h) in ap some same
  ];
}

abbrev asked_both : Task
asked_both = settled (connection_run kept talk at_first)

connection_run-session_example :
    ((reader_run [] data_recv idle (session plain 0 2 5 9 typed)).1 ≡ idle)
    × (asked_both.reading ≡ false)
    × (asked_both.asked ≡ (1 ∷ 2 ∷ []) ∷ (3 ∷ []) ∷ [])
    × (concat {B = ℕ} ((1 ∷ 2 ∷ []) ∷ (3 ∷ []) ∷ []) ≡ 1 ∷ 2 ∷ 3 ∷ [])
unfolding read reader_run payloads session reader_step poll empty_frame as_slice outcomes
    connection_run connection_step async_ask recording
connection_run-session_example =
    connection_run-session kept plain 0 2 [] data_recv data_recv-Echoes plain_laws (omega arith) 5 9
      typed talk at_first asked_both (omega arith) refl refl refl refl

-- ===== src/Tests/Worlds.antt =====
-- Examples for the theorems on sockets and worlds.
use tokactor.Common.{
  ℕ, ◌+◌, ◌*◌, ◌≤◌, ◌≡◌, refl, Bool, true, false, some, none, List, [], ◌∷◌, ◌++◌, if◌then◌else◌,
  ok, panicked, blocked, arith,
}
use tokactor.Tokio.Simple.{simple_laws}
use tokactor.Address.{fine, failed, async_ask}
use tokactor.World.Connection.{
  ConnectionEvent, reads, takes, exits, Connection, connection_run, connection_step,
}
use tokactor.World.Connection.Asking.{payloads, goes_on, connection_run-payloads}
use tokactor.World.Connection.Ending.{exchange, connection_run_lem}
use tokactor.World.Connection.{connection_end}
use tokactor.Context.{run_commands}
use tokactor.Executor.Awaits.{Event, child_exits, sleeps, drive}
use tokactor.Executor.Loops.{
  shutdown_executor, stopping_loop, await_children, stopping_turn, stopped_phase, stop, drain,
}
use tokactor.Executor.Raw.{raw_ask, raw_shutdown}
use tokactor.Io.Tcp.{Net, stream, TcpListener, accept, departed, tcp_actors, shutdown}
use tokactor.World.Inputs.Serving.{input_run, all_exits, input_run-exits}
use tokactor.Message.{running}
use tokactor.Io.Component.{Component}
use tokactor.World.Inputs.{
  InputEvent, serving, dead, accepts, departs, told, shuts, WorldEvent, ctrl_c, wakes, World,
  completed, on_inputs, world_run, world_step, input_step,
}
use tokactor.World.Inputs.Completion.{Each, nil, cons, Dead, pressed, world_run-Dead}
use tokactor.World.Inputs.Stopping.{serves, died, world_run-completed}
use tokactor.Tests.{await_it, Box, tk, counter, box, ctx, exec}

abbrev connected : List ℕ → Connection ℕ Box
connected asked = record { mailbox = box false []; asked = asked; reading = true }

abbrev talk : List (ConnectionEvent ℕ ℕ ℕ)
talk =
    reads (fine (some 5)) 0 (some 8)
    ∷ takes
    ∷ reads (fine (some 6)) 1 (some 9)
    ∷ takes
    ∷ reads (failed 104) 2 none
    ∷ []

connection_run-payloads_example : (5 ∷ 6 ∷ [] ≡ [] ++ payloads talk) × (false ≡ goes_on talk)
unfolding connection_run connection_step async_ask
connection_run-payloads_example =
    connection_run-payloads tk talk (connected [])
      (record { mailbox = box false []; asked = 5 ∷ 6 ∷ []; reading = false }) refl refl

abbrev hangs_up : List (ConnectionEvent ℕ ℕ ℕ)
hangs_up = reads (fine none) 1 none ∷ []

abbrev talks_on : List (ConnectionEvent ℕ ℕ ℕ)
talks_on = exits ∷ reads (fine (some 6)) 1 none ∷ []

connection_run_example :
    ((d : Connection ℕ Box) × (connection_run tk
          (exchange tk ((5, 0, 8) ∷ []) hangs_up)
          (connected [])
        ≡ ok d)
      × (d.reading ≡ false)
      × (d.asked ≡ [] ++ 5 ∷ [])
      × ((z : Connection ℕ Box) × (connection_end tk {A = ℕ} 7 (some 13) d ≡ ok z)
          × (z.mailbox.items ≡ await_it 7 ∷ [])))
    × (connection_run tk (exchange tk ((5, 0, 8) ∷ []) talks_on) (connected []) ≡ panicked)
connection_run_example =
    connection_run_lem tk simple_laws 7 (some 13) ((5, 0, 8) ∷ []) 6 1 none [] (connected [])
      (record { reading = refl; open_ = refl; empty = refl; room = omega arith })

-- A component that accepts a connection whenever it is polled and shuts down when it is told `true`.
abbrev willing : Component ℕ ℕ ℕ ℕ Bool
willing = record {
  accept = λ c. ok (some (fine (c, c)), c + 1);
  departed = λ c. c;
  shutdown = λ c d. if d then ok tt else blocked;
}

-- One that cannot accept, nor shut down.
abbrev broken : Component ℕ ℕ ℕ ℕ Bool
broken = record {
  accept = λ c. ok (some (failed 24), c);
  departed = λ c. c;
  shutdown = λ c d. blocked;
}

world_run-Dead_example :
    Each Dead (world_run broken (wakes 0 accepts ∷ []) (on_inputs (7 ∷ []))).inputs
unfolding pressed completed world_run world_step input_step on_inputs
world_run-Dead_example = world_run-Dead broken (7 ∷ []) (wakes 0 accepts ∷ []) refl refl

abbrev busy : World ℕ (ℕ × ℕ)
busy = record { inputs = dead [] ∷ serving 9 ((7, 7) ∷ (8, 8) ∷ []) ∷ []; shut = false }

world_run-completed_example :
    (es : List (WorldEvent Bool)) × (completed (world_run willing (ctrl_c ∷ es) busy) ≡ true)
world_run-completed_example =
    world_run-completed willing busy (cons died (cons (serves true refl) nil))

-- A network on which the same peer calls again and again.
abbrev net : Net ℕ ℕ ℕ ℕ ℕ ℕ ℕ ℕ ℕ
net = record {
  bind = λ place. fine place;
  poll_accept = λ l. (stream l l, l);
  into_split = λ str. (str, str);
  reader_channel = λ n. n;
  writer_channel = λ n. n;
}

abbrev request : ℕ → ℕ → ℕ
request writer address = writer + address

abbrev listener : TcpListener ℕ ℕ Box ℕ ℕ ℕ ℕ ℕ ℕ ℕ
listener = record {
  executor = some (exec 1 (ctx running (box false []) 0));
  listener = 5;
  tasks = [];
}

abbrev served : List (Bool × InputEvent (List (Event ℕ)))
served =
    (false, accepts)
    ∷ (false, departs)
    ∷ (true, told)
    ∷ (true, shuts (child_exits ∷ sleeps ∷ []))
    ∷ []

input_run-exits_example : 2 * 1 ≤ all_exits served
unfolding input_run input_step departed accept tcp_actors raw_ask shutdown raw_shutdown
    shutdown_executor stopping_loop await_children drive stopping_turn stopped_phase stop drain
    run_commands
input_run-exits_example =
    input_run-exits tk counter simple_laws net request listener
      (exec 1 (ctx running (box false []) 0)) served ((10, 16) ∷ []) refl refl

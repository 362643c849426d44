-- ===== src/Lib.antt =====
-- tokactor: a verification of the actor library in src/ of the repository.
--
-- An actor owns a context (context.rs) and is run by an executor (executor.rs), which takes boxed
-- envelopes (envelope.rs) out of the context's mailbox and lets them call the user's handlers
-- (actor.rs). Others reach it through addresses (address.rs), which are the sending side of the
-- mailbox. An actor can spawn children and anonymous actors; its notifier tells them to stop and
-- counts them, and they report to its mailbox when they end. On top of this stand a router, typed
-- addresses for single actors, the actors around a socket, the worlds that accept connections, and
-- workflows.
--
-- The files and what they model:
-- - Common: shared names, and `Flow`, the results of code that can panic or block for good.
-- - Tokio: the channels and semaphores of the tokio crate, a parameter, with the laws that its
--   documentation states. Tokio/Room is on the three states of a mailbox. Tokio/Simple is a value
--   of the parameter that meets the laws, and Tokio/Recording a mailbox that keeps account of its
--   messages.
-- - Message: src/message.rs, src/envelope.rs and the enums of src/context.rs. Messages of all
--   types that an actor handles are one type `U`, its replies one type `R`, so that a `Box<dyn
--   SendMessage<A>>` is a sum; a oneshot sender is the number of its channel.
-- - Actor: src/actor.rs. A callback or a handler is a function from the actor to the new actor and
--   the list of the calls that it makes on its context; `none` is a panic.
-- - Context: src/context.rs (`Ctx`). Tasks that are started and replies that are sent are effects,
--   kept in the context in their order. Theorems in Context/State and Context/Permits.
-- - Executor: src/executor.rs. One step (`process_message`, with `SendMessage::send` of
--   src/envelope.rs and the private handlers of src/generic.rs) is in the parent, and the loops in
--   Executor/Loops, over the schedules of Executor/Awaits. `RawExecutor` is in Executor/Raw, and
--   the actors behind typed addresses (the `child_with_custom_*` functions) in Executor/Relay, up
--   to their shutdown. Theorems on a step are in Executor/Progress (with Executor/Reaching),
--   Executor/Answering (with Executor/Answers) and Executor/Anonymous; on the loops in
--   Executor/Shutdown, Executor/Ending, Executor/Terminating, Executor/Waiting,
--   Executor/Supervised, Executor/Stoppable, Executor/Exits, Executor/Delivery and
--   Executor/Timeouts; on actors that are awaited in Executor/Awaiting (with Executor/Quiet,
--   Executor/Silent and, for an actor that waits for its next message, Executor/Taking).
--   Executor/Mailbox is the rule for what every message keeps up of the mailbox, for an actor that
--   makes only some calls on its context (Executor/Calls). Executor/Inbox says what the loop
--   promises to senders, and Executor/Refinement that it keeps it. Executor/Stages, Executor/Turns
--   and Executor/Lifecycle are the rule for what holds over a whole life, which Executor/Trace
--   applies to the automaton of the life cycle. Executor/Throughout (with Life and Supervised) is
--   the rule for what every part of a run keeps up. Executor/Replay is an actor as a state machine
--   on messages alone; its Messages, Runs and Supervised hold the code against it.
--   Executor/Schedule (with Resuming) has rules for schedules.
-- - Family: an actor with the tasks that it started (src/context.rs), as a step relation, and in
--   Family/Counting its invariant. Family/FanIn has an actor and its children as one system, in
--   which the actor goes through the phases of `run_actor` and the tasks of `spawn_with` report to
--   it: Parent relates the phases to the code, Watching and Phases say what an event does, Perms
--   how the tasks are counted, Tending what holds all along, Heard and Faithful what the
--   actor has heard at its end, and Panics what it may not hear.
-- - Address: src/address.rs, theorems in Address/Results.
-- - Supervision: the tasks around children and anonymous actors of src/context.rs, and the task of
--   a question that is delegated (src/envelope.rs); theorems in Supervision/Reports,
--   Supervision/Delegation and, with the run of the child, Supervision/Children (its actor in
--   Supervision/Children/Replayed).
-- - Router: src/utils/router.rs, theorems in Router/RoundRobin and Router/Retry.
-- - World: src/world/builder.rs, theorems in World/Settings. World/Connection is the task of a
--   connection of src/world/mod.rs, with theorems in its children Asking, Ending, Accepted (what
--   the mailbox of its actor accepts) and, from the bytes of a socket on, Session and Streamed.
--   World/Inputs has the inputs and the run of a world, with theorems in its children: Completion,
--   Stopping, and Serving, where the input is a TCP listener.
-- - Single: src/single, theorems in Single/Order, the addresses in Single/Refs.
-- - Io: the actors around a socket (src/io/mod.rs), theorems in Io/Reading and Io/Writing.
--   Io/Frame is src/io/read/exact.rs, over the reading half of a socket, a parameter with its laws
--   in Io/Socket; theorems in Io/Frames. Io/Component is the interface between a world and what it
--   accepts connections from, and Io/Tcp (src/io/tcp.rs) fills it; theorems in Io/Accepting.
-- - Workflow: src/utils/workflow.
-- - Anonymous: src/anonymous.rs.
-- - Examples: clients of the library. Examples/Add has the counter of examples/add.rs, and
--   Examples/Echo the server of examples/tcp_world.rs, with Served from socket to writer.
--   Examples/Stateful is the computation of the state in examples/stateful_tcp_world.rs, and
--   Examples/Broadcast the broadcaster of examples/multi_tcp_world.rs, with Delivered on what each
--   client hears. Examples/Http is the payload of examples/http_world.rs, in Framing with the
--   reader actor. Examples/PingPong is examples/ping-pong.rs, in Playing with the actor's loops.
-- - Tests: actors to run all this on, and the theorems applied to them.
--
-- An await is a place where the surroundings act. A loop runs along a schedule, the list of what
-- they do and of the moments at which the actor is polled; a theorem about every schedule is about
-- every interleaving. A loop that has used up its schedule is pending. `select!` is unbiased, and
-- the schedule says which arm it takes. The loop of `stop` runs on fuel, one more
-- than the number of messages in the mailbox: it runs on a closed mailbox, so each round takes one
-- message away and none comes. A wait for permits is over at once: the actor is polled when they
-- are free. The future of an async handler ends, or else waits for good (`unending`), in which case
-- the loop hangs; what comes while it runs stands before it in the schedule.
-- Numbers are unbounded but for the overflow of anonymous actors, a `usize` that is incremented
-- modulo 2^64 (a debug build would panic there, which takes 2^64 calls), the number of permits
-- that is asked for, a `u32`, and the counters of Examples/Add and Examples/PingPong, a `u32` and
-- a `u8` whose addition panics on overflow, as in a debug build. Subtractions panic below zero. A
-- stream is read to its end on more fuel than it has bytes: each frame takes a byte at least.
--
-- Not modelled: the runtime and its scheduler, what the sockets, channels and signals of tokio do
-- inside, src/io/fs.rs (which has no method), logging, the formatting of errors, and the other
-- programs of examples/, tests/ and benches/. The addresses of a single actor share one type, and
-- so do the inputs of a world, where the source gives each its own.
mod Common
pub mod Tokio
pub mod Message
pub mod Actor
pub mod Context
pub mod Executor
pub mod Address
pub mod Router
pub mod World
pub mod Single
pub mod Supervision
pub mod Io
pub mod Workflow
pub mod Anonymous
pub mod Family
pub mod Examples
pub mod Tests

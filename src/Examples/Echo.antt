-- ===== src/Examples/Echo.antt =====
-- examples/tcp_world.rs: a server that writes back what it reads. The writer of a connection is the
-- channel of its writer actor, and `written` is what was put into it. The writer actor can end before
-- the connection, and what is written then is lost; `writes_left` is how many writes still find it
-- alive. Whether bytes are UTF-8 is a
-- parameter, as is the byte.
pub mod Served
use tokactor.Common.{
  ℕ, zero, suc, take, take_nil, ◌<◌, ◌≡◌, refl, sym, ap, ◌∙◌, Bool, true, false, Option, none, some,
  List, [], ◌∷◌, ◌++◌, append_assoc, append-nil, length, Flow, ok, panicked, blocked, if◌then◌else◌,
  inl, inr, Bool-cases, map,
}
use tokactor.Tokio.{Tokio, TokioLaws}
use tokactor.Tokio.Recording.{Account, recording}
use tokactor.Message.{SendMessage, non_blocking}
use tokactor.Actor.{Actor, defaults, Command, AskResult, reply}
use tokactor.Actor
use tokactor.Address.{fine, failed, async_message, shutdown_message}
use tokactor.Executor.{Executor}
use tokactor.Executor.Awaits.{Event, ready}
use tokactor.Executor.Loops.{run_actor}
use tokactor.Executor.Replay.{replay, replay_one, replay-append_last}
use tokactor.Executor.Replay.Runs.{Plain, run_actor-replay}
use tokactor.Io.{idle, reader_run}
use tokactor.Io.Socket.{Socket, SocketLaws}
use tokactor.Io.Frame.{Read, as_slice}
use tokactor.Io.Frames.{concat}
use tokactor.World.Connection.{ConnectionEvent, reads, takes, exits, Connection, connection_run}
use tokactor.World.Connection.Asking.{payloads}
use tokactor.World.Connection.Accepted.{requests, connection_run-accepted}
use tokactor.World.Connection.Session.{Echoes, session, heard, session-payloads}

pub record EchoConnection (B Wc : Type 0) : Type 0 where
  pub writer : Wc
  pub written : List (List B)
  pub writes_left : ℕ

module _ {B : Type 0} where
  abbrev to_option : Flow (List B) → Option (List B)
  to_option (ok bs) = some bs
  to_option panicked = none
  to_option blocked = none

  -- `Data::recv`, of the payload so far and a frame; a frame that was filled does not panic here.
  abbrev pub recv : List B → Read B → List B × Option (List B)
  recv p frame = (p, to_option (as_slice frame))

  pub recv-Echoes : Echoes recv
  recv-Echoes = record { echo = λ p r bs h. ap to_option h }

module _ (B Wc : Type 0) (is_utf8 : List B → Bool) where
  abbrev Server : Type 0
  Server = EchoConnection B Wc

  -- `AsyncAsk<Data>`: the print up to the future, and the future.
  unfoldable pub print_message : List B → Server → Option (Server × List Command)
  print_message msg c = if is_utf8 msg then some (c, []) else none

  -- `let _ = writer.write(msg).await`
  abbrev pub put : List B → ℕ → Server → Server
  put msg zero c = c
  put msg (suc n) c = record c { written = c.written ++ msg ∷ []; writes_left = n }

  abbrev pub write_back : List B → Server → Option (Server × Actor.Raced (Unit {0}))
  write_back msg c = some (put msg c.writes_left c, Actor.response tt)

  -- `Connection`, which leaves the rest of `Actor` as it is, on a machine of 64 bits
  abbrev pub connection : Actor Server (List B) (Unit {0})
  connection = record defaults { async_ask = print_message; async_future = write_back }

  -- `Ask<TcpRequest>` of `Router`; the first argument is how many writes will find the writer alive.
  unfoldable pub route :
      {Addr Rt : Type 0} → ℕ → Wc × Addr → Rt → Option (Rt × List Command × AskResult Server)
  route lives (writer, address) r =
      some (r, [], reply (record { writer = writer; written = []; writes_left = lives }))

  connection-Plain : Plain connection
  connection-Plain = record {
    on_stopping = λ a b ks h. cc;
    on_stopped = λ a b ks h. cc;
    on_end = λ a b ks h. cc;
  }

  written_back :
      (msg : List B) (tx : ℕ) (c : Server)
      → replay_one connection (async_message msg tx) c ≡ put msg c.writes_left c
  unfolding replay_one print_message
  written_back msg tx c = elim (Bool-cases (is_utf8 msg)) [
    | inl text ↦ rw text refl
    | inr binary ↦ rw binary refl
  ]

  nothing_read : (c : Server) → c.written ≡ c.written ++ take c.writes_left []
  nothing_read c =
      sym (append-nil c.written) ∙ ap (λ l. c.written ++ l) (sym (take_nil c.writes_left))

  -- The state machine on the requests of a connection's task, and on the shutdown after them: what was
  -- put into the writer's channel is what there was, and each payload that was read while the writer
  -- was alive.
  replay-requests :
      (R E : Type 0) (tx : ℕ) (es : List (ConnectionEvent (List B) R E)) (c : Server)
      → (replay connection (requests es ++ shutdown_message true tx ∷ []) c).written
        ≡ c.written ++ take c.writes_left (payloads es)
  unfolding replay requests payloads replay_one
  replay-requests R E tx [] c = nothing_read c
  replay-requests R E tx (reads (fine (some m)) n o ∷ es) c =
      ap (λ z. (replay connection (requests es ++ shutdown_message true tx ∷ []) z).written)
        (written_back m n c)
      ∙ replay-requests R E tx es (put m c.writes_left c)
      ∙ one_more c.writes_left refl
    where
      one_more :
          (k : ℕ)
          → c.writes_left ≡ k
          → (put m k c).written ++ take (put m k c).writes_left (payloads es)
            ≡ c.written ++ take k (m ∷ payloads es)
      one_more zero e = rw e refl
      one_more (suc k) e = append_assoc c.written (m ∷ []) (take k (payloads es))
  replay-requests R E tx (reads (fine none) n o ∷ es) c = nothing_read c
  replay-requests R E tx (reads (failed e) n o ∷ es) c = nothing_read c
  replay-requests R E tx (takes ∷ es) c = replay-requests R E tx es c
  replay-requests R E tx (exits ∷ es) c = replay-requests R E tx es c

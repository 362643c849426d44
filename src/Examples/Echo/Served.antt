-- ===== src/Examples/Echo/Served.antt =====
-- examples/tcp_world.rs, from end to end: a socket, its reader actor, the task of the connection, the
-- connection's actor and the channel of its writer.
use tokactor.Common.{
  take, drop, take-append-drop, ℕ, ◌<◌, ◌≡◌, sym, ap, ◌∙◌, Bool, true, false, Option, List, [], ◌∷◌,
  ◌++◌, length, ok, map,
}
use tokactor.Tokio.{Tokio, TokioLaws}
use tokactor.Tokio.Recording.{Account, recording}
use tokactor.Message.{SendMessage}
use tokactor.Address.{shutdown_message}
use tokactor.Executor.{Executor}
use tokactor.Executor.Awaits.{Event, ready}
use tokactor.Executor.Loops.{run_actor}
use tokactor.Executor.Replay.{replay}
use tokactor.Executor.Replay.Runs.{run_actor-replay}
use tokactor.Io.{ReaderState, idle, reader_run}
use tokactor.Io.Socket.{Socket, SocketLaws}
use tokactor.Io.Frames.{concat, concat-append}
use tokactor.World.Connection.{ConnectionEvent, Connection, connection_run, connection_end}
use tokactor.World.Connection.Asking.{payloads}
use tokactor.World.Connection.Session.{session, session-payloads, payloads-heard}
use tokactor.World.Connection.Accepted.{requests, connection_run-accepted, connection_end-accepted}
use tokactor.Examples.Echo.{
  EchoConnection, recv, recv-Echoes, connection, connection-Plain, replay-requests,
}

module _ {B Wc Chan W S : Type 0} (tk : Tokio (SendMessage (List B)) Chan W S) (laws : TokioLaws tk)
    (is_utf8 : List B → Bool) where
  -- The actor of a connection, from the side of its mailbox.
  actor-writes :
      (R E : Type 0) (x y : Executor (EchoConnection B Wc) (Unit {0}) (Account tk) W S)
      (schedule rest : List (Event (List B))) (sent : Option (ℕ × EchoConnection B Wc))
      (es : List (ConnectionEvent (List B) R E)) (tx : ℕ)
      → x.context.mailbox.taken ≡ []
      → run_actor (recording tk laws) (connection B Wc is_utf8) x schedule ≡ ready (y, sent) rest
      → y.context.mailbox.accepted ≡ requests es ++ shutdown_message true tx ∷ []
      → y.actor.written ≡ x.actor.written ++ take x.actor.writes_left (payloads es)
  actor-writes R E x y schedule rest sent es tx fresh ran same =
      ap (λ c. c.written)
        (run_actor-replay tk (connection B Wc is_utf8) laws x y schedule rest sent
          (connection-Plain B Wc is_utf8) fresh ran)
      ∙ ap (λ ms. (replay (connection B Wc is_utf8) ms x.actor).written) same
      ∙ replay-requests B Wc is_utf8 R E tx es x.actor

  module _ {Sk R E : Type 0} (k : Socket B E Sk) (socket_laws : SocketLaws k) (zero_byte : B)
      (len : ℕ) (room : 0 < len) where
    -- The stream has ended, and a session of the reader actor has fuel for every byte. A task of a
    -- connection starts with a mailbox that has accepted nothing, reads exactly the payloads that this
    -- session gives, whatever happens between them, comes to their end, and then comes through the
    -- await of the actor, whose mailbox it finds open. The connection's actor, which has taken nothing
    -- and written nothing yet, runs on a mailbox which accepts, by the end of the run, what that task
    -- sent and nothing else. Once the actor's task is over, what was put into the writer's channel is the
    -- first payloads, as many as found the writer actor alive, and these and the other payloads are,
    -- put one after another, exactly the bytes of the stream.
    pub connection-echoes :
        (s : Sk) (fuel n : ℕ)
        → length (k.bytes s) < fuel
        → k.ended s ≡ true
        → (es : List (ConnectionEvent (List B) R E)) (c d e : Connection (List B) (Account tk))
          (tx : ℕ) (o : Option (EchoConnection B Wc))
        → c.mailbox.accepted ≡ []
        → c.reading ≡ true
        → payloads es
          ≡ map (λ a. a.1) (reader_run [] recv idle (session k zero_byte len fuel n s)).0
        → connection_run (recording tk laws) es c ≡ ok d
        → (recording tk laws).is_closed d.mailbox ≡ false
        → connection_end (recording tk laws) tx o d ≡ ok e
        → (x y : Executor (EchoConnection B Wc) (Unit {0}) (Account tk) W S)
          (schedule rest : List (Event (List B))) (sent : Option (ℕ × EchoConnection B Wc))
        → x.context.mailbox.taken ≡ []
        → x.actor.written ≡ []
        → run_actor (recording tk laws) (connection B Wc is_utf8) x schedule ≡ ready (y, sent) rest
        → y.context.mailbox.accepted ≡ e.mailbox.accepted
        → (y.actor.written ≡ take x.actor.writes_left (payloads es))
          × (concat y.actor.written ++ concat (drop x.actor.writes_left (payloads es)) ≡ k.bytes s)
    connection-echoes s fuel n enough over_ es c d e tx o new on read_ asked open_ told x y schedule
          rest sent fresh blank ran same =
        let (answers, gave, bytes, _) =
          session-payloads k zero_byte len [] recv recv-Echoes socket_laws room R fuel n s enough
            over_ in
        let sent_in_all =
          same
          ∙ connection_end-accepted tk laws tx o d e open_ told
          ∙ ap (λ l. l ++ shutdown_message true tx ∷ [])
              (connection_run-accepted tk laws es c d on asked ∙ ap (λ l. l ++ requests es) new) in
        let n_left = x.actor.writes_left in
        let wrote : y.actor.written ≡ take n_left (payloads es) =
          actor-writes R E x y schedule rest sent es tx fresh ran sent_in_all
          ∙ ap (λ l. l ++ take n_left (payloads es)) blank in
        (
          wrote,
          ap (λ l. concat l ++ concat (drop n_left (payloads es))) wrote
              ∙ sym (concat-append (take n_left (payloads es)) (drop n_left (payloads es)))
              ∙ ap concat (take-append-drop n_left (payloads es))
              ∙ ap concat (
                  read_
                  ∙ ap (λ (r : List (ℕ × List B) × ReaderState (List B)). map (λ a. a.1) r.0) gave)
              ∙ ap concat (sym (payloads-heard R E answers))
              ∙ bytes,
        )

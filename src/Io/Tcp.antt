-- ===== src/Io/Tcp.antt =====
-- src/io/tcp.rs: the component that accepts TCP connections. The socket that listens, the address that
-- it is bound to and the channels of the two actors of a connection are parameters.
use tokactor.Common.{ℕ, Option, none, some, List, [], ◌∷◌, ◌++◌, Flow, ok, panicked, blocked, ◌>>=◌}
use tokactor.Tokio.{Tokio}
use tokactor.Message.{SendMessage}
use tokactor.Actor.{Actor}
use tokactor.Context.{new}
use tokactor.Address.{Reply, fine, failed}
use tokactor.Executor.{Executor}
use tokactor.Executor.Loops.{surroundings}
use tokactor.Executor.Awaits.{Event, child_exits, Outcome, ready, pending, panics, hangs}
use tokactor.Executor.Raw.{RawExecutor, raw_start, raw_ask, raw_shutdown}
use tokactor.Io.Component.{Component}

-- `net::TcpListener::poll_accept`
pub data Accept (Str Addr E : Type 0) : Type 0 where
  nobody : Accept Str Addr E
  stream : Str → Addr → Accept Str Addr E
  fails : E → Accept Str Addr E

-- What the listener uses of tokio: `bind`, `poll_accept`, `into_split` and `mpsc::channel` for the
-- requests to read and to write.
pub record Net (L Place Str Addr E Rh Wh Rc Wc : Type 0) : Type 0 where
  pub bind : Place → Reply L E
  pub poll_accept : L → Accept Str Addr E × L
  pub into_split : Str → Rh × Wh
  pub reader_channel : ℕ → Rc
  pub writer_channel : ℕ → Wc

-- A task that serves one half of a socket (`create_reader_actor`, `create_writer_actor`), with its
-- end of its channel; both watch the notifier of the listener's actor.
pub data SocketTask (Rh Wh Rc Wc : Type 0) : Type 0 where
  reader_actor : Rh → Rc → SocketTask Rh Wh Rc Wc
  writer_actor : Wh → Wc → SocketTask Rh Wh Rc Wc

pub record TcpListener (P R Chan W S L Rh Wh Rc Wc : Type 0) : Type 0 where
  pub executor : RawExecutor P R Chan W S
  pub listener : L
  -- what was handed to `tokio::spawn`, oldest first
  pub tasks : List (SocketTask Rh Wh Rc Wc)

-- The result of an await that a schedule leads to.
abbrev pub settled : {U X : Type 0} → Outcome U X → Flow (Unit {0})
settled (ready x es) = ok tt
settled pending = blocked
settled panics = panicked
settled hangs = blocked

module _ {P U R Chan W S L Place Str Addr E Rh Wh Rc Wc : Type 0}
    (tk : Tokio (SendMessage U) Chan W S) (act : Actor P U R)
    (net : Net L Place Str Addr E Rh Wh Rc Wc) (tcp_request : Wc → Addr → U) where
  abbrev Listener : Type 0
  Listener = TcpListener P R Chan W S L Rh Wh Rc Wc

  abbrev pub fresh_executor : P → Executor P R Chan W S
  fresh_executor parent = record { actor = parent; context = new tk act; receiver = none }

  abbrev started : L → RawExecutor P R Chan W S → Listener
  started l raw = record { executor = raw; listener = l; tasks = [] }

  abbrev bound : P → Reply L E → Flow (Reply Listener E)
  bound parent (failed e) = ok (failed e)
  bound parent (fine l) =
      raw_start tk act (some (fresh_executor parent)) >>= λ raw. ok (fine (started l raw))

  -- `TcpListener::new`
  unfoldable pub tcp_new : Place → P → Flow (Reply Listener E)
  unfolding raw_start new
  tcp_new place parent = bound parent (net.bind place)

  -- `ctx.notifier.subscribe()`, once for each of the two tasks
  abbrev pub subscribed : Executor P R Chan W S → Executor P R Chan W S
  subscribed x = record x {
    context = record x.context { notifier = tk.subscribe (tk.subscribe x.context.notifier) };
  }

  abbrev pub both_tasks : Rh × Wh → List (SocketTask Rh Wh Rc Wc)
  both_tasks (read, write) =
      reader_actor read (net.reader_channel 10) ∷ writer_actor write (net.writer_channel 10) ∷ []

  -- `RawExecutor::with_ctx`, with `tcp_actors` on the context
  abbrev pub with_ctx : Str → Listener → RawExecutor P R Chan W S → Flow Listener
  with_ctx str self none = panicked
  with_ctx str self (some x) = ok (record self {
    executor = some (subscribed x);
    tasks = self.tasks ++ both_tasks (net.into_split str);
  })

  unfoldable pub tcp_actors : Str → Listener → Flow Listener
  tcp_actors str self = with_ctx str self self.executor

  -- The parent is asked for the actor of the connection.
  abbrev pub ask_parent : Addr → Listener → Flow (Option (Reply (Rc × R) E) × Listener)
  ask_parent address self =
      raw_ask tk act self.executor (tcp_request (net.writer_channel 10) address) >>= λ p.
      ok (some (fine (net.reader_channel 10, p.0)), record self { executor = p.1 })

  abbrev pub on_accept :
      Accept Str Addr E × L → Listener → Flow (Option (Reply (Rc × R) E) × Listener)
  on_accept (nobody, l) self = ok (none, record self { listener = l })
  on_accept (fails e, l) self = ok (some (failed e), record self { listener = l })
  on_accept (stream str address, l) self =
      tcp_actors str (record self { listener = l }) >>= ask_parent address

  -- `TcpAcceptFut::poll`
  unfoldable pub accept : Listener → Flow (Option (Reply (Rc × R) E) × Listener)
  unfolding tcp_actors raw_ask
  accept self = on_accept (net.poll_accept self.listener) self

  unfoldable pub shutdown : Listener → List (Event U) → Flow (Unit {0})
  unfolding raw_shutdown
  shutdown self es = settled (raw_shutdown tk act self.executor es)

  -- The reader's or the writer's task of a connection ends, as when a client leaves: it drops its
  -- receiver of the notifier. Its handle stays where it is.
  abbrev pub drop_watch : Option (Executor P R Chan W S) → Listener → Listener
  drop_watch none l = l
  drop_watch (some x) l = record l { executor = some (surroundings tk act child_exits x) }

  unfoldable pub departed : Listener → Listener
  departed l = drop_watch l.executor l

  -- `impl Component for TcpListener`
  abbrev pub tcp_component : Component Listener Rc R E (List (Event U))
  tcp_component = record { accept = accept; departed = departed; shutdown = shutdown }

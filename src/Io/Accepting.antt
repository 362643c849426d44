-- ===== src/Io/Accepting.antt =====
-- src/io/tcp.rs: what a listener that has accepted connections holds on to.
use tokactor.Common.{
  ℕ, ◌+◌, ◌*◌, ◌≤◌, ◌≡◌, refl, sym, ap, ◌∙◌, Option, none, some, List, ◌++◌, length, length-append,
  ok, >>=-eq-ok, arith,
}
use tokactor.Tokio.{Tokio, TokioLaws}
use tokactor.Message.{SendMessage}
use tokactor.Actor.{Actor}
use tokactor.Context.State.{Forward}
use tokactor.Address.{Reply, fine, failed}
use tokactor.Executor.{Executor}
use tokactor.Executor.Raw.{raw_ask, raw_ask-Forward, raw_shutdown}
use tokactor.Io.Tcp.{
  Accept, nobody, stream, fails, Net, TcpListener, subscribed, tcp_actors, ask_parent, on_accept,
  accept, with_ctx, both_tasks, shutdown, settled,
}
use tokactor.Executor.Awaits.{Event, Outcome, ready, pending, panics, hangs}
use tokactor.Executor.Schedule.{and_then-eq-ready}
use tokactor.Executor.Loops.{shutdown_executor}
use tokactor.Executor.Exits.{exits, shutdown_executor-exits}

module _ {P U R Chan W S L Place Str Addr E Rh Wh Rc Wc : Type 0}
    (tk : Tokio (SendMessage U) Chan W S) (act : Actor P U R) (laws : TokioLaws tk)
    (net : Net L Place Str Addr E Rh Wh Rc Wc) (tcp_request : Wc → Addr → U) where
  abbrev Listener : Type 0
  Listener = TcpListener P R Chan W S L Rh Wh Rc Wc

  -- `k` connections further: two more tasks for each, and two more receivers of the notifier.
  pub record Holds (k : ℕ) (l m : Listener) (x y : Executor P R Chan W S) : Type 0 where
    pub executor : m.executor ≡ some y
    pub tasks : length m.tasks ≡ length l.tasks + 2 * k
    pub receivers : tk.receivers x.context.notifier + 2 * k ≤ tk.receivers y.context.notifier
    pub queue : tk.queue y.context.mailbox ≡ tk.queue x.context.mailbox

  -- The connections that a poll accepts.
  unfoldable pub newly : Option (Reply (Rc × R) E) → ℕ
  newly (some (fine p)) = 1
  newly _ = 0

  -- Only the socket moved.
  unmoved :
      (k : L) (l : Listener) (x : Executor P R Chan W S)
      → l.executor ≡ some x
      → Holds 0 l (record l { listener = k }) x x
  unmoved k l x e = record {
    executor = e;
    tasks = omega arith;
    receivers = omega arith;
    queue = refl;
  }

  ask_parent-Holds :
      (address : Addr) (l m : Listener) (x : Executor P R Chan W S)
      (answer : Option (Reply (Rc × R) E))
      → l.executor ≡ some x
      → ask_parent tk act net tcp_request address l ≡ ok (answer, m)
      → (newly answer ≡ 1)
        × (m.tasks ≡ l.tasks)
        × (y : Executor P R Chan W S) × (m.executor ≡ some y)
        × Forward tk x.context y.context
  unfolding newly
  ask_parent-Holds address l m x answer e h =
      let (p, asked, made) =
        >>=-eq-ok (raw_ask tk act l.executor (tcp_request (net.writer_channel 10) address)) _ h in
      let (y, left, further) =
        raw_ask-Forward tk act laws x (tcp_request (net.writer_channel 10) address) p.0 p.1 (
          ap (λ raw. raw_ask tk act raw (tcp_request (net.writer_channel 10) address)) (sym e)
          ∙ asked) in
      let here : some (fine (net.reader_channel 10, p.0)) ≡ answer = cc made in
      let there : record l { executor = p.1 } ≡ m = cc made in
      (
        ap newly (sym here),
        ap (λ z. z.tasks) (sym there),
        y,
        ap (λ z. z.executor) (sym there) ∙ left,
        further,
      )

  on_accept-Holds :
      (p : Accept Str Addr E × L) (l m : Listener) (x : Executor P R Chan W S)
      (answer : Option (Reply (Rc × R) E))
      → l.executor ≡ some x
      → on_accept tk act net tcp_request p l ≡ ok (answer, m)
      → (y : Executor P R Chan W S) × Holds (newly answer) l m x y
  unfolding newly tcp_actors
  on_accept-Holds (nobody, k) l m x answer e h =
      let here : none ≡ answer = cc h in
      let there : record l { listener = k } ≡ m = cc h in
      rw (sym here, sym there) (x, unmoved k l x e)
  on_accept-Holds (fails f, k) l m x answer e h =
      let here : some (failed f) ≡ answer = cc h in
      let there : record l { listener = k } ≡ m = cc h in
      rw (sym here, sym there) (x, unmoved k l x e)
  on_accept-Holds (stream str address, k) l m x answer e h =
      let l' = record l { listener = k } in
      let (l₁, told, asked) = >>=-eq-ok (tcp_actors tk act net tcp_request str l') _ h in
      let more = record l' {
        executor = some (subscribed tk act net tcp_request x);
        tasks = l.tasks ++ both_tasks tk act net tcp_request (net.into_split str);
      } in
      let made : more ≡ l₁ = cc (ap (with_ctx tk act net tcp_request str l') (sym e) ∙ told) in
      let (one, kept, y, left, further) =
        ask_parent-Holds address more m (subscribed tk act net tcp_request x) answer refl
          (ap (ask_parent tk act net tcp_request address) made ∙ asked) in
      (
        y,
        record {
          executor = left;
          tasks = omega (
            arith,
            one,
            ap length kept,
            length-append l.tasks (both_tasks tk act net tcp_request (net.into_split str)),
          );
          receivers = omega (
            arith,
            one,
            further.receivers,
            laws.receivers-subscribe x.context.notifier,
            laws.receivers-subscribe (tk.subscribe x.context.notifier),
          );
          queue = further.queue;
        },
      )

  pub Holds-trans :
      {j k : ℕ} {l m n : Listener} {x y z : Executor P R Chan W S}
      → Holds j l m x y
      → Holds k m n y z
      → Holds (j + k) l n x z
  Holds-trans f g = record {
    executor = g.executor;
    tasks = omega (arith, f.tasks, g.tasks);
    receivers = omega (arith, f.receivers, g.receivers);
    queue = g.queue ∙ f.queue;
  }

  pub accept-Holds :
      (l m : Listener) (x : Executor P R Chan W S) (answer : Option (Reply (Rc × R) E))
      → l.executor ≡ some x
      → accept tk act net tcp_request l ≡ ok (answer, m)
      → (y : Executor P R Chan W S) × Holds (newly answer) l m x y
  unfolding accept
  accept-Holds l m x answer e h = on_accept-Holds (net.poll_accept l.listener) l m x answer e h

  settled-ready :
      {X : Type 0} (o : Outcome U X)
      → settled o ≡ ok tt
      → (x : X) × (rest : List (Event U)) × (o ≡ ready x rest)
  settled-ready (ready x rest) h = (x, rest, refl)
  settled-ready pending h = cc
  settled-ready panics h = cc
  settled-ready hangs h = cc

  shut-exits :
      (x : Executor P R Chan W S) (es : List (Event U))
      → settled (raw_shutdown tk act (some x) es) ≡ ok tt
      → tk.receivers x.context.notifier ≤ exits es
  unfolding raw_shutdown
  shut-exits x es h =
      let (p, rest, came) = settled-ready (raw_shutdown tk act (some x) es) h in
      let (y, later, down, last) = and_then-eq-ready (shutdown_executor tk act x es) _ came in
      shutdown_executor-exits tk act laws x y es later down

  pub shutdown-exits :
      (m : Listener) (y : Executor P R Chan W S) (es : List (Event U))
      → m.executor ≡ some y
      → shutdown tk act net tcp_request m es ≡ ok tt
      → tk.receivers y.context.notifier ≤ exits es
  unfolding shutdown
  shutdown-exits m y es e h =
      shut-exits y es (ap (λ raw. settled (raw_shutdown tk act raw es)) (sym e) ∙ h)

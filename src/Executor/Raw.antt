-- ===== src/Executor/Raw.antt =====
-- src/executor.rs, `RawExecutor`: an executor that is driven by hand.
use tokactor.Common.{ℕ, ◌≡◌, Option, none, some, List, Flow, ok, panicked, ◌>>=◌, >>=-eq-ok, subst}
use tokactor.Tokio.{Tokio, TokioLaws}
use tokactor.Message.{SendMessage}
use tokactor.Actor.{Actor, Command, AskResult, reply, task}
use tokactor.Context.{run_commands}
use tokactor.Context.State.{Forward, run_commands-Forward}
use tokactor.Executor.{Executor, react}
use tokactor.Executor.Awaits.{Event, Outcome, ready, panics, and_then}
use tokactor.Executor.Loops.{take_sender, shutdown_executor}
use tokactor.Executor.Schedule.{and_then-eq-ready}
use tokactor.Executor.Ending.{
  Finished, shutdown_executor-Ended, take_sender-Finished, ready-injective,
}

-- `RawExecutor(Option<Executor<A>>)`; a method without an executor is `unreachable!()`.
abbrev pub RawExecutor : (A R Chan W S : Type 0) → Type 0
RawExecutor A R Chan W S = Option (Executor A R Chan W S)

module _ {A U R Chan W S : Type 0} (tk : Tokio (SendMessage U) Chan W S) (act : Actor A U R) where
  unfoldable pub raw_start : RawExecutor A R Chan W S → Flow (RawExecutor A R Chan W S)
  raw_start none = panicked
  raw_start (some x) = react tk act (act.on_start x.actor) x >>= λ y. ok (some y)

  abbrev raw_reply : Executor A R Chan W S → AskResult R → Flow (R × RawExecutor A R Chan W S)
  raw_reply x (reply r) = ok (r, some x)
  raw_reply x task = panicked

  abbrev raw_react :
      Option (A × List Command × AskResult R)
      → Executor A R Chan W S
      → Flow (R × RawExecutor A R Chan W S)
  raw_react none x = panicked
  raw_react (some (a, ks, result)) x = react tk act (some (a, ks)) x >>= λ y. raw_reply y result

  -- `RawExecutor::ask`, which skips the mailbox and the callbacks around a message.
  unfoldable pub raw_ask : RawExecutor A R Chan W S → U → Flow (R × RawExecutor A R Chan W S)
  raw_ask none u = panicked
  raw_ask (some x) u = raw_react (act.ask u x.actor) x

  unfoldable pub raw_shutdown :
      RawExecutor A R Chan W S → List (Event U) → Outcome U (Executor A R Chan W S × Option (ℕ × A))
  raw_shutdown none es = panics
  raw_shutdown (some x) es =
      and_then (shutdown_executor tk act x es) λ y rest. ready (take_sender tk act y) rest

module _ {A U R Chan W S : Type 0} (tk : Tokio (SendMessage U) Chan W S) (act : Actor A U R)
    (laws : TokioLaws tk) where
  -- A raw executor that was shut down has ended as one that was run: its actor is `Stopped`, its
  -- mailbox closed and empty, nobody is left who awaits it, and if the actor was sent to somebody,
  -- then in its final state.
  pub raw_shutdown-Finished :
      (raw : RawExecutor A R Chan W S) (es : List (Event U)) (y : Executor A R Chan W S)
      (sent : Option (ℕ × A)) (rest : List (Event U))
      → raw_shutdown tk act raw es ≡ ready (y, sent) rest
      → Finished tk act laws y sent
  unfolding raw_shutdown
  raw_shutdown-Finished none es y sent rest h = cc
  raw_shutdown-Finished (some x) es y sent rest h =
      let (z, later, down, taken) =
        and_then-eq-ready (shutdown_executor tk act x es)
          (λ y rest. ready (take_sender tk act y) rest) h in
      take_sender-Finished tk act laws z y sent
        (shutdown_executor-Ended tk act laws x es z later down) (ready-injective tk act laws taken)

  eq-raw_reply :
      (x : Executor A R Chan W S) (q : AskResult R) (r : R) (raw : RawExecutor A R Chan W S)
      → raw_reply tk act x q ≡ ok (r, raw)
      → raw ≡ some x
  eq-raw_reply x (reply a) r raw h = cc
  eq-raw_reply x task r raw h = cc

  raw_react-Forward :
      (o : Option (A × List Command × AskResult R)) (x : Executor A R Chan W S) (r : R)
      (raw : RawExecutor A R Chan W S)
      → raw_react tk act o x ≡ ok (r, raw)
      → (y : Executor A R Chan W S) × (raw ≡ some y) × Forward tk x.context y.context
  raw_react-Forward none x r raw h = cc
  raw_react-Forward (some (a, ks, q)) x r raw h =
      let (y, ran, answer) = >>=-eq-ok (react tk act (some (a, ks)) x) _ h in
      let (c, run, made) = >>=-eq-ok (run_commands tk ks x.context) _ ran in
      let same : record x { actor = a; context = c } ≡ y = cc made in
      (
        y,
        eq-raw_reply y q r raw answer,
        subst (λ z. Forward tk x.context z.context) same
            (run_commands-Forward tk laws ks x.context c run),
      )

  pub raw_ask-Forward :
      (x : Executor A R Chan W S) (u : U) (r : R) (raw : RawExecutor A R Chan W S)
      → raw_ask tk act (some x) u ≡ ok (r, raw)
      → (y : Executor A R Chan W S) × (raw ≡ some y) × Forward tk x.context y.context
  unfolding raw_ask
  raw_ask-Forward x u r raw h = raw_react-Forward (act.ask u x.actor) x r raw h

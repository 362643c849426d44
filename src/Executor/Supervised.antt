-- ===== src/Executor/Supervised.antt =====
-- src/executor.rs, `run_supervised_actor`: how a child ends.
use tokactor.Common.{◌≡◌, List, ◌>>=◌}
use tokactor.Tokio.{Tokio, TokioLaws}
use tokactor.Message.{SendMessage}
use tokactor.Actor.{Actor}
use tokactor.Executor.{Executor, react}
use tokactor.Executor.Awaits.{Event, ready, lift, drive}
use tokactor.Executor.Loops.{check, supervised_turn, shutdown_executor, run_supervised_actor}
use tokactor.Executor.Schedule.{and_then-eq-ready}
use tokactor.Executor.Ending.{Ended, shutdown_executor-Ended}

module _ {A U R Chan W S : Type 0} (tk : Tokio (SendMessage U) Chan W S) (act : Actor A U R)
    (laws : TokioLaws tk) where
  -- Whatever its supervisor and the other tasks do, and in whatever order: when a child has
  -- returned, it is `Stopped` and its mailbox is closed and empty.
  pub run_supervised_actor-Ended :
      (x : Executor A R Chan W S) (es : List (Event U)) (y : Executor A R Chan W S)
      (rest : List (Event U))
      → run_supervised_actor tk act x es ≡ ready y rest
      → Ended tk y.context
  unfolding run_supervised_actor
  run_supervised_actor-Ended x es y rest h =
      let start = lift (react tk act (act.on_start x.actor) x >>= check tk act) es in
      let (a, es₁, h₁, r₁) = and_then-eq-ready start _ h in
      let (b, es₂, h₂, r₂) =
        and_then-eq-ready (drive (supervised_turn tk act) a es₁) (shutdown_executor tk act) r₁ in
      shutdown_executor-Ended tk act laws b es₂ y rest r₂

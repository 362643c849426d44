-- ===== src/Executor/Replay/Supervised.antt =====
-- src/executor.rs: a whole run of a child against the state machine on the messages that it accepted.
use tokactor.Common.{◌≡◌, ap, ◌∙◌, sym, List, []}
use tokactor.Tokio.{Tokio, TokioLaws}
use tokactor.Tokio.Recording.{Account, recording}
use tokactor.Message.{SendMessage}
use tokactor.Actor.{Actor}
use tokactor.Executor.{Executor}
use tokactor.Executor.Awaits.{Event, ready}
use tokactor.Executor.Loops.{run_supervised_actor}
use tokactor.Executor.Delivery.{run_supervised_actor-taken}
use tokactor.Executor.Throughout.Supervised.{run_supervised_actor-P}
use tokactor.Executor.Replay.{moved, replay}
use tokactor.Executor.Replay.Runs.{Plain, Replayed, replay-Steps, checks-Replayed, begun}

module _ {A U R Chan W S : Type 0} (tk : Tokio (SendMessage U) Chan W S) (act : Actor A U R)
    (laws : TokioLaws tk) where
  -- A child whose shutdown leaves it as it is, and which has taken nothing yet, runs among whatever
  -- other tasks and supervisor. Once it has returned, it is what the state machine makes of the
  -- messages that its mailbox accepted, in the order of their acceptance.
  pub run_supervised_actor-replay :
      (x y : Executor A R (Account tk) W S) (es rest : List (Event U))
      → Plain act
      → x.context.mailbox.taken ≡ []
      → run_supervised_actor (recording tk laws) act x es ≡ ready y rest
      → y.actor ≡ replay act y.context.mailbox.accepted (moved (act.on_start x.actor) x.actor)
  run_supervised_actor-replay x y es rest plain fresh h =
      let start = moved (act.on_start x.actor) x.actor in
      run_supervised_actor-P (recording tk laws) act (Replayed tk laws act plain start)
        (replay-Steps tk laws act plain start) (checks-Replayed tk laws act plain start) x es y rest
        (λ z ran. begun tk act laws plain x z fresh ran) h
      ∙ ap (λ ms. replay act ms start) (sym (run_supervised_actor-taken tk act laws x y es rest h))

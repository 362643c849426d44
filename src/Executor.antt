-- ===== src/Executor.antt =====
-- src/executor.rs (`Executor`) and the `SendMessage` impls of src/envelope.rs: one step of an actor.
-- The loops are in the child `Loops`.
pub mod Awaits
pub mod Loops
pub mod Anonymous
pub mod Reaching
pub mod Progress
pub mod Schedule
pub mod Shutdown
pub mod Ending
pub mod Timeouts
pub mod Answers
pub mod Answering
pub mod Silent
pub mod Quiet
pub mod Calls
pub mod Mailbox
pub mod Throughout
pub mod Replay
pub mod Awaiting
pub mod Taking
pub mod Inbox
pub mod Refinement
pub mod Stages
pub mod Turns
pub mod Lifecycle
pub mod Trace
pub mod Relay
pub mod Exits
pub mod Terminating
pub mod Waiting
pub mod Stoppable
pub mod Supervised
pub mod Raw
pub mod Delivery
use tokactor.Common.{
  ℕ, zero, suc, ◌+◌, ◌-◌, ◌%◌, ◌^◌, Bool, true, false, ◌&&◌, Option, none, some, List, [], ◌∷◌,
  Flow, ok, panicked, blocked, ◌>>=◌, if◌then◌else◌, ltb, ◌==◌,
}
use tokactor.Tokio.{Tokio, TrySend, sent, full, closed, SupervisorMessage}
use tokactor.Message.{
  Scheduler, blocking, non_blocking, SendMessage, envelope, response, async_response,
  shutdown_envelope, cancelled_envelope, unwrap, reveal, confide, IntoFutureShutdown,
  AnonymousTaskCancelled, cancel,
}
use tokactor.Actor.{Actor, Command, AskResult, reply, task, Raced, changed, unending}
use tokactor.Actor
use tokactor.Context.{
  Ctx, Effect, replies, unit_task, emit, is_running, run_commands, anonymous_ctx,
  subscribe_and_stop, subscribe_and_wait,
}

pub data ExecutorLoop : Type 0 where
  continue break : ExecutorLoop

pub record Executor (A R Chan W S : Type 0) : Type 0 where
  pub actor : A
  pub context : Ctx R Chan W S
  -- the subscription to the supervisor's notifier
  pub receiver : Option ℕ

-- `usize` subtraction, which panics below zero.
abbrev pub checked_sub : ℕ → ℕ → Flow ℕ
checked_sub a b = if ltb a b then panicked else ok (a - b)

-- `Option::take().unwrap()` of a oneshot sender.
abbrev take_tx : Option ℕ → Flow ℕ
take_tx none = panicked
take_tx (some tx) = ok tx

-- `spawn_blocking` calls `send` and drops what it returns.
abbrev pub is_awaited : Scheduler → Bool
is_awaited blocking = false
is_awaited non_blocking = true

module _ {R Chan W S : Type 0} where
  -- `InternalHandler` of src/generic.rs
  abbrev private_shutdown : IntoFutureShutdown → Ctx R Chan W S → Ctx R Chan W S
  private_shutdown m c = if m.stop_now then subscribe_and_stop m.tx c else subscribe_and_wait m.tx c

  abbrev private_cancelled : AnonymousTaskCancelled → Ctx R Chan W S → Ctx R Chan W S
  private_cancelled m c = c

module _ {A R Chan W S : Type 0} where
  -- `let _ = tx.send(response)`
  abbrev answer : ℕ → R → Executor A R Chan W S → Executor A R Chan W S
  answer tx r x = record x { context = emit (replies tx r) x.context }

  abbrev pub conclude : Flow (Executor A R Chan W S) → Flow (Executor A R Chan W S × ExecutorLoop)
  conclude r = do x ← r; ok (x, if is_running x.context.state then continue else break)

module _ {A U R Chan W S : Type 0} (tk : Tokio (SendMessage U) Chan W S) (act : Actor A U R) where
  -- `acquire_many(n as u32).await`, whose permits are dropped at once. It waits until so many are free; the
  -- actor is polled then, and what comes meanwhile stands before this in the schedule.
  abbrev await_permits : ℕ → Ctx R Chan W S → Ctx R Chan W S
  await_permits n c = record c {
    max_anonymous_actors = tk.acquire_many (n % 2 ^ 32) c.max_anonymous_actors;
  }

  unfoldable pub check_anonymous_actors : Ctx R Chan W S → Flow (Ctx R Chan W S)
  check_anonymous_actors c =
      let available = tk.available_permits c.max_anonymous_actors in
      let overflow = c.overflow_anonymous_actors in
      let max = act.max_anonymous_actors in
      if available == 0 && ltb 0 overflow
      then (if ltb overflow max
          then ok (record (await_permits overflow c) { overflow_anonymous_actors = 0 })
          else (do
            left ← checked_sub overflow max
            ok (record (await_permits max c) { overflow_anonymous_actors = left })))
      else if ltb 0 overflow
      then (do
        running_tasks ← checked_sub max available
        if ltb overflow running_tasks
            then ok (record (await_permits overflow c) { overflow_anonymous_actors = 0 })
            else (do
              left ← checked_sub overflow running_tasks
              ok (record (await_permits running_tasks c) { overflow_anonymous_actors = left })))
      else ok c

  -- A callback or a handler of the user's, with the calls that it makes on the context.
  abbrev pub react :
      Option (A × List Command) → Executor A R Chan W S → Flow (Executor A R Chan W S)
  react none x = panicked
  react (some (a, ks)) x =
      run_commands tk ks x.context >>= λ c. ok (record x { actor = a; context = c })

  abbrev finish_ask : AskResult R → ℕ → Executor A R Chan W S → Executor A R Chan W S
  finish_ask (reply r) tx x = answer tx r x
  finish_ask task tx x = record x { context = anonymous_ctx tk unit_task x.context }

  abbrev react_ask :
      Option (A × List Command × AskResult R)
      → ℕ
      → Executor A R Chan W S
      → Flow (Executor A R Chan W S)
  react_ask none tx x = panicked
  react_ask (some (a, ks, result)) tx x =
      react (some (a, ks)) x >>= λ y. ok (finish_ask result tx y)

  -- `internal_send_async` to the actor's own mailbox, which nobody reads meanwhile.
  abbrev note_self :
      TrySend (SendMessage U) × Chan → Executor A R Chan W S → Flow (Executor A R Chan W S)
  note_self (sent, c) x = ok (record x { context = record x.context { mailbox = c } })
  note_self (closed m, c) x = ok x
  note_self (full m, c) x = blocked

  abbrev finish_async :
      Option (A × Raced R) → ℕ → Executor A R Chan W S → Flow (Executor A R Chan W S)
  finish_async none tx x = panicked
  finish_async (some (a, Actor.response r)) tx x = ok (answer tx r (record x { actor = a }))
  finish_async (some (a, changed)) tx x =
      note_self (tk.try_send (cancelled_envelope (confide cancel)) x.context.mailbox)
        (record x { actor = a })
  finish_async (some (a, unending)) tx x = blocked

  -- `SendMessage::send`; the test says whether the caller awaits what it returns.
  unfoldable pub send : Bool → SendMessage U → Executor A R Chan W S → Flow (Executor A R Chan W S)
  send awaited (envelope e) x = do u ← (unwrap e).0; react (act.handle u x.actor) x
  send awaited (response e) x = do
    u ← (unwrap e.msg).0
    tx ← take_tx e.tx
    react_ask (act.ask u x.actor) tx x
  send awaited (async_response e) x = do
    u ← (unwrap e.msg).0
    tx ← take_tx e.tx
    y ← react (act.async_ask u x.actor) x
    if awaited then finish_async (act.async_future u y.actor) tx y else ok y
  send awaited (shutdown_envelope e) x = do
    m ← (reveal e).0
    ok (record x { context = private_shutdown m x.context })
  send awaited (cancelled_envelope e) x = do
    m ← (reveal e).0
    ok (record x { context = private_cancelled m x.context })

  unfoldable pub scheduler : SendMessage U → Scheduler
  scheduler (envelope e) = act.handler_scheduler
  scheduler (response e) = act.ask_scheduler
  scheduler (async_response e) = act.async_ask_scheduler
  scheduler _ = non_blocking

  -- `process_message` up to its last test.
  unfoldable pub run_message : Executor A R Chan W S → SendMessage U → Flow (Executor A R Chan W S)
  run_message x m = do
    y ← react (act.pre_run x.actor) x
    z ← send (is_awaited (scheduler m)) m y
    react (act.post_run z.actor) z

  unfoldable pub process_message :
      Executor A R Chan W S → SendMessage U → Flow (Executor A R Chan W S × ExecutorLoop)
  process_message x m = conclude (run_message x m)

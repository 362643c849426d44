-- ===== src/Context.antt =====
-- src/context.rs: the context of an actor, and what its methods do to it.
pub mod State
pub mod Permits
use tokactor.Common.{
  ℕ, ◌+◌, ◌%◌, ◌^◌, Bool, true, false, Option, none, some, List, [], ◌∷◌, ◌++◌, Flow, ok, panicked,
  ◌>>=◌, if◌then◌else◌, ◌==◌,
}
use tokactor.Tokio.{Tokio}
use tokactor.Message.{
  ActorState, running, stopping, stopped, IntoFutureSender, now, upon_completion, SendMessage,
}
use tokactor.Actor.{Actor, Command, stop, abort, spawn, anonymous, anonymous_task, anonymous_handle}

-- What a context hands to `tokio::spawn`; a task of an anonymous actor holds a permit or none.
pub data Task : Type 0 where
  child : Task
  rx_handle rx_ask rx_async : Task
  message_task : Bool → Task
  unit_task : Bool → Task
  handle_task : Bool → Task

-- What leaves the actor: a task that is started, a reply that goes to a oneshot channel.
pub data Effect (R : Type 0) : Type 0 where
  starts : Task → Effect R
  replies : ℕ → R → Effect R

pub record Ctx (R Chan W S : Type 0) : Type 0 where
  pub mailbox : Chan
  pub notifier : W
  pub state : ActorState
  pub max_anonymous_actors : S
  pub overflow_anonymous_actors : ℕ
  pub into_future_sender : Option IntoFutureSender
  -- oldest first
  pub effects : List (Effect R)

abbrev pub is_running : ActorState → Bool
is_running running = true
is_running _ = false

-- `usize` on a 64-bit target
abbrev pub usize_mod : ℕ
usize_mod = 2 ^ 64

module _ {R Chan W S : Type 0} where
  -- `ActorContext::stop`
  unfoldable pub stop_ctx : Ctx R Chan W S → Ctx R Chan W S
  stop_ctx c = if is_running c.state then record c { state = stopping } else c

  unfoldable pub subscribe_and_stop : ℕ → Ctx R Chan W S → Ctx R Chan W S
  unfolding stop_ctx
  subscribe_and_stop tx c =
      let c' = record c { into_future_sender = some (now tx) } in
      if is_running c'.state then stop_ctx c' else c'

  unfoldable pub subscribe_and_wait : ℕ → Ctx R Chan W S → Ctx R Chan W S
  subscribe_and_wait tx c = record c { into_future_sender = some (upon_completion tx) }

  abbrev pub emit : Effect R → Ctx R Chan W S → Ctx R Chan W S
  emit e c = record c { effects = c.effects ++ e ∷ [] }

abbrev check_state : ActorState → Flow (Unit {0})
check_state stopping = panicked
check_state running = ok tt
check_state stopped = ok tt

abbrev check_sender : Option IntoFutureSender → Flow (Unit {0})
check_sender none = ok tt
check_sender (some tx) = panicked

module _ {U R Chan W S : Type 0} (tk : Tokio (SendMessage U) Chan W S) where
  unfoldable pub new : {A : Type 0} → Actor A U R → Ctx R Chan W S
  new act = record {
    mailbox = tk.channel act.mailbox_size;
    notifier = tk.watch;
    state = running;
    max_anonymous_actors = tk.semaphore act.max_anonymous_actors;
    overflow_anonymous_actors = 0;
    into_future_sender = none;
    effects = [];
  }

  abbrev pub abort_from : ActorState → Ctx R Chan W S → Ctx R Chan W S
  abort_from stopped c = c
  abort_from _ c = record c { mailbox = tk.close c.mailbox; state = stopped }

  -- `ActorContext::abort`
  unfoldable pub abort_ctx : Ctx R Chan W S → Ctx R Chan W S
  abort_ctx c = abort_from c.state c

  -- A task keeps a receiver of the notifier alive until it ends.
  abbrev pub start : Task → Ctx R Chan W S → Ctx R Chan W S
  start t c = emit (starts t) (record c { notifier = tk.subscribe c.notifier })

  -- `spawn_with` and `spawn_anonymous_rx_*`: all panic unless the actor runs.
  unfoldable pub spawn_task : Task → Ctx R Chan W S → Flow (Ctx R Chan W S)
  spawn_task t c = if is_running c.state then ok (start t c) else panicked

  -- The count of the overflow wraps, as in a build without overflow checks. One with checks would panic
  -- there, after 2^64 calls without a permit.
  unfoldable pub acquire_anonymous_permit : Ctx R Chan W S → Bool × Ctx R Chan W S
  acquire_anonymous_permit c =
      let (got, s) = tk.try_acquire c.max_anonymous_actors in
      let c' = record c { max_anonymous_actors = s } in
      if got then (true, c') else (
        false,
        record c' { overflow_anonymous_actors = (c'.overflow_anonymous_actors + 1) % usize_mod },
      )

  -- `anonymous`, `anonymous_task` and `anonymous_handle` differ in the task that they start.
  unfoldable pub anonymous_ctx : (Bool → Task) → Ctx R Chan W S → Ctx R Chan W S
  unfolding acquire_anonymous_permit
  anonymous_ctx t c = let (permit, c') = acquire_anonymous_permit c in start (t permit) c'

  unfoldable pub run_command : Command → Ctx R Chan W S → Flow (Ctx R Chan W S)
  unfolding stop_ctx abort_ctx spawn_task anonymous_ctx
  run_command stop c = ok (stop_ctx c)
  run_command abort c = ok (abort_ctx c)
  run_command spawn c = spawn_task child c
  run_command anonymous c = ok (anonymous_ctx message_task c)
  run_command anonymous_task c = ok (anonymous_ctx unit_task c)
  run_command anonymous_handle c = ok (anonymous_ctx handle_task c)

  unfoldable pub run_commands : List Command → Ctx R Chan W S → Flow (Ctx R Chan W S)
  run_commands [] c = ok c
  run_commands (k ∷ ks) c = run_command k c >>= run_commands ks

  -- `Drop for Ctx`, which asserts in the tests what must hold of a context that is dropped. Messages
  -- that are left, and an actor that still runs, are reported only.
  unfoldable pub drop_ctx : Ctx R Chan W S → Flow (Unit {0})
  drop_ctx c = check_state c.state >>= λ u.
      if tk.receivers c.notifier == 0 then check_sender c.into_future_sender else panicked

-- ===== src/Actor.antt =====
-- src/actor.rs: what a user programs. A callback or a handler changes the actor and uses its context
-- through the context's public methods only, so it is a function from the actor to the new actor
-- and the list of the calls that it makes; `none` is a panic.
use tokactor.Common.{ℕ, ◌≡◌, Option, none, some, List, []}
use tokactor.Message.{Scheduler, non_blocking}

-- The methods of `Ctx` that change it and that a user can call.
pub data Command : Type 0 where
  stop abort spawn anonymous anonymous_task anonymous_handle : Command

-- `AskResult`: a reply, or the handle of a task that makes it.
pub data AskResult (R : Type 0) : Type 0 where
  reply : R → AskResult R
  task : AskResult R

-- The arm that the `select!` of an `AsyncAsk` takes: the handler's future, or a notification; or the
-- future waits for good, and no notification comes.
pub data Raced (R : Type 0) : Type 0 where
  response : R → Raced R
  changed : Raced R
  unending : Raced R

-- One message type `U` and one reply type `R` stand for those of all the handler traits.
pub record Actor (A U R : Type 0) : Type 0 where
  pub max_anonymous_actors : ℕ
  pub mailbox_size : ℕ
  pub on_start : A → Option (A × List Command)
  pub pre_run : A → Option (A × List Command)
  pub post_run : A → Option (A × List Command)
  pub on_stopping : A → Option (A × List Command)
  pub on_stopped : A → Option (A × List Command)
  pub on_end : A → Option (A × List Command)
  pub handle : U → A → Option (A × List Command)
  pub ask : U → A → Option (A × List Command × AskResult R)
  -- an async handler up to its future, and the future (it borrows the actor, not the context)
  pub async_ask : U → A → Option (A × List Command)
  pub async_future : U → A → Option (A × Raced R)
  pub handler_scheduler : Scheduler
  pub ask_scheduler : Scheduler
  pub async_ask_scheduler : Scheduler

-- Some future of the actor's waits for good; or none does.
abbrev pub Endless : {A U R : Type 0} → Actor A U R → Type 0
Endless {A} {U} act = (u : U) × (a : A) × (b : A) × (act.async_future u a ≡ some (b, unending))

abbrev pub Prompt : {A U R : Type 0} → Actor A U R → Type 0
Prompt act = Endless act → ⊥

-- The methods that `Actor` and the traits of its handlers provide, on a machine of 64 bits. An actor that
-- has no handler for a message is not sent it.
abbrev pub defaults : {A U R : Type 0} → Actor A U R
defaults = record {
  max_anonymous_actors = 2305843009213693951;
  mailbox_size = 6;
  on_start = λ a. some (a, []);
  pre_run = λ a. some (a, []);
  post_run = λ a. some (a, []);
  on_stopping = λ a. some (a, []);
  on_stopped = λ a. some (a, []);
  on_end = λ a. some (a, []);
  handle = λ u a. none;
  ask = λ u a. none;
  async_ask = λ u a. none;
  async_future = λ u a. none;
  handler_scheduler = non_blocking;
  ask_scheduler = non_blocking;
  async_ask_scheduler = non_blocking;
}

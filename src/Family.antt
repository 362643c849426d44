-- ===== src/Family.antt =====
-- src/context.rs: an actor and the tasks that it has started, which run beside it, hold a receiver of
-- its notifier and some of them a permit, and let go of the two at different moments and in any order.
pub mod Counting
pub mod FanIn
use tokactor.Common.{
  ℕ, Bool, true, false, Option, List, [], ◌∷◌, ◌++◌, ◌≡◌, ◌≤◌, ◌<◌, ◌^◌, Flow, ok,
}
use tokactor.Tokio.{Tokio}
use tokactor.Message.{SendMessage}
use tokactor.Actor.{Actor, Command, stop, abort, spawn, anonymous, anonymous_task, anonymous_handle}
use tokactor.Context.{
  Ctx, Task, child, rx_handle, rx_ask, rx_async, message_task, unit_task, handle_task, new,
  run_command, acquire_anonymous_permit,
}
use tokactor.Executor.{check_anonymous_actors}
use tokactor.Executor.Anonymous.{asked, running_tasks}

pub record Family (R Chan W S : Type 0) : Type 0 where
  pub context : Ctx R Chan W S
  -- the tasks that still hold their receiver, and those that still hold a permit if they got one
  pub watching : List Task
  pub permitted : List Task

abbrev pub holds_permit : Task → Bool
holds_permit (message_task permit) = permit
holds_permit (unit_task permit) = permit
holds_permit (handle_task permit) = permit
holds_permit _ = false

module _ {A U R Chan W S : Type 0} (tk : Tokio (SendMessage U) Chan W S) (act : Actor A U R) where
  abbrev of_permit : (Bool → Task) → Ctx R Chan W S → List Task
  of_permit t c = t (tk.try_acquire c.max_anonymous_actors).0 ∷ []

  -- The task that a call on the context starts.
  unfoldable pub started : Command → Ctx R Chan W S → List Task
  started stop c = []
  started abort c = []
  started spawn c = child ∷ []
  started anonymous c = of_permit message_task c
  started anonymous_task c = of_permit unit_task c
  started anonymous_handle c = of_permit handle_task c

  -- A task drops its permit, if it has one.
  abbrev pub let_go : Bool → S → S
  let_go true s = tk.release s
  let_go false s = s

  unfoldable pub gives_back : Task → Ctx R Chan W S → Ctx R Chan W S
  gives_back t c = record c {
    max_anonymous_actors = let_go (holds_permit t) c.max_anonymous_actors;
  }

  -- A task drops its receiver.
  unfoldable pub unwatched : Ctx R Chan W S → Ctx R Chan W S
  unwatched c = record c { notifier = tk.drop_receiver c.notifier }

  -- What can happen: the actor makes a call, a task drops its receiver (that of an anonymous task before
  -- it reports, that of an anonymous handle with the output of its join), a task gives its permit
  -- back, or the actor has waited long enough for
  -- its anonymous actors, of which fewer than 2^32 hold a permit.
  pub data Step (f : Family R Chan W S) : Family R Chan W S → Type 0 where
    calls :
        (k : Command) (d : Ctx R Chan W S)
        → run_command tk k f.context ≡ ok d
        → Step f (record {
          context = d;
          watching = f.watching ++ started k f.context;
          permitted = f.permitted ++ started k f.context;
        })
    unwatches :
        (before after : List Task) (t : Task)
        → f.watching ≡ before ++ t ∷ after
        → Step f (record f { context = unwatched f.context; watching = before ++ after })
    returns :
        (before after : List Task) (t : Task)
        → f.permitted ≡ before ++ t ∷ after
        → Step f (record f { context = gives_back t f.context; permitted = before ++ after })
    settles :
        (d : Ctx R Chan W S)
        → asked tk act f.context ≤ tk.available_permits f.context.max_anonymous_actors
        → running_tasks tk act f.context < 2 ^ 32
        → check_anonymous_actors tk act f.context ≡ ok d
        → Step f (record f { context = d })

  abbrev pub first : Family R Chan W S
  first = record { context = new tk act; watching = []; permitted = [] }

  pub data Reach : Family R Chan W S → Type 0 where
    start : Reach first
    next : {f g : Family R Chan W S} → Reach f → Step f g → Reach g

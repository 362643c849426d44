-- ===== src/Executor/Silent.antt =====
-- src/executor.rs: an actor whose callbacks do nothing, and how it shuts down without children.
use tokactor.Common.{ℕ, suc, ◌≡◌, refl, ◌∙◌, true, Option, some, List, [], length, ok}
use tokactor.Tokio.{Tokio, TokioLaws}
use tokactor.Message.{SendMessage, running, stopping, stopped, now}
use tokactor.Actor.{Actor, Command}
use tokactor.Context.{run_commands, subscribe_and_stop, stop_ctx}
use tokactor.Address.{shutdown_message}
use tokactor.Executor.{Executor, break, react, send, run_message, process_message}
use tokactor.Executor.Awaits.{Event, ready}
use tokactor.Executor.Loops.{
  with_mailbox, with_state, drain, stop, stopped_phase, stopping_loop, shutdown_executor,
}
use tokactor.Executor.Shutdown.{drain_empty}

module _ {A U R : Type 0} (act : Actor A U R) where
  -- No callback does anything.
  pub record Silent : Type 0 where
    pub on_start : (a : A) → act.on_start a ≡ some (a, [])
    pub pre_run : (a : A) → act.pre_run a ≡ some (a, [])
    pub post_run : (a : A) → act.post_run a ≡ some (a, [])
    pub on_stopping : (a : A) → act.on_stopping a ≡ some (a, [])
    pub on_stopped : (a : A) → act.on_stopped a ≡ some (a, [])
    pub on_end : (a : A) → act.on_end a ≡ some (a, [])

module _ {A U R Chan W S : Type 0} (tk : Tokio (SendMessage U) Chan W S) (act : Actor A U R)
    (laws : TokioLaws tk) (q : Silent act) where
  pub react_silent :
      (r : Option (A × List Command)) (x : Executor A R Chan W S)
      → r ≡ some (x.actor, [])
      → react tk act r x ≡ ok x
  unfolding run_commands
  react_silent r x h = rw h refl

  -- The executor that was asked to stop.
  abbrev pub asked : ℕ → Executor A R Chan W S → Executor A R Chan W S
  asked tx x = record x {
    context = record x.context { into_future_sender = some (now tx); state = stopping };
  }

  pub process_await :
      (tx : ℕ) (x : Executor A R Chan W S)
      → x.context.state ≡ running
      → process_message tk act x (shutdown_message true tx) ≡ ok (asked tx x, break)
  unfolding process_message run_message send run_commands subscribe_and_stop stop_ctx
  process_await tx x h = rw (q.pre_run x.actor, h, q.post_run x.actor) refl

  -- The executor whose mailbox is closed and will be drained.
  abbrev pub to_drain : Executor A R Chan W S → Executor A R Chan W S
  to_drain x = with_state tk act stopped (with_mailbox tk act (tk.close x.context.mailbox) x)

  -- Its shutdown is the drain of its closed mailbox.
  pub shutdown_silent :
      (x y : Executor A R Chan W S) (es : List (Event U))
      → tk.receivers x.context.notifier ≡ 0
      → drain tk act (suc (length (tk.queue (tk.close x.context.mailbox)))) (to_drain x) ≡ ok y
      → shutdown_executor tk act x es ≡ ready y es
  unfolding shutdown_executor stopping_loop stopped_phase stop run_commands
  shutdown_silent x y es alone drained =
      rw (q.on_stopping x.actor, alone, q.on_stopped x.actor, drained, alone, q.on_end y.actor) refl

  pub drain_nothing :
      (x : Executor A R Chan W S)
      → tk.queue x.context.mailbox ≡ []
      → drain tk act (suc (length (tk.queue (tk.close x.context.mailbox)))) (to_drain x)
        ≡ ok (to_drain x)
  drain_nothing x e =
      drain_empty tk act laws _ _ (laws.queue-close x.context.mailbox ∙ e)
        (laws.is_closed-close x.context.mailbox)

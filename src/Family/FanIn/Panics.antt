-- ===== src/Family/FanIn/Panics.antt =====
-- src/context.rs (`spawn_with`) and src/executor.rs (`stopping`): a child that panics lets go of its
-- receiver first, while it unwinds, and is reported afterwards.
use tokactor.Common.{ℕ, ◌≡◌, refl, ◌∙◌, Bool, false, none, List, ok, ◌==◌}
use tokactor.Tokio.{Tokio, TokioLaws}
use tokactor.Message.{SendMessage, ChildError}
use tokactor.Actor.{Actor}
use tokactor.Address.{Reply}
use tokactor.Executor.{Executor}
use tokactor.Executor.Awaits.{Event, ready, drive}
use tokactor.Executor.Loops.{stopping_turn}
use tokactor.Executor.Waiting.{children_end, children_end-Left}
use tokactor.Supervision.{join_paniced, DeadActor, supervise}
use tokactor.Supervision.Reports.{supervise_lem}

module _ {A U R Chan W S C V Box X T E : Type 0} (tk : Tokio (SendMessage U) Chan W S)
    (act : Actor A U R) (laws : TokioLaws tk)
    (wrap : Reply (DeadActor C V Box X T) (ChildError E) → U) where
  -- An actor that shuts down and waits for its last children, all of which panic: when its timer runs
  -- out before a report comes, it waits no longer, and the report of each of them is lost.
  pub supervise-lost :
      (k n : ℕ) (x : Executor A R Chan W S) (es : List (Event U)) (alive : Bool) (e : E)
      → (n == 10) ≡ false
      → tk.receivers x.context.notifier ≡ k
      → (y : ℕ × Executor A R Chan W S) × (drive (stopping_turn tk act) (n, x) (children_end k es)
          ≡ ready y es)
        × (supervise tk wrap alive (join_paniced e) y.1.context.mailbox
            ≡ ok (none, y.1.context.mailbox))
  supervise-lost k n x es alive e early some_left =
      let (q, ran, shut) = children_end-Left tk act laws k n x es early some_left in
      (q, ran, supervise_lem tk wrap laws alive (join_paniced e) q.1.context.mailbox ∙ rw shut refl)

-- ===== src/Supervision/Children/Replayed.antt =====
-- src/context.rs, `spawn_with`: what the actor is that is told when a child has ended.
use tokactor.Common.{ℕ, ◌≡◌, ◌≢◌, ◌<◌, refl, Bool, false, Option, List, [], length, ok}
use tokactor.Tokio.{Tokio, TokioLaws}
use tokactor.Tokio.Recording.{Account, recording, recording_laws}
use tokactor.Message.{SendMessage, ChildError}
use tokactor.Address.{Reply}
use tokactor.Actor.{Actor}
use tokactor.Executor.{Executor}
use tokactor.Executor.Awaits.{Event, pending, hangs}
use tokactor.Executor.Loops.{run_supervised_actor}
use tokactor.Executor.Ending.{Ended}
use tokactor.Executor.Supervised.{run_supervised_actor-Ended}
use tokactor.Executor.Replay.{moved, replay}
use tokactor.Executor.Replay.Runs.{Plain}
use tokactor.Executor.Replay.Supervised.{run_supervised_actor-replay}
use tokactor.Supervision.{DeadActor}
use tokactor.Supervision.Children.{child_task, Told, ended-Told}

module _ {A V R Chan W S : Type 0} (tkc : Tokio (SendMessage V) Chan W S) (act : Actor A V R)
    (lawsc : TokioLaws tkc) where
  -- A child that has ended properly, and that is what the state machine makes of what it accepted.
  pub record Replays (start : A) (y : Executor A R (Account tkc) W S) : Type 0 where
    pub ended : Ended (recording tkc lawsc) y.context
    pub same : y.actor ≡ replay act y.context.mailbox.accepted start

module _ {A V R Chan W S U Box X T E : Type 0} (tkc : Tokio (SendMessage V) Chan W S)
    (act : Actor A V R) (tk : Tokio (SendMessage U) Box X T)
    (wrap : Reply (DeadActor A R (Account tkc) W S) (ChildError E) → U) (lawsc : TokioLaws tkc)
    (laws : TokioLaws tk) where
  -- Whatever happens to a child while it runs, if its callbacks of the shutdown leave it as it is and
  -- it has taken no message yet: once its task is over, and if its supervisor's mailbox is open and has
  -- room, its end is told exactly once: as a panic if its run panicked, and if its run returned, with the
  -- actor of that run, to the one who awaits it if there is one who is still there, and otherwise to
  -- the supervisor. This actor has ended properly and
  -- is what the state machine makes, from where `on_start` left it, of the messages that the child's
  -- mailbox accepted, in the order of their acceptance.
  pub child_task-Replays :
      (alive : Bool) (e : E) (x : Executor A R (Account tkc) W S) (es : List (Event V)) (c : Box)
      → Plain act
      → x.context.mailbox.taken ≡ []
      → run_supervised_actor (recording tkc lawsc) act x es ≢ pending
      → run_supervised_actor (recording tkc lawsc) act x es ≢ hangs
      → tk.is_closed c ≡ false
      → length (tk.queue c) < tk.capacity c
      → (p : Option (ℕ × A) × Box) × (child_task (recording tkc lawsc) act tk wrap alive e x es c
          ≡ ok p)
        × Told
            (recording tkc lawsc)
            act
            tk
            wrap
            (Replays tkc act lawsc (moved (act.on_start x.actor) x.actor))
            alive
            e
            c
            (run_supervised_actor (recording tkc lawsc) act x es)
            p
  unfolding child_task
  child_task-Replays alive e x es c plain fresh over there open_ room =
      let k = recording tkc lawsc in
      ended-Told k act tk wrap laws (Replays tkc act lawsc (moved (act.on_start x.actor) x.actor))
        alive e x es c (run_supervised_actor k act x es)
        (λ y rest ran. record {
          ended = run_supervised_actor-Ended k act (recording_laws tkc lawsc) x es y rest ran;
          same = run_supervised_actor-replay tkc act lawsc x y es rest plain fresh ran;
        })
        refl over there open_ room

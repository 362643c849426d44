-- ===== src/Executor/Delivery.antt =====
-- src/executor.rs: what becomes of the messages that a mailbox has accepted. The mailbox keeps account of
-- them; the loops take messages out of it to process them, and in no other place.
use tokactor.Common.{ℕ, ◌≡◌, ap, ◌∙◌, Option, List, [], ◌++◌, append-nil}
use tokactor.Tokio.{Tokio, TokioLaws}
use tokactor.Tokio.Recording.{Account, recording, recording_laws}
use tokactor.Message.{SendMessage}
use tokactor.Actor.{Actor}
use tokactor.Executor.{Executor}
use tokactor.Executor.Awaits.{Event, ready}
use tokactor.Executor.Loops.{run_actor, run_supervised_actor}
use tokactor.Executor.Ending.{run_actor-Finished}
use tokactor.Executor.Supervised.{run_supervised_actor-Ended}

module _ {A U R Chan W S : Type 0} (tk : Tokio (SendMessage U) Chan W S) (act : Actor A U R)
    (laws : TokioLaws tk) where
  abbrev Kept : Type 0
  Kept = Executor A R (Account tk) W S

  pub all_taken : (a : Account tk) → tk.queue a.chan ≡ [] → a.accepted ≡ a.taken
  all_taken a e = a.balance ∙ ap (λ q. a.taken ++ q) e ∙ append-nil a.taken

  -- No message that the mailbox accepted stays in it: when the task of an unsupervised actor is over, the
  -- messages that were taken out of its mailbox are those that it had accepted, from whomever and at
  -- whatever moment of the run, its shutdown included, each once and in the order of acceptance.
  pub run_actor-taken :
      (x y : Kept) (es rest : List (Event U)) (sent : Option (ℕ × A))
      → run_actor (recording tk laws) act x es ≡ ready (y, sent) rest
      → y.context.mailbox.accepted ≡ y.context.mailbox.taken
  unfolding recording
  run_actor-taken x y es rest sent h =
      let done =
        run_actor-Finished (recording tk laws) act (recording_laws tk laws) x es y sent rest h in
      all_taken y.context.mailbox done.ended.empty

  -- The same of a supervised actor.
  pub run_supervised_actor-taken :
      (x y : Kept) (es rest : List (Event U))
      → run_supervised_actor (recording tk laws) act x es ≡ ready y rest
      → y.context.mailbox.accepted ≡ y.context.mailbox.taken
  unfolding recording
  run_supervised_actor-taken x y es rest h =
      all_taken y.context.mailbox
        (run_supervised_actor-Ended (recording tk laws) act (recording_laws tk laws) x es y rest
          h).empty

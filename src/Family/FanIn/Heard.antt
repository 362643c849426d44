-- ===== src/Family/FanIn/Heard.antt =====
-- src/context.rs and src/executor.rs: an actor hears of all its children before it ends.
use tokactor.Common.{
  ℕ, ◌+◌, ◌≡◌, sym, ap, ◌∙◌, subst, List, [], ◌++◌, append-nil, length, ok, Sublist, Sublist-nil,
}
use mathlib.Core.List.Perm
use mathlib.Core.List.{Perm}
use tokactor.Tokio.{Tokio, TokioLaws}
use tokactor.Tokio.Recording.{Account, recording, recording_laws}
use tokactor.Message.{SendMessage}
use tokactor.Actor.{Actor}
use tokactor.Executor.{Executor, react}
use tokactor.Executor.Awaits.{Event, ready, drive, and_then}
use tokactor.Executor.Loops.{actor_turn, shutdown_executor, run_actor, take_sender}
use tokactor.Executor.Ending.{shutdown_executor-Ended}
use tokactor.Executor.Delivery.{all_taken}
use tokactor.Executor.Schedule.{and_then-eq-ready, and_then_assoc}
use tokactor.Family.FanIn.{over, Nursery, History, first, mailbox}
use tokactor.Family.FanIn.Tending.{Counted, Sound, History-Sound}
use tokactor.Family.FanIn.Parent.{rest_of, History-follows}

module _ {A U R Chan W S : Type 0} (tk : Tokio (SendMessage U) Chan W S) (act : Actor A U R)
    (laws : TokioLaws tk) where
  first-Sound :
      (x : Executor A R (Account tk) W S) (ms : List (SendMessage U)) (k : ℕ)
      → (recording tk laws).receivers x.context.notifier ≡ length ms + k
      → Sound tk act laws (first (recording tk laws) act x ms k)
  unfolding recording
  first-Sound x ms k c = record {
    counted = c;
    all = subst (Perm ms) (sym (append-nil ms)) (Perm.refl ms);
    kept = Sublist-nil x.context.mailbox.accepted;
  }

  ended_taken :
      (x y : Executor A R (Account tk) W S) (es : List (Event U))
      → and_then
          (drive (actor_turn (recording tk laws) act) x es)
          (shutdown_executor (recording tk laws) act)
        ≡ ready y []
      → y.context.mailbox.accepted ≡ y.context.mailbox.taken
  unfolding recording
  ended_taken x y es h =
      let (z, es₁, looped, closed_) =
        and_then-eq-ready (drive (actor_turn (recording tk laws) act) x es) _ h in
      let v =
        shutdown_executor-Ended (recording tk laws) act (recording_laws tk laws) z es₁ y []
          closed_ in
      all_taken tk act laws y.context.mailbox v.empty

  heard_all :
      (f : Nursery A U R (Account tk) W S) (y : Executor A R (Account tk) W S)
      → f.phase ≡ over y
      → Sound tk act laws f
      → (f.unsaid ≡ []) × Sublist f.heard y.context.mailbox.accepted
  heard_all f y e v = (
    subst (λ q. Counted tk act laws q f.unsaid f.silent) e v.counted,
    subst (λ q. Sublist f.heard (mailbox (recording tk laws) act q).accepted) e v.kept,
  )

  -- An actor starts its loop, with tasks that it has started already, and goes along with its children
  -- in any interleaving of their ends, of other senders and of its own messages. If it comes to its
  -- end, then `run_actor` returns there, and by then it has taken out of its mailbox, once each and
  -- in the order in which they were sent, the reports of all the children it ever started which have
  -- one to make, but those that found its mailbox closed before its time.
  pub History-hears :
      (x₀ x y : Executor A R (Account tk) W S) (ms : List (SendMessage U)) (k : ℕ)
      (es : List (Event U)) (f : Nursery A U R (Account tk) W S)
      → react (recording tk laws) act (act.on_start x₀.actor) x₀ ≡ ok x
      → (recording tk laws).receivers x.context.notifier ≡ length ms + k
      → History (recording tk laws) act (first (recording tk laws) act x ms k) es f
      → f.phase ≡ over y
      → (run_actor (recording tk laws) act x₀ es ≡ ready (take_sender (recording tk laws) act y) [])
        × Sublist f.heard y.context.mailbox.taken
        × Perm f.born (f.heard ++ f.lost)
  unfolding run_actor
  History-hears x₀ x y ms k es f began c path e =
      let v = History-Sound tk act laws path (first-Sound x ms k c) in
      let (nobody, heard_) = heard_all f y e v in
      let ran : and_then (drive (actor_turn (recording tk laws) act) x es)
            (shutdown_executor (recording tk laws) act)
          ≡ ready y [] =
        History-follows (recording tk laws) act (recording_laws tk laws) path
        ∙ ap (λ q. rest_of (recording tk laws) act (recording_laws tk laws) q []) e in
      let send_off = λ (w : Executor A R (Account tk) W S) (last : List (Event U)).
        ready (take_sender (recording tk laws) act w) last in
      (
        rw began (
            sym (
              and_then_assoc (drive (actor_turn (recording tk laws) act) x es)
                (shutdown_executor (recording tk laws) act) send_off)
            ∙ ap (λ o. and_then o send_off) ran),
        subst (Sublist f.heard) (ended_taken x y es ran) heard_,
        subst (λ l. Perm f.born (l ++ (f.heard ++ f.lost))) nobody v.all,
      )

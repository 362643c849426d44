-- ===== src/Supervision.antt =====
-- src/context.rs: the tasks that run beside an actor and report to it: the one that `spawn_with`
-- starts around a child, and those of anonymous actors.
pub mod Reports
pub mod Delegation
pub mod Children
use tokactor.Common.{
  ℕ, Bool, true, false, Option, none, some, Flow, ok, panicked, blocked, ◌>>=◌, if◌then◌else◌,
}
use tokactor.Tokio.{Tokio}
use tokactor.Message.{
  SendMessage, cancelled_envelope, confide, AnonymousTaskCancelled, success, cancel, into_inner,
  ChildError, IntoFutureSender,
}
use tokactor.Message
use tokactor.Context.{Ctx}
use tokactor.Executor.{Executor}
use tokactor.Address.{Reply, fine, failed, SendError, send_async, internal_send_async}

-- How the task of a child ended, as its join handle says.
pub data JoinResult (A R Chan W S E : Type 0) : Type 0 where
  completed : Executor A R Chan W S → JoinResult A R Chan W S E
  join_cancelled : E → JoinResult A R Chan W S E
  join_paniced : E → JoinResult A R Chan W S E

pub record DeadActor (A R Chan W S : Type 0) : Type 0 where
  pub actor : A
  pub ctx : Ctx R Chan W S

-- `U` is what the supervisor handles, and `wrap` its `DeadActorResult` of this child.
module _ {A R Chan W S E U Box V T : Type 0} (tk : Tokio (SendMessage U) Box V T)
    (wrap : Reply (DeadActor A R Chan W S) (ChildError E) → U) where
  abbrev pub delivered : Reply (Unit {0}) (SendError U) × Box → Flow (Option (ℕ × A) × Box)
  delivered (fine _, c) = ok (none, c)
  delivered (failed _, c) = panicked

  -- `let _ = supervisor.send_async(..).await`
  abbrev pub whatever : Reply (Unit {0}) (SendError U) × Box → Flow (Option (ℕ × A) × Box)
  whatever (_, c) = ok (none, c)

  abbrev pub dead : Executor A R Chan W S → DeadActor A R Chan W S
  dead x = record { actor = x.actor; ctx = record x.context { into_future_sender = none } }

  abbrev pub announce : Executor A R Chan W S → Box → Flow (Option (ℕ × A) × Box)
  announce x c = send_async tk (wrap (fine (dead x))) c >>= delivered

  abbrev pub hand_over :
      Option IntoFutureSender → Bool → Executor A R Chan W S → Box → Flow (Option (ℕ × A) × Box)
  hand_over none alive x c = announce x c
  hand_over (some tx) alive x c =
      if alive then ok (some (into_inner tx, x.actor), c) else announce x c

  -- The task around a child; `c` is the supervisor's mailbox, and `alive` says whether the receiver
  -- of who awaits the child still exists. The result is who got the actor, if anybody did.
  unfoldable pub supervise : Bool → JoinResult A R Chan W S E → Box → Flow (Option (ℕ × A) × Box)
  supervise alive (completed x) c = hand_over x.context.into_future_sender alive x c
  supervise alive (join_cancelled e) c =
      send_async tk (wrap (failed (ChildError.cancelled e))) c >>= whatever
  supervise alive (join_paniced e) c =
      send_async tk (wrap (failed (ChildError.panic e))) c >>= whatever

-- The `select!` of an anonymous actor: a notification first, its future first, or a panic of it.
pub data Race (T : Type 0) : Type 0 where
  changed : Race T
  finishes : T → Race T
  panics : Race T

-- What its join handle comes to: the actor's `result`, or an error.
pub data Joined (T : Type 0) : Type 0 where
  joined : Option T → Joined T
  join_error : Joined T

-- `AnonymousActor::handle`; `notified` says that the supervisor has sent something before.
unfoldable pub handle : {T : Type 0} → Bool → Race T → Joined T
handle true r = joined none
handle false changed = joined none
handle false (finishes result) = joined (some result)
handle false panics = join_error

module _ {U Box V T : Type 0} (tk : Tokio (SendMessage U) Box V T) where
  abbrev pub ignored : Flow (Reply (Unit {0}) (SendError U) × Box) → Flow Box
  ignored r = r >>= λ p. ok p.1

  abbrev pub notice : AnonymousTaskCancelled → Box → Flow Box
  notice k c = ignored (internal_send_async tk (cancelled_envelope (confide k)) c)

  -- The task of `Ctx::anonymous`, once the inner task has been joined.
  unfoldable pub report_anonymous : Joined U → Box → Flow Box
  report_anonymous (joined (some message)) c = ignored (send_async tk message c)
  report_anonymous (joined none) c = notice cancel c
  report_anonymous join_error c = notice AnonymousTaskCancelled.panic c

  -- The task of `Ctx::anonymous_task`.
  unfoldable pub report_task : Joined (Unit {0}) → Box → Flow Box
  report_task j c = notice success c

  -- The future that a question is delegated to (`AskResult::Task`), once its handle has been joined:
  -- the answer that is sent at once, or a notice that there is none.
  abbrev pub answer_later : {R : Type 0} → ℕ → Joined R → Box → Option (ℕ × R) × Flow Box
  answer_later tx (joined (some r)) c = (some (tx, r), ok c)
  answer_later tx (joined none) c = (none, notice cancel c)
  answer_later tx join_error c = (none, notice cancel c)

  abbrev pub wound_up : {R : Type 0} → Option (ℕ × R) × Flow Box → Option (ℕ × R) × Flow Box
  wound_up (o, r) = (o, r >>= report_task (joined (some tt)))

  -- The task of `Response::send`: what it answers, and then what becomes of the actor's mailbox, which it
  -- may wait for. It is an anonymous task itself, so it can be interrupted before its future is done.
  unfoldable pub delegate : {R : Type 0} → Bool → ℕ → Joined R → Box → Option (ℕ × R) × Flow Box
  unfolding report_task
  delegate true tx j c = wound_up (none, ok c)
  delegate false tx j c = wound_up (answer_later tx j c)

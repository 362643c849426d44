-- ===== src/Supervision/Reports.antt =====
-- src/context.rs: what a supervisor hears of the tasks beside it.
use tokactor.Common.{
  ℕ, ◌≡◌, refl, ap, ◌∙◌, Bool, true, false, Option, none, some, Flow, ok, panicked, blocked, ◌>>=◌,
}
use tokactor.Tokio.{Tokio, TokioLaws}
use tokactor.Tokio.Room.{by_room, try_send_lem, push_through}
use tokactor.Message.{
  SendMessage, envelope, enclose, cancelled_envelope, confide, AnonymousTaskCancelled, success,
  cancel, downcast_envelope, into_inner, ChildError, IntoFutureSender,
}
use tokactor.Address.{Reply, fine, failed, internal_send_async, sent_later, internal_error}
use tokactor.Address.Results.{send_async_lem}
use tokactor.Executor.{Executor}
use tokactor.Supervision.{
  JoinResult, completed, join_cancelled, join_paniced, DeadActor, delivered, whatever, dead,
  announce, hand_over, supervise, Race, changed, finishes, panics, Joined, joined, join_error,
  handle, ignored, notice, report_anonymous, report_task,
}

module _ {A R Chan W S E U Box V T : Type 0} (tk : Tokio (SendMessage U) Box V T)
    (wrap : Reply (DeadActor A R Chan W S) (ChildError E) → U) (laws : TokioLaws tk) where
  abbrev pub enqueue : U → Box → Box
  enqueue m c = (tk.try_send (envelope (enclose m)) c).1

  -- What there is to say of a child that has ended.
  abbrev pub news : JoinResult A R Chan W S E → Reply (DeadActor A R Chan W S) (ChildError E)
  news (completed x) = fine (dead tk wrap x)
  news (join_cancelled e) = failed (ChildError.cancelled e)
  news (join_paniced e) = failed (ChildError.panic e)

  -- Who awaits a child that completed, if anybody does and is still there.
  abbrev pub reached : Option IntoFutureSender → Bool → A → Option (ℕ × A)
  reached none alive a = none
  reached (some tx) true a = some (into_inner tx, a)
  reached (some tx) false a = none

  abbrev pub awaiter : Bool → JoinResult A R Chan W S E → Option (ℕ × A)
  awaiter alive (completed x) = reached x.context.into_future_sender alive x.actor
  awaiter alive _ = none

  -- A supervisor that cannot be told of a child that completed is an error that panics.
  abbrev pub unheard : JoinResult A R Chan W S E → Box → Flow (Option (ℕ × A) × Box)
  unheard (completed x) c = panicked
  unheard _ c = ok (none, c)

  abbrev pub told : JoinResult A R Chan W S E → Box → Flow (Option (ℕ × A) × Box)
  told j c = by_room tk c (unheard j c) (ok (none, enqueue (wrap (news j)) c)) blocked

  abbrev pub outcome :
      Option (ℕ × A) → JoinResult A R Chan W S E → Box → Flow (Option (ℕ × A) × Box)
  outcome (some a) j c = ok (some a, c)
  outcome none j c = told j c

  announced : (x : Executor A R Chan W S) (c : Box) → announce tk wrap x c ≡ told (completed x) c
  announced x c =
      ap (λ r. r >>= delivered tk wrap) (send_async_lem tk laws (wrap (fine (dead tk wrap x))) c)
      ∙ push_through tk (λ r. r >>= delivered tk wrap) c _ _ _

  handed_over :
      (s : Option IntoFutureSender) (alive : Bool) (x : Executor A R Chan W S) (c : Box)
      → hand_over tk wrap s alive x c ≡ outcome (reached s alive x.actor) (completed x) c
  handed_over none alive x c = announced x c
  handed_over (some tx) true x c = refl
  handed_over (some tx) false x c = announced x c

  -- However a child ends, and whether or not somebody awaits it: the one who awaits it gets the
  -- actor and the supervisor hears nothing, or else the supervisor hears of it, exactly once, by a
  -- `DeadActor` or by the error; this waits while the supervisor's mailbox is full. If that mailbox
  -- is closed, the news is lost for an error, and a panic for a child that completed.
  pub supervise_lem :
      (alive : Bool) (j : JoinResult A R Chan W S E) (c : Box)
      → supervise tk wrap alive j c ≡ outcome (awaiter alive j) j c
  unfolding supervise
  supervise_lem alive (completed x) c = handed_over x.context.into_future_sender alive x c
  supervise_lem alive (join_cancelled e) c =
      ap (λ r. r >>= whatever tk wrap)
        (send_async_lem tk laws (wrap (failed (ChildError.cancelled e))) c)
      ∙ push_through tk (λ r. r >>= whatever tk wrap) c _ _ _
  supervise_lem alive (join_paniced e) c =
      ap (λ r. r >>= whatever tk wrap)
        (send_async_lem tk laws (wrap (failed (ChildError.panic e))) c)
      ∙ push_through tk (λ r. r >>= whatever tk wrap) c _ _ _

module _ {U Box V T : Type 0} (tk : Tokio (SendMessage U) Box V T) (laws : TokioLaws tk) where
  -- What an anonymous actor sends to its parent.
  abbrev pub verdict : Joined U → SendMessage U
  verdict (joined (some m)) = envelope (enclose m)
  verdict (joined none) = cancelled_envelope (confide cancel)
  verdict join_error = cancelled_envelope (confide AnonymousTaskCancelled.panic)

  abbrev pub delivers : SendMessage U → Box → Flow Box
  delivers b c = by_room tk c (ok c) (ok (tk.try_send b c).1) blocked

  pub noticed :
      (k : AnonymousTaskCancelled) (c : Box)
      → notice tk k c ≡ delivers (cancelled_envelope (confide k)) c
  unfolding internal_send_async
  noticed k c =
      ap (λ r. ignored tk (sent_later tk (λ b. internal_error tk (downcast_envelope b)) r))
        (try_send_lem tk laws (cancelled_envelope (confide k)) c)
      ∙ push_through tk
          (λ r. ignored tk (sent_later tk (λ b. internal_error tk (downcast_envelope b)) r)) c _ _ _

  reported : (j : Joined U) (c : Box) → report_anonymous tk j c ≡ delivers (verdict j) c
  unfolding report_anonymous
  reported (joined (some m)) c =
      ap (ignored tk) (send_async_lem tk laws m c) ∙ push_through tk (ignored tk) c _ _ _
  reported (joined none) c = noticed cancel c
  reported join_error c = noticed AnonymousTaskCancelled.panic c

  abbrev pub expected : Bool → Race U → SendMessage U
  expected false (finishes m) = envelope (enclose m)
  expected false panics = cancelled_envelope (confide AnonymousTaskCancelled.panic)
  expected _ _ = cancelled_envelope (confide cancel)

  told_of : (notified : Bool) (r : Race U) → verdict (handle notified r) ≡ expected notified r
  unfolding handle
  told_of false changed = refl
  told_of false (finishes m) = refl
  told_of false panics = refl
  told_of true changed = refl
  told_of true (finishes m) = refl
  told_of true panics = refl

  -- An anonymous actor reports exactly once, as soon as its parent's mailbox has room: with its
  -- result if it was not notified before it began and its future finished first, with `Panic` if
  -- its future panicked, and otherwise with `Cancel`. A closed mailbox swallows the report.
  pub report_anonymous_lem :
      (notified : Bool) (r : Race U) (c : Box)
      → report_anonymous tk (handle notified r) c ≡ delivers (expected notified r) c
  report_anonymous_lem notified r c =
      reported (handle notified r) c ∙ ap (λ b. delivers b c) (told_of notified r)

  -- An anonymous task reports exactly once, that it succeeded, also when it was cancelled or
  -- panicked.
  pub report_task_lem :
      (j : Joined (Unit {0})) (c : Box)
      → report_task tk j c ≡ delivers (cancelled_envelope (confide success)) c
  unfolding report_task
  report_task_lem j c = noticed success c

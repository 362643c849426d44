-- ===== src/Supervision/Delegation.antt =====
-- src/envelope.rs, `Response::send`: what becomes of a question that a handler delegates to a task.
use tokactor.Common.{
  ℕ, ◌≡◌, refl, ap, ◌∙◌, Bool, true, false, Option, none, some, Flow, ok, panicked, blocked, ◌>>=◌,
}
use tokactor.Tokio.{Tokio, TokioLaws}
use tokactor.Message.{SendMessage, cancelled_envelope, confide, success, cancel}
use tokactor.Supervision.{
  Race, changed, finishes, panics, joined, handle, notice, wound_up, delegate, report_task,
}
use tokactor.Supervision.Reports.{delivers, noticed, report_task_lem}

module _ {U Box V T : Type 0} (tk : Tokio (SendMessage U) Box V T) (laws : TokioLaws tk) where
  -- Two reports to one mailbox, one after the other.
  abbrev pub both : SendMessage U → SendMessage U → Box → Flow Box
  both a b c = delivers tk laws a c >>= delivers tk laws b

  abbrev pub settled : Box → Flow Box
  settled = delivers tk laws (cancelled_envelope (confide success))

  abbrev pub resolved : {R : Type 0} → Bool → ℕ → Race R → Box → Option (ℕ × R) × Flow Box
  resolved false tx (finishes r) c = (some (tx, r), settled c)
  resolved _ tx _ c =
      (none, both (cancelled_envelope (confide cancel)) (cancelled_envelope (confide success)) c)

  settled_lem : (c : Box) → report_task tk (joined (some tt)) c ≡ settled c
  settled_lem c = report_task_lem tk laws (joined (some tt)) c

  after : (r : Flow Box) → (r >>= report_task tk (joined (some tt))) ≡ (r >>= settled)
  after (ok d) = settled_lem d
  after panicked = refl
  after blocked = refl

  unanswered :
      {R : Type 0} (c : Box)
      → wound_up tk {R = R} (none, notice tk cancel c) ≡ (
        none,
        both (cancelled_envelope (confide cancel)) (cancelled_envelope (confide success)) c,
      )
  unanswered c =
      ap (λ r. (none, r))
        (ap (λ r. r >>= report_task tk (joined (some tt))) (noticed tk laws cancel c)
          ∙ after (delivers tk laws (cancelled_envelope (confide cancel)) c))

  finished_lem :
      {R : Type 0} (notified : Bool) (tx : ℕ) (r : Race R) (c : Box)
      → delegate tk false tx (handle notified r) c ≡ resolved notified tx r c
  unfolding delegate handle
  finished_lem false tx (finishes r) c = ap (λ d. (some (tx, r), d)) (settled_lem c)
  finished_lem false tx changed c = unanswered c
  finished_lem false tx panics c = unanswered c
  finished_lem true tx (finishes r) c = unanswered c
  finished_lem true tx changed c = unanswered c
  finished_lem true tx panics c = unanswered c

  -- A question that its handler delegates to a task is answered on its own channel, once, if the task
  -- finishes, and otherwise not at all; for the answer, the state of the actor's mailbox does not matter.
  -- Afterwards the task sends the actor a success, and before that a cancellation if there is no
  -- answer: each of them, if the mailbox is open, when there is room, and if it is closed, to no
  -- effect. If what waits for the task is interrupted itself, nothing is answered and only the success
  -- is sent.
  pub delegate_lem :
      {R : Type 0} (notified : Bool) (tx : ℕ) (r : Race R) (c : Box)
      → (delegate tk false tx (handle notified r) c ≡ resolved notified tx r c)
        × (delegate tk true tx (handle notified r) c ≡ (none, settled c))
  unfolding delegate
  delegate_lem notified tx r c = (finished_lem notified tx r c, ap (λ d. (none, d)) (settled_lem c))

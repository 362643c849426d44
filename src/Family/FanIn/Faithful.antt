-- ===== src/Family/FanIn/Faithful.antt =====
-- src/context.rs and src/executor.rs: an actor that never aborts keeps its mailbox open until its
-- children are gone, and so loses no report.
use tokactor.Common.{
  ℕ, ◌+◌, ◌≡◌, refl, ◌∙◌, subst, sym, Sublist, append-nil, false, true, List, [], ◌++◌, length, ok,
  >>=-eq-ok, inl, inr, Bool-cases,
}
use mathlib.Core.List.{Perm}
use tokactor.Tokio.{Tokio, TokioLaws}
use tokactor.Tokio.Recording.{Account, recording, recording_laws}
use tokactor.Message.{SendMessage, stopping}
use tokactor.Actor.{Actor, Command, abort}
use tokactor.Executor.{Executor, react}
use tokactor.Executor.Awaits.{Event, delivers, child_exits, ready, Turn, stay, leave, crash, hang}
use tokactor.Executor.Loops.{
  actor_turn, stopping_turn, with_mailbox, with_state, has_children, told, stopped_phase, run_actor,
  take_sender,
}
use tokactor.Executor.Turns.{To}
use tokactor.Executor.Calls.{Calls}
use tokactor.Executor.Throughout.{Rounds, Goes, actor_turn-P, stopping_turn-Goes}
use tokactor.Executor.Mailbox.Messages.{mailbox-Rounds, reacts-Holds}
use tokactor.Family.FanIn.{
  Phase, serving, awaiting, over, finish, begin_shutdown, after_turn, after_wait, advance, mailbox,
  Nursery, Step, acts, tells, fails, leaves, unwinds, comes_late, History, done, then_, first,
}
use tokactor.Family.FanIn.Heard.{History-hears}

-- Every method of the context but `abort`.
abbrev pub NotAbort : Command → Type 0
NotAbort abort = ⊥
NotAbort k = Unit

module _ {A U R Chan W S : Type 0} (tk : Tokio (SendMessage U) Chan W S) (act : Actor A U R)
    (laws : TokioLaws tk) (calls : Calls NotAbort act) where
  abbrev Open : Chan → Type 0
  Open c = tk.is_closed c ≡ false

  abbrev OpenAt : Executor A R Chan W S → Type 0
  OpenAt x = Open x.context.mailbox

  -- The mailbox of an actor that is not at its end is open.
  abbrev OpenYet : Phase A R Chan W S → Type 0
  OpenYet (serving x) = OpenAt x
  OpenYet (awaiting (n, x)) = OpenAt x
  OpenYet (over x) = Unit

  sends : (m : SendMessage U) (c : Chan) → Open c → Open (tk.try_send m c).1
  sends m c h = laws.is_closed-try_send m c ∙ h

  never : NotAbort abort → (c : Chan) → Open c → Open (tk.close c)
  never k c h = absurd k

  open_Rounds : Rounds tk act OpenAt
  open_Rounds =
      mailbox-Rounds tk act Open sends NotAbort never calls (λ c h. laws.is_closed-try_recv c ∙ h)

  finish-OpenYet :
      (x : Executor A R Chan W S) (q : Phase A R Chan W S) → finish tk act x ≡ ok q → OpenYet q
  finish-OpenYet x q h =
      let (y, ran, made) = >>=-eq-ok (stopped_phase tk act x) (λ y. ok (over y)) h in
      let same : over y ≡ q = cc made in subst OpenYet same tt

  begin-OpenYet :
      (x : Executor A R Chan W S) (q : Phase A R Chan W S)
      → OpenAt x
      → begin_shutdown tk act x ≡ ok q
      → OpenYet q
  unfolding begin_shutdown
  begin-OpenYet x q p h =
      let y = with_state tk act stopping x in
      let (z, ran, made) = >>=-eq-ok (react tk act (act.on_stopping y.actor) y) _ h in
      elim (Bool-cases (has_children tk act z)) [
        | inl some_left ↦
            let same : awaiting (0, told tk act z) ≡ q = cc (rw some_left at made) in
            subst OpenYet same (
              reacts-Holds tk act Open sends NotAbort never calls (act.on_stopping y.actor) y z
                (calls.on_stopping y.actor) p ran)
        | inr alone ↦
            finish-OpenYet (with_mailbox tk act (tk.close z.context.mailbox) z) q (rw alone at made)
      ]

  advance-OpenYet :
      (p q : Phase A R Chan W S) (e : Event U) → OpenYet p → advance tk act p e ≡ ok q → OpenYet q
  unfolding advance
  advance-OpenYet (serving x) q e p h =
      turned (actor_turn tk act x e) (actor_turn-P tk act OpenAt open_Rounds x e p) h
    where
      turned :
          (t : Turn (Executor A R Chan W S)) → To OpenAt t → after_turn tk act t ≡ ok q → OpenYet q
      turned (stay y) p h = let same : serving y ≡ q = cc h in subst OpenYet same p
      turned (leave y) p h = begin-OpenYet y q p h
      turned crash p h = cc h
      turned hang p h = cc h
  advance-OpenYet (awaiting (n, x)) q e p h =
      turned (stopping_turn tk act (n, x) e)
        (stopping_turn-Goes tk act OpenAt (λ y. Unit) open_Rounds (λ y r. tt) n x e p) h
    where
      turned :
          (t : Turn (ℕ × Executor A R Chan W S))
          → Goes tk act OpenAt (λ y. Unit {0}) open_Rounds (λ y r. tt) t
          → after_wait tk act t ≡ ok q
          → OpenYet q
      turned (stay r) p h = let same : awaiting r ≡ q = cc h in subst OpenYet same p
      turned (leave (m, y)) p h = finish-OpenYet y q h
      turned crash p h = cc h
      turned hang p h = cc h
  advance-OpenYet (over x) q e p h = cc h

  -- Before its end, an actor's mailbox is not found closed.
  not_shut :
      (p q : Phase A R Chan W S) (e : Event U)
      → OpenYet p
      → advance tk act p e ≡ ok q
      → tk.is_closed (mailbox tk act p) ≡ true
      → ⊥
  unfolding advance
  not_shut (serving x) q e p h shut = cc (sym p ∙ shut)
  not_shut (awaiting (n, x)) q e p h shut = cc (sym p ∙ shut)
  not_shut (over x) q e p h shut = cc h

  abbrev Faithful : Nursery A U R Chan W S → Type 0
  Faithful f = OpenYet f.phase × (f.lost ≡ [])

  Step-Faithful :
      {f g : Nursery A U R Chan W S} {e : Event U} → Step tk act f e g → Faithful f → Faithful g
  Step-Faithful {f} (acts e q ms k own went grown rears) (p, none_lost) =
      (advance-OpenYet f.phase q e p went, none_lost)
  Step-Faithful {f} (tells before after m q e open_ room went) (p, none_lost) =
      (advance-OpenYet f.phase q (delivers m) p went, none_lost)
  Step-Faithful {f} (fails before after m q e shut went) (p, none_lost) =
      absurd (not_shut f.phase q child_exits p went shut)
  Step-Faithful {f} (leaves k q e went) (p, none_lost) =
      (advance-OpenYet f.phase q child_exits p went, none_lost)
  Step-Faithful {f} (unwinds m k q e went) (p, none_lost) =
      (advance-OpenYet f.phase q child_exits p went, none_lost)
  Step-Faithful {f} (comes_late before after m q e open_ room went) (p, none_lost) =
      (advance-OpenYet f.phase q (delivers m) p went, none_lost)

  pub History-Faithful :
      {f g : Nursery A U R Chan W S} {es : List (Event U)}
      → History tk act f es g
      → Faithful f
      → Faithful g
  History-Faithful done p = p
  History-Faithful (then_ s h) p = History-Faithful h (Step-Faithful s p)

module _ {A U R Chan W S : Type 0} (tk : Tokio (SendMessage U) Chan W S) (act : Actor A U R)
    (laws : TokioLaws tk) where
  -- An actor that never aborts starts its loop with its mailbox open and with tasks that it has
  -- started already, and goes along with its children in any interleaving of their ends, of other
  -- senders and of its own messages. If it comes to its end, then `run_actor` returns there, and by
  -- then it has taken out of its mailbox, once each and in the order in which they were sent, the
  -- reports of all the children it ever started that complete and are not handed to somebody else who
  -- awaits them. (Children that panic or are cancelled let go of their receivers before they report, and
  -- their reports are not among these.)
  pub History-hears_all :
      (x₀ x y : Executor A R (Account tk) W S) (ms : List (SendMessage U)) (k : ℕ)
      (es : List (Event U)) (f : Nursery A U R (Account tk) W S)
      → Calls NotAbort act
      → react (recording tk laws) act (act.on_start x₀.actor) x₀ ≡ ok x
      → (recording tk laws).is_closed x.context.mailbox ≡ false
      → (recording tk laws).receivers x.context.notifier ≡ length ms + k
      → History (recording tk laws) act (first (recording tk laws) act x ms k) es f
      → f.phase ≡ over y
      → (run_actor (recording tk laws) act x₀ es ≡ ready (take_sender (recording tk laws) act y) [])
        × Sublist f.heard y.context.mailbox.taken
        × Perm f.born f.heard
  History-hears_all x₀ x y ms k es f calls began open_ c path e =
      let (ran, heard_, all) = History-hears tk act laws x₀ x y ms k es f began c path e in
      let none_lost : f.lost ≡ [] =
        (History-Faithful (recording tk laws) act (recording_laws tk laws) calls path
          (open_, refl)).1 in
      (
        ran,
        heard_,
        subst (Perm f.born) (append-nil f.heard)
            (subst (λ l. Perm f.born (f.heard ++ l)) none_lost all),
      )

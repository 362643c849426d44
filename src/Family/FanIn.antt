-- ===== src/Family/FanIn.antt =====
-- src/context.rs and src/executor.rs: an actor together with its children, from the moment at which
-- its loop starts to its end. The actor goes through the phases of `run_actor`; beside it, the task
-- around each child reports to the actor's mailbox and then lets go of its receiver, as `spawn_with`
-- has it, in any order.
pub mod Parent
pub mod Watching
pub mod Phases
pub mod Perms
pub mod Tending
pub mod Heard
pub mod Panics
pub mod Faithful
use tokactor.Common.{
  ℕ, suc, ◌+◌, ◌≡◌, Bool, true, false, List, [], ◌∷◌, ◌++◌, length, Flow, ok, panicked, blocked,
  ◌>>=◌, if◌then◌else◌,
}
use tokactor.Tokio.{Tokio}
use tokactor.Tokio.Room.{has_room}
use tokactor.Message.{SendMessage, stopping}
use tokactor.Actor.{Actor}
use tokactor.Executor.{Executor, react}
use tokactor.Executor.Awaits.{
  Event, delivers, child_exits, permit_returns, wakes, sleeps, notified, supervisor_dropped, Turn,
  stay, leave, crash, hang,
}
use tokactor.Executor.Loops.{
  actor_turn, stopping_turn, with_mailbox, with_state, has_children, told, stopped_phase,
}

-- Where the actor is: in the loop of `run_actor`, in that of `stopping`, or at its end.
pub data Phase (A R Chan W S : Type 0) : Type 0 where
  serving : Executor A R Chan W S → Phase A R Chan W S
  awaiting : ℕ × Executor A R Chan W S → Phase A R Chan W S
  over : Executor A R Chan W S → Phase A R Chan W S

abbrev pub parent : {A R Chan W S : Type 0} → Phase A R Chan W S → Executor A R Chan W S
parent (serving x) = x
parent (awaiting (n, x)) = x
parent (over x) = x

pub record Nursery (A U R Chan W S : Type 0) : Type 0 where
  pub phase : Phase A R Chan W S
  -- the reports of the children whose tasks have them still to send, and hold their receiver until then
  pub unsaid : List (SendMessage U)
  -- the tasks that hold a receiver and have nothing to say while they do: no children, children that go to
  -- who awaits them, children that panic or are cancelled, whose receiver goes before their report, and
  -- those that have said it
  pub silent : ℕ
  -- the reports, still to send, of children that panicked or were cancelled; nobody waits for them, and a
  -- mailbox that is closed does not take them any more
  pub late : List (SendMessage U)
  -- of the children that do not panic and that nobody else awaits: the reports of all that were started,
  -- those that were sent, and those for which the mailbox was closed before the children had ended,
  -- oldest first
  pub born : List (SendMessage U)
  pub heard : List (SendMessage U)
  pub lost : List (SendMessage U)

-- What does not let go of a receiver of the actor's.
abbrev pub is_own : {U : Type 0} → Event U → Bool
is_own child_exits = false
is_own _ = true

-- A child is started by an actor that runs, so not on the way to the actor's end.
abbrev pub Rears : {A R Chan W S M : Type 0} → List M → Phase A R Chan W S → Type 0
Rears ms (serving x) = Unit
Rears ms (awaiting p) = Unit
Rears ms (over x) = ms ≡ []

module _ {A U R Chan W S : Type 0} (tk : Tokio (SendMessage U) Chan W S) (act : Actor A U R) where
  abbrev pub finish : Executor A R Chan W S → Flow (Phase A R Chan W S)
  finish w = stopped_phase tk act w >>= λ y. ok (over y)

  -- `stopping` up to its first await
  abbrev pub linger : Executor A R Chan W S → Flow (Phase A R Chan W S)
  linger z =
      if has_children tk act z
      then ok (awaiting (0, told tk act z))
      else finish (with_mailbox tk act (tk.close z.context.mailbox) z)

  -- `shutdown` up to its first await
  unfoldable pub begin_shutdown : Executor A R Chan W S → Flow (Phase A R Chan W S)
  begin_shutdown x =
      let y = with_state tk act stopping x in react tk act (act.on_stopping y.actor) y >>= linger

  abbrev pub after_turn : Turn (Executor A R Chan W S) → Flow (Phase A R Chan W S)
  after_turn (stay x) = ok (serving x)
  after_turn (leave x) = begin_shutdown x
  after_turn crash = panicked
  after_turn hang = blocked

  abbrev pub after_wait : Turn (ℕ × Executor A R Chan W S) → Flow (Phase A R Chan W S)
  after_wait (stay p) = ok (awaiting p)
  after_wait (leave (n, x)) = finish x
  after_wait crash = panicked
  after_wait hang = blocked

  -- What an event leads the actor to; at its end, nothing more comes.
  unfoldable pub advance : Phase A R Chan W S → Event U → Flow (Phase A R Chan W S)
  advance (serving x) e = after_turn (actor_turn tk act x e)
  advance (awaiting p) e = after_wait (stopping_turn tk act p e)
  advance (over x) e = blocked

  abbrev pub watchers : Phase A R Chan W S → ℕ
  watchers q = tk.receivers (parent q).context.notifier

  abbrev pub mailbox : Phase A R Chan W S → Chan
  mailbox q = (parent q).context.mailbox

  abbrev pub said : SendMessage U → Nursery A U R Chan W S → Nursery A U R Chan W S
  said m f = record f { silent = suc f.silent; heard = f.heard ++ m ∷ [] }

  -- What can happen: something that is no child's doing, by which the actor may start tasks, with children of these
  -- reports among them; the task of a child sends its report, if the mailbox is
  -- open and has room; it finds the mailbox closed and panics; it ends; a child that panics lets go of its receiver while it
  -- unwinds; or the task around it sends the report of that.
  pub data Step (f : Nursery A U R Chan W S) : Event U → Nursery A U R Chan W S → Type 0 where
    acts :
        (e : Event U) (q : Phase A R Chan W S) (ms : List (SendMessage U)) (k : ℕ)
        → is_own e ≡ true
        → advance f.phase e ≡ ok q
        → watchers q ≡ watchers f.phase + (length ms + k)
        → Rears ms q
        → Step f e (record f {
          phase = q;
          unsaid = f.unsaid ++ ms;
          silent = f.silent + k;
          born = f.born ++ ms;
        })
    tells :
        (before after : List (SendMessage U)) (m : SendMessage U) (q : Phase A R Chan W S)
        → f.unsaid ≡ before ++ m ∷ after
        → tk.is_closed (mailbox f.phase) ≡ false
        → has_room tk (mailbox f.phase) ≡ true
        → advance f.phase (delivers m) ≡ ok q
        → Step f (delivers m) (record (said m f) { phase = q; unsaid = before ++ after })
    fails :
        (before after : List (SendMessage U)) (m : SendMessage U) (q : Phase A R Chan W S)
        → f.unsaid ≡ before ++ m ∷ after
        → tk.is_closed (mailbox f.phase) ≡ true
        → advance f.phase child_exits ≡ ok q
        → Step f child_exits
            (record f { phase = q; unsaid = before ++ after; lost = f.lost ++ m ∷ [] })
    leaves :
        (k : ℕ) (q : Phase A R Chan W S)
        → f.silent ≡ suc k
        → advance f.phase child_exits ≡ ok q
        → Step f child_exits (record f { phase = q; silent = k })
    unwinds :
        (m : SendMessage U) (k : ℕ) (q : Phase A R Chan W S)
        → f.silent ≡ suc k
        → advance f.phase child_exits ≡ ok q
        → Step f child_exits (record f { phase = q; silent = k; late = f.late ++ m ∷ [] })
    comes_late :
        (before after : List (SendMessage U)) (m : SendMessage U) (q : Phase A R Chan W S)
        → f.late ≡ before ++ m ∷ after
        → tk.is_closed (mailbox f.phase) ≡ false
        → has_room tk (mailbox f.phase) ≡ true
        → advance f.phase (delivers m) ≡ ok q
        → Step f (delivers m) (record f { phase = q; late = before ++ after })

  pub data History : Nursery A U R Chan W S → List (Event U) → Nursery A U R Chan W S → Type 0 where
    done : {f : Nursery A U R Chan W S} → History f [] f
    then_ :
        {f g h : Nursery A U R Chan W S} {e : Event U} {es : List (Event U)}
        → Step f e g
        → History g es h
        → History f (e ∷ es) h

  -- The loop starts; what `on_start` has started already, children of these reports among it.
  abbrev pub first : Executor A R Chan W S → List (SendMessage U) → ℕ → Nursery A U R Chan W S
  first x ms k = record {
    phase = serving x;
    unsaid = ms;
    silent = k;
    late = [];
    born = ms;
    heard = [];
    lost = [];
  }

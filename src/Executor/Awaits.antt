-- ===== src/Executor/Awaits.antt =====
-- src/executor.rs: what happens at an await of an actor. A schedule is the list of what the
-- surroundings do and of the moments at which the actor is polled; a loop that has used up its
-- schedule is pending.
use tokactor.Common.{
  Bool, true, false, Option, none, some, List, [], ◌∷◌, Flow, ok, panicked, blocked,
}
use tokactor.Tokio.{SupervisorMessage}
use tokactor.Message.{SendMessage}

pub data Event (U : Type 0) : Type 0 where
  -- another task sends to the mailbox
  delivers : SendMessage U → Event U
  -- a task that watches this actor's notifier ends
  child_exits : Event U
  -- an anonymous actor gives its permit back
  permit_returns : Event U
  -- the mailbox is polled, and its arm is the one that `select!` takes if it is ready
  wakes : Event U
  -- the timer of one second runs out
  sleeps : Event U
  -- the supervisor's notifier changed to a value, or is gone
  notified : Option SupervisorMessage → Event U
  supervisor_dropped : Event U

pub data Turn (X : Type 0) : Type 0 where
  stay : X → Turn X
  leave : X → Turn X
  crash : Turn X
  hang : Turn X

pub data Outcome (U X : Type 0) : Type 0 where
  ready : X → List (Event U) → Outcome U X
  pending : Outcome U X
  panics : Outcome U X
  hangs : Outcome U X

-- A loop over `.await`: the turns follow the schedule, until one leaves.
unfoldable pub drive : {U X : Type 0} → (X → Event U → Turn X) → X → List (Event U) → Outcome U X
drive turn x [] = pending
drive turn x (e ∷ es) = elim (turn x e) [
  | stay y ↦ drive turn y es
  | leave y ↦ ready y es
  | crash ↦ panics
  | hang ↦ hangs
]

abbrev pub lift : {U X : Type 0} → Flow X → List (Event U) → Outcome U X
lift (ok x) es = ready x es
lift panicked es = panics
lift blocked es = hangs

abbrev pub and_then :
    {U X Y : Type 0} → Outcome U X → (X → List (Event U) → Outcome U Y) → Outcome U Y
and_then (ready x es) f = f x es
and_then pending f = pending
and_then panics f = panics
and_then hangs f = hangs

-- `mailbox.recv()`: a message, the end of a closed channel, or neither yet.
pub data Polled (U Chan : Type 0) : Type 0 where
  got : SendMessage U → Chan → Polled U Chan
  ended : Polled U Chan
  waits : Polled U Chan

abbrev pub polled : {U Chan : Type 0} → Option (SendMessage U) × Chan → Bool → Polled U Chan
polled (some m, c) closed = got m c
polled (none, c) true = ended
polled (none, c) false = waits

-- ===== src/Executor/Inbox.antt =====
-- What an actor promises those who send to it, by itself: a bounded queue, from whose front the
-- actor takes a message at each turn.
use tokactor.Common.{ℕ, List, [], ◌∷◌, ◌++◌, length, if◌then◌else◌, ltb}

pub record Inbox (A U : Type 0) : Type 0 where
  pub waiting : List U
  pub actor : A

pub data Call (U : Type 0) : Type 0 where
  sends : U → Call U
  turns : Call U

module _ {A U : Type 0} (cap : ℕ) (f : U → A → A) where
  -- A message that finds the queue full is lost to the actor.
  unfoldable pub send : U → Inbox A U → Inbox A U
  send u b = if ltb (length b.waiting) cap then record b { waiting = b.waiting ++ u ∷ [] } else b

  abbrev pub handle_next : List U → A → Inbox A U
  handle_next [] a = record { waiting = []; actor = a }
  handle_next (u ∷ us) a = record { waiting = us; actor = f u a }

  unfoldable pub serve : List (Call U) → Inbox A U → Inbox A U
  serve [] b = b
  serve (sends u ∷ cs) b = serve cs (send u b)
  serve (turns ∷ cs) b = serve cs (handle_next b.waiting b.actor)

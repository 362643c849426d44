-- ===== src/Executor/Replay.antt =====
-- src/actor.rs, against which src/executor.rs is held: an actor as a state machine that takes one message
-- after another, with no mailbox, no context and no other task.
pub mod Messages
pub mod Runs
pub mod Supervised
use tokactor.Common.{
  ℕ, Bool, true, false, Option, none, some, List, [], ◌∷◌, ◌++◌, ◌≡◌, refl, if◌then◌else◌,
}
use tokactor.Message.{
  SendMessage, envelope, response, async_response, shutdown_envelope, cancelled_envelope,
}
use tokactor.Actor.{Actor, Command, AskResult, Raced}
use tokactor.Executor.{is_awaited}

-- The actor that a callback, a handler or a future leaves.
abbrev pub moved : {A : Type 0} → Option (A × List Command) → A → A
moved none a = a
moved (some (b, ks)) a = b

module _ {A R : Type 0} where
  abbrev pub moved_asked : Option (A × List Command × AskResult R) → A → A
  moved_asked none a = a
  moved_asked (some (b, ks, r)) a = b

  abbrev pub moved_raced : Option (A × Raced R) → A → A
  moved_raced none a = a
  moved_raced (some (b, r)) a = b

module _ {A U R : Type 0} (act : Actor A U R) where
  abbrev on_envelope : Option U → A → A
  on_envelope none a = a
  on_envelope (some u) a = moved (act.handle u a) a

  abbrev on_response : Option U → A → A
  on_response none a = a
  on_response (some u) a = moved_asked (act.ask u a) a

  -- The future of an async handler changes the actor as well, if it is run.
  abbrev on_async : Option U → A → A
  on_async none a = a
  on_async (some u) a =
      let b = moved (act.async_ask u a) a in
      if is_awaited act.async_ask_scheduler then moved_raced (act.async_future u b) b else b

  abbrev pub handled : SendMessage U → A → A
  handled (envelope e) a = on_envelope e.msg a
  handled (response e) a = on_response e.msg.msg a
  handled (async_response e) a = on_async e.msg.msg a
  handled (shutdown_envelope e) a = a
  handled (cancelled_envelope e) a = a

  -- One message: `pre_run`, the handler, `post_run`.
  unfoldable pub replay_one : SendMessage U → A → A
  replay_one m a = let b = handled m (moved (act.pre_run a) a) in moved (act.post_run b) b

  unfoldable pub replay : List (SendMessage U) → A → A
  replay [] a = a
  replay (m ∷ ms) a = replay ms (replay_one m a)

  pub replay-append_last :
      (ms : List (SendMessage U)) (m : SendMessage U) (a : A)
      → replay (ms ++ m ∷ []) a ≡ replay_one m (replay ms a)
  unfolding replay
  replay-append_last [] m a = refl
  replay-append_last (n ∷ ms) m a = replay-append_last ms m (replay_one n a)

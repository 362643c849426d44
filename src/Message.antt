-- ===== src/Message.antt =====
-- src/message.rs, src/envelope.rs and the enums of src/actor.rs and src/context.rs: what travels
-- through a mailbox. A oneshot sender is the number of its channel; the messages of all types that
-- an actor handles are one type `U`, so that `Box<dyn SendMessage<A>>` is the sum of the envelopes.
use tokactor.Common.{ℕ, Bool, Option, none, some, Flow, ok, panicked}

pub data Scheduler : Type 0 where
  blocking non_blocking : Scheduler

pub data ActorState : Type 0 where
  running stopping stopped : ActorState

pub data AnonymousTaskCancelled : Type 0 where
  success cancel panic : AnonymousTaskCancelled

pub data ChildError (E : Type 0) : Type 0 where
  panic : E → ChildError E
  cancelled : E → ChildError E

pub record IntoFutureShutdown : Type 0 where
  pub stop_now : Bool
  pub tx : ℕ

pub data IntoFutureSender : Type 0 where
  now : ℕ → IntoFutureSender
  upon_completion : ℕ → IntoFutureSender

unfoldable pub into_inner : IntoFutureSender → ℕ
into_inner (now inner) = inner
into_inner (upon_completion inner) = inner

-- `Option::take().unwrap()`: what was there, and nothing is left; a panic the second time.
pub record ConfidentialEnvelope (M : Type 0) : Type 0 where
  pub msg : Option M

pub record Envelope (M : Type 0) : Type 0 where
  pub msg : Option M

module _ {M : Type 0} where
  abbrev pub take : Option M → Flow M
  take none = panicked
  take (some m) = ok m

  abbrev pub confide : M → ConfidentialEnvelope M
  confide m = record { msg = some m }

  abbrev pub reveal : ConfidentialEnvelope M → Flow M × ConfidentialEnvelope M
  reveal e = (take e.msg, record { msg = none })

  abbrev pub enclose : M → Envelope M
  enclose m = record { msg = some m }

  abbrev pub unwrap : Envelope M → Flow M × Envelope M
  unwrap e = (take e.msg, record { msg = none })

pub record Response (M : Type 0) : Type 0 where
  pub msg : Envelope M
  pub tx : Option ℕ

pub record AsyncResponse (M : Type 0) : Type 0 where
  pub msg : Envelope M
  pub tx : Option ℕ

pub data SendMessage (U : Type 0) : Type 0 where
  envelope : Envelope U → SendMessage U
  response : Response U → SendMessage U
  async_response : AsyncResponse U → SendMessage U
  shutdown_envelope : ConfidentialEnvelope IntoFutureShutdown → SendMessage U
  cancelled_envelope : ConfidentialEnvelope AnonymousTaskCancelled → SendMessage U

-- `as_any().downcast_mut::<Envelope<M>>()`: each `as_any` returns the box's own type.
abbrev pub downcast_envelope : {U : Type 0} → SendMessage U → Option (Envelope U)
downcast_envelope (envelope e) = some e
downcast_envelope _ = none

-- ===== src/Address.antt =====
-- src/address.rs: what an address does with a message. An address is the sending side of the
-- actor's mailbox, so its functions take the mailbox and return it. The number of a oneshot channel
-- and what its receiver comes to (`none` when the sender was dropped) are arguments.
pub mod Results
use tokactor.Common.{
  ℕ, Bool, true, false, Option, none, some, Flow, ok, panicked, blocked, ◌>>=◌, if◌then◌else◌,
}
use tokactor.Tokio.{Tokio, TrySend, sent}
use tokactor.Message.{
  SendMessage, envelope, response, async_response, shutdown_envelope, cancelled_envelope, enclose,
  confide, unwrap, downcast_envelope, Envelope, IntoFutureShutdown, AnonymousTaskCancelled,
}

pub data SendError (M : Type 0) : Type 0 where
  lost : SendError M
  closed : M → SendError M
  full : M → SendError M

pub data AskError (M : Type 0) : Type 0 where
  closed : M → AskError M
  dropped : AskError M

pub data IntoFutureError : Type 0 where
  mailbox_closed paniced : IntoFutureError

-- `Result<A, E>`
pub data Reply (A E : Type 0) : Type 0 where
  fine : A → Reply A E
  failed : E → Reply A E

module _ {M : Type 0} where
  -- `SendError::into_inner`
  unfoldable pub into_inner : SendError M → Flow M
  into_inner lost = panicked
  into_inner (SendError.closed m) = ok m
  into_inner (SendError.full m) = ok m

-- `as_any().downcast_mut::<Envelope<M>>().unwrap().unwrap()` of a message that came back.
module _ {U : Type 0} where
  abbrev opened : Option (Envelope U) → Flow U
  opened none = panicked
  opened (some e) = (unwrap e).0

  unfoldable pub recover : SendMessage U → Flow U
  recover b = opened (downcast_envelope b)

abbrev pub ask_message : {U : Type 0} → U → ℕ → SendMessage U
ask_message m tx = response (record { msg = enclose m; tx = some tx })

abbrev pub async_message : {U : Type 0} → U → ℕ → SendMessage U
async_message m tx = async_response (record { msg = enclose m; tx = some tx })

abbrev pub shutdown_message : {U : Type 0} → Bool → ℕ → SendMessage U
shutdown_message stop_now tx = shutdown_envelope (confide (record { stop_now = stop_now; tx = tx }))

module _ {U Chan W S : Type 0} (tk : Tokio (SendMessage U) Chan W S) where
  -- `ActorRef::try_send`
  unfoldable pub try_send : U → Chan → Chan
  try_send m c = (tk.try_send (envelope (enclose m)) c).1

  abbrev pub sent_now :
      TrySend (SendMessage U) × Chan → Flow (Reply (Unit {0}) (SendError U) × Chan)
  sent_now (sent, c) = ok (fine tt, c)
  sent_now (TrySend.full b, c) = recover b >>= λ m. ok (failed (SendError.full m), c)
  sent_now (TrySend.closed b, c) = recover b >>= λ m. ok (failed (SendError.closed m), c)

  -- `ActorRef::send`
  unfoldable pub send : U → Chan → Flow (Reply (Unit {0}) (SendError U) × Chan)
  unfolding recover
  send m c = sent_now (tk.try_send (envelope (enclose m)) c)

  -- `Sender::send(..).await`, which waits while the channel is full.
  abbrev pub sent_later :
      {E : Type 0}
      → (SendMessage U → Flow E)
      → TrySend (SendMessage U) × Chan
      → Flow (Reply (Unit {0}) E × Chan)
  sent_later f (sent, c) = ok (fine tt, c)
  sent_later f (TrySend.full b, c) = blocked
  sent_later f (TrySend.closed b, c) = f b >>= λ e. ok (failed e, c)

  -- `ActorRef::send_async`
  unfoldable pub send_async : U → Chan → Flow (Reply (Unit {0}) (SendError U) × Chan)
  unfolding recover
  send_async m c =
      sent_later (λ b. recover b >>= λ m'. ok (SendError.closed m'))
        (tk.try_send (envelope (enclose m)) c)

  abbrev pub internal_error : Option (Envelope U) → Flow (SendError U)
  internal_error (some e) = (unwrap e).0 >>= λ m. ok (SendError.closed m)
  internal_error none = ok lost

  -- `ActorRef::internal_send_async`, of a message in a `ConfidentialEnvelope`
  unfoldable pub internal_send_async :
      SendMessage U → Chan → Flow (Reply (Unit {0}) (SendError U) × Chan)
  internal_send_async b c =
      sent_later (λ b'. internal_error (downcast_envelope b')) (tk.try_send b c)

  abbrev pub ask_error : SendMessage U → Flow (AskError U)
  ask_error b = recover b >>= λ m. ok (AskError.closed m)

  module _ {R : Type 0} where
    abbrev pub answered : Option R → Reply R (AskError U)
    answered none = failed dropped
    answered (some r) = fine r

    abbrev pub asked : Option R → Reply (Unit {0}) (AskError U) × Chan → Reply R (AskError U) × Chan
    asked o (fine _, c) = (answered o, c)
    asked o (failed e, c) = (failed e, c)

    -- `ActorRef::ask` and `ActorRef::async_ask` differ in the envelope.
    abbrev pub ask_outcome :
        Option R → TrySend (SendMessage U) × Chan → Flow (Reply R (AskError U) × Chan)
    ask_outcome o r = sent_later ask_error r >>= λ p. ok (asked o p)

    abbrev pub try_asked : Option R → TrySend (SendMessage U) × Chan → Option R × Chan
    try_asked o (sent, c) = (o, c)
    try_asked o (_, c) = (none, c)

    unfoldable pub ask : U → ℕ → Option R → Chan → Flow (Reply R (AskError U) × Chan)
    unfolding recover
    ask m tx o c = ask_outcome o (tk.try_send (ask_message m tx) c)

    unfoldable pub async_ask : U → ℕ → Option R → Chan → Flow (Reply R (AskError U) × Chan)
    unfolding recover
    async_ask m tx o c = ask_outcome o (tk.try_send (async_message m tx) c)

    unfoldable pub try_ask : U → ℕ → Option R → Chan → Option R × Chan
    try_ask m tx o c = try_asked o (tk.try_send (ask_message m tx) c)

    unfoldable pub try_async_ask : U → ℕ → Option R → Chan → Option R × Chan
    try_async_ask m tx o c = try_asked o (tk.try_send (async_message m tx) c)

  module _ {A : Type 0} where
    abbrev pub completed : Option A → Reply A IntoFutureError
    completed none = failed paniced
    completed (some a) = fine a

    abbrev pub awaited :
        Option A → Reply (Unit {0}) (SendError U) × Chan → Reply A IntoFutureError × Chan
    awaited o (fine _, c) = (completed o, c)
    awaited o (failed _, c) = (failed mailbox_closed, c)

    -- `ActorRef::wait_for_completion`
    unfoldable pub wait_for_completion : ℕ → Option A → Chan → Flow (Reply A IntoFutureError × Chan)
    unfolding internal_send_async
    wait_for_completion tx o c =
        internal_send_async (shutdown_message false tx) c >>= λ p. ok (awaited o p)

    -- `IntoFuture for ActorRef`: awaiting an address
    unfoldable pub into_future : ℕ → Option A → Chan → Flow (Reply A IntoFutureError × Chan)
    unfolding internal_send_async
    into_future tx o c =
        if tk.is_closed c
        then ok (failed mailbox_closed, c)
        else (internal_send_async (shutdown_message true tx) c >>= λ p. ok (awaited o p))

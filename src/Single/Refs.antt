-- ===== src/Single/Refs.antt =====
-- src/single/address.rs: the typed addresses. Each function takes the channel of the address and
-- returns it. `o` is what the receiver of the oneshot channel comes to: `none` if its sender was
-- dropped, and otherwise the result that the task behind the address sent.
use tokactor.Common.{
  ℕ, ◌≡◌, refl, ap, ◌∙◌, Bool, false, Option, none, some, Flow, ok, blocked, if◌then◌else◌,
}
use tokactor.Tokio.{Tokio, TokioLaws, TrySend, sent}
use tokactor.Tokio.Room.{by_room, try_send_lem, push_through}
use tokactor.Address.{SendError, AskError, dropped, Reply, fine, failed}

-- `ActorSendRef` sends a message by itself.
module _ {M Q W S : Type 0} (tk : Tokio M Q W S) where
  abbrev now : TrySend M × Q → Reply (Unit {0}) (SendError M) × Q
  now (sent, q) = (fine tt, q)
  now (TrySend.full m, q) = (failed (SendError.full m), q)
  now (TrySend.closed m, q) = (failed (SendError.closed m), q)

  -- `ActorSendRef::try_send`
  unfoldable pub try_send : M → Q → Reply (Unit {0}) (SendError M) × Q
  try_send m q = now (tk.try_send m q)

  -- `expired` says whether the time is over while the channel is still full.
  abbrev within : Bool → TrySend M × Q → Flow (Reply (Unit {0}) (SendError M) × Q)
  within expired (sent, q) = ok (fine tt, q)
  within expired (TrySend.full m, q) =
      if expired then ok (failed (SendError.full m), q) else blocked
  within expired (TrySend.closed m, q) = ok (failed (SendError.closed m), q)

  -- `ActorSendRef::send`
  unfoldable pub send : M → Q → Flow (Reply (Unit {0}) (SendError M) × Q)
  send m q = within false (tk.try_send m q)

  -- `ActorSendRef::send_timeout`
  unfoldable pub send_timeout : Bool → M → Q → Flow (Reply (Unit {0}) (SendError M) × Q)
  send_timeout expired m q = within expired (tk.try_send m q)

-- `ActorAskRef` and `ActorAsyncAskRef` send a message with a oneshot channel.
module _ {M R Q W S : Type 0} (tk : Tokio (M × ℕ) Q W S) where
  abbrev replied : Option (Reply R (AskError M)) → Reply R (AskError M)
  replied none = failed dropped
  replied (some (fine response)) = fine response
  replied (some (failed e)) = failed e

  abbrev asking :
      Option (Reply R (AskError M)) → TrySend (M × ℕ) × Q → Flow (Reply R (AskError M) × Q)
  asking o (sent, q) = ok (replied o, q)
  asking o (TrySend.full p, q) = blocked
  asking o (TrySend.closed (m, tx), q) = ok (failed (AskError.closed m), q)

  unfoldable pub ask : M → ℕ → Option (Reply R (AskError M)) → Q → Flow (Reply R (AskError M) × Q)
  ask m tx o q = asking o (tk.try_send (m, tx) q)

  unfoldable pub ask_async :
      M → ℕ → Option (Reply R (AskError M)) → Q → Flow (Reply R (AskError M) × Q)
  ask_async m tx o q = asking o (tk.try_send (m, tx) q)

module _ {M Q W S : Type 0} (tk : Tokio M Q W S) (laws : TokioLaws tk) where
  -- `send_timeout` returns at once from a closed channel, with the message, and from one with room.
  -- While the channel is full it waits, and once the time is over it gives the message back as
  -- `Full`. `send` is the same with no end to the time.
  pub send_timeout_lem :
      (m : M) (q : Q) (expired : Bool)
      → (send_timeout tk expired m q
          ≡ by_room tk q
              (ok (failed (SendError.closed m), q))
              (ok (fine tt, (tk.try_send m q).1))
              (if expired then ok (failed (SendError.full m), q) else blocked))
        × (send tk m q ≡ send_timeout tk false m q)
  unfolding send_timeout send
  send_timeout_lem m q expired = (
    ap (within tk expired) (try_send_lem tk laws m q) ∙ push_through tk (within tk expired) q _ _ _,
    refl,
  )

module _ {M R Q W S : Type 0} (tk : Tokio (M × ℕ) Q W S) (laws : TokioLaws tk) where
  -- A typed question gives the message back when the channel is closed, waits while it is full, and
  -- otherwise comes to what the task behind the address answers, or to `Dropped` if it never does.
  pub typed_ask_lem :
      (m : M) (tx : ℕ) (o : Option (Reply R (AskError M))) (q : Q)
      → (ask tk m tx o q
          ≡ by_room tk q
              (ok (failed (AskError.closed m), q))
              (ok (replied tk o, (tk.try_send (m, tx) q).1))
              blocked)
        × (ask_async tk m tx o q ≡ ask tk m tx o q)
  unfolding ask ask_async
  typed_ask_lem m tx o q = (
    ap (asking tk o) (try_send_lem tk laws (m, tx) q) ∙ push_through tk (asking tk o) q _ _ _,
    refl,
  )

-- ===== src/World/Connection.antt =====
-- src/world/mod.rs, `on_input`: the task of one connection, which asks the connection's actor for
-- every payload that it reads. What it reads, what the actor does with its mailbox meanwhile and what
-- an ask comes to is a schedule.
pub mod Asking
pub mod Ending
pub mod Session
pub mod Streamed
pub mod Accepted
use tokactor.Common.{
  ℕ, Bool, true, false, Option, none, some, List, [], ◌∷◌, ◌++◌, Flow, ok, panicked, blocked, ◌>>=◌,
  if◌then◌else◌,
}
use tokactor.Tokio.{Tokio}
use tokactor.Message.{SendMessage}
use tokactor.Address.{Reply, fine, failed, AskError, async_ask, into_future, IntoFutureError}

pub data ConnectionEvent (U R E : Type 0) : Type 0 where
  -- `reader.read().await`; of the ask that follows: its oneshot channel, and what that comes to
  reads : Reply (Option U) E → ℕ → Option R → ConnectionEvent U R E
  -- the actor of the connection takes a message, or ends
  takes : ConnectionEvent U R E
  exits : ConnectionEvent U R E

pub record Connection (U Chan : Type 0) : Type 0 where
  pub mailbox : Chan
  -- the payloads that the actor was asked for, oldest first
  pub asked : List U
  -- whether the loop goes on
  pub reading : Bool

module _ {U Chan W S : Type 0} (tk : Tokio (SendMessage U) Chan W S) where
  module _ {R : Type 0} where
    abbrev pub asked_for : U → Connection U Chan → Reply R (AskError U) × Chan → Connection U Chan
    asked_for m c (_, mailbox) = record c { mailbox = mailbox; asked = c.asked ++ m ∷ [] }

  module _ {R E : Type 0} where
    abbrev pub on_read :
        Reply (Option U) E → ℕ → Option R → Connection U Chan → Flow (Connection U Chan)
    on_read (fine (some m)) tx o c = async_ask tk m tx o c.mailbox >>= λ p. ok (asked_for m c p)
    on_read (fine none) tx o c = ok (record c { reading = false })
    on_read (failed e) tx o c = ok (record c { reading = false })

    unfoldable pub connection_step :
        ConnectionEvent U R E → Connection U Chan → Flow (Connection U Chan)
    unfolding async_ask
    connection_step (reads r tx o) c = if c.reading then on_read r tx o c else ok c
    connection_step takes c = ok (record c { mailbox = (tk.try_recv c.mailbox).1 })
    connection_step exits c = ok (record c { mailbox = tk.close c.mailbox })

    unfoldable pub connection_run :
        List (ConnectionEvent U R E) → Connection U Chan → Flow (Connection U Chan)
    unfolding connection_step
    connection_run [] c = ok c
    connection_run (e ∷ es) c = connection_step e c >>= connection_run es

  -- `connection.await` after the loop, whose error is logged only
  unfoldable pub connection_end :
      {A : Type 0} → ℕ → Option A → Connection U Chan → Flow (Connection U Chan)
  unfolding into_future
  connection_end tx o c = into_future tk tx o c.mailbox >>= λ p. ok (record c { mailbox = p.1 })

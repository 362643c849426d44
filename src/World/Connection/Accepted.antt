-- ===== src/World/Connection/Accepted.antt =====
-- src/world/mod.rs, the task of one connection: what the mailbox of the connection's actor accepts from it.
use tokactor.Common.{
  ℕ, ◌≡◌, refl, sym, ap, ◌∙◌, Bool, true, false, Option, none, some, List, [], ◌∷◌, ◌++◌,
  append_assoc, append-nil, ok, panicked, blocked, >>=-eq-ok, if◌then◌else◌,
}
use tokactor.Tokio.{Tokio, TokioLaws}
use tokactor.Tokio.Room.{has_room}
use tokactor.Tokio.Recording.{Account, recording, recording_laws}
use tokactor.Tokio.Recording.Accepted.{accepted-try_send, accepted-try_recv, accepted-close}
use tokactor.Message.{SendMessage}
use tokactor.Address.{
  Reply, fine, failed, AskError, async_ask, async_message, shutdown_message, IntoFutureError,
  into_future,
}
use tokactor.Address.Results.{ask_lem, into_future_lem}
use tokactor.World.Connection.{
  ConnectionEvent, reads, takes, exits, Connection, asked_for, on_read, connection_step,
  connection_run, connection_end,
}
use tokactor.World.Connection.Asking.{stepped}

-- The requests that a schedule makes of the payloads before the first end or error of the reader.
unfoldable pub requests : {U R E : Type 0} → List (ConnectionEvent U R E) → List (SendMessage U)
requests [] = []
requests (reads (fine (some m)) tx o ∷ es) = async_message m tx ∷ requests es
requests (reads (fine none) tx o ∷ es) = []
requests (reads (failed e) tx o ∷ es) = []
requests (takes ∷ es) = requests es
requests (exits ∷ es) = requests es

got_through :
    {X : Type 0} (b r : Bool) (q p : X)
    → (if b then panicked else if r then ok q else blocked) ≡ ok p
    → (b ≡ false) × (r ≡ true) × (q ≡ p)
got_through true r q p h = cc h
got_through false true q p h = (refl, refl, cc h)
got_through false false q p h = cc h

module _ {U Chan W S R : Type 0} (tk : Tokio (SendMessage U) Chan W S) (laws : TokioLaws tk) where
  -- A question that was asked has come into an open mailbox with room.
  async_ask-enters :
      (m : U) (tx : ℕ) (o : Option R) (c : Chan) (p : Reply R (AskError U) × Chan)
      → async_ask tk m tx o c ≡ ok p
      → (tk.is_closed c ≡ false)
        × (has_room tk c ≡ true)
        × (p.1 ≡ (tk.try_send (async_message m tx) c).1)
  async_ask-enters m tx o c p h =
      let (open_, room, same) =
        got_through (tk.is_closed c) (has_room tk c) _ p (sym (ask_lem tk laws m tx o c).1 ∙ h) in
      (open_, room, ap (λ q. q.1) (sym same))

module _ {U Chan W S : Type 0} (tk : Tokio (SendMessage U) Chan W S) (laws : TokioLaws tk) where
  abbrev Recorded : Type 0
  Recorded = Connection U (Account tk)

  asked-accepted :
      {R : Type 0} (m : U) (tx : ℕ) (o : Option R) (a : Account tk)
      (p : Reply R (AskError U) × Account tk)
      → async_ask (recording tk laws) m tx o a ≡ ok p
      → p.1.accepted ≡ a.accepted ++ async_message m tx ∷ []
  unfolding recording
  asked-accepted m tx o a p h =
      let (open_, room, same) =
        async_ask-enters (recording tk laws) (recording_laws tk laws) m tx o a p h in
      ap (λ (b : Account tk). b.accepted) same
      ∙ accepted-try_send tk laws (async_message m tx) a open_ room

module _ {U Chan W S R E : Type 0} (tk : Tokio (SendMessage U) Chan W S) (laws : TokioLaws tk) where
  -- Once it has left its loop, the task of the connection sends nothing.
  quiet :
      (es : List (ConnectionEvent U R E)) (c d : Connection U (Account tk))
      → c.reading ≡ false
      → connection_run (recording tk laws) es c ≡ ok d
      → d.mailbox.accepted ≡ c.mailbox.accepted
  unfolding connection_run connection_step
  quiet [] c d e h = let same : c ≡ d = cc h in ap (λ z. z.mailbox.accepted) (sym same)
  quiet (reads r tx o ∷ es) c d e h =
      quiet es c d e (sym (stepped (recording tk laws) false r tx o es c e) ∙ h)
  quiet (takes ∷ es) c d e h =
      quiet es (record c { mailbox = ((recording tk laws).try_recv c.mailbox).1 }) d e h
      ∙ accepted-try_recv tk laws c.mailbox
  quiet (exits ∷ es) c d e h =
      quiet es (record c { mailbox = (recording tk laws).close c.mailbox }) d e h
      ∙ accepted-close tk laws c.mailbox

  ended :
      (es : List (ConnectionEvent U R E)) (c d : Connection U (Account tk))
      → connection_run (recording tk laws) es (record c { reading = false }) ≡ ok d
      → d.mailbox.accepted ≡ c.mailbox.accepted ++ []
  ended es c d h =
      quiet es (record c { reading = false }) d refl h ∙ sym (append-nil c.mailbox.accepted)

  -- Over any schedule that it comes through: what the mailbox of the connection's actor accepts from
  -- the task of the connection is a request for each payload of the reader, in order.
  pub connection_run-accepted :
      (es : List (ConnectionEvent U R E)) (c d : Connection U (Account tk))
      → c.reading ≡ true
      → connection_run (recording tk laws) es c ≡ ok d
      → d.mailbox.accepted ≡ c.mailbox.accepted ++ requests es
  unfolding connection_run connection_step requests
  connection_run-accepted [] c d e h =
      let same : c ≡ d = cc h in
      ap (λ z. z.mailbox.accepted) (sym same) ∙ sym (append-nil c.mailbox.accepted)
  connection_run-accepted (reads (fine (some m)) tx o ∷ es) c d e h =
      let k = recording tk laws in
      let (c', first, later) =
        >>=-eq-ok (on_read k {E = E} (fine (some m)) tx o c) _
          (sym (stepped k true (fine (some m)) tx o es c e) ∙ h) in
      let (p, sent, made) = >>=-eq-ok (async_ask k m tx o c.mailbox) _ first in
      let same : asked_for k m c p ≡ c' = cc made in
      connection_run-accepted es c' d (ap (λ z. z.reading) (sym same) ∙ e) later
      ∙ ap (λ z. z.mailbox.accepted ++ requests es) (sym same)
      ∙ ap (λ l. l ++ requests es) (asked-accepted tk laws m tx o c.mailbox p sent)
      ∙ append_assoc c.mailbox.accepted (async_message m tx ∷ []) (requests es)
  connection_run-accepted (reads (fine none) tx o ∷ es) c d e h =
      ended es c d (sym (stepped (recording tk laws) true (fine none) tx o es c e) ∙ h)
  connection_run-accepted (reads (failed f) tx o ∷ es) c d e h =
      ended es c d (sym (stepped (recording tk laws) true (failed f) tx o es c e) ∙ h)
  connection_run-accepted (takes ∷ es) c d e h =
      connection_run-accepted es (record c { mailbox = ((recording tk laws).try_recv c.mailbox).1 })
        d e h
      ∙ ap (λ l. l ++ requests es) (accepted-try_recv tk laws c.mailbox)
  connection_run-accepted (exits ∷ es) c d e h =
      connection_run-accepted es (record c { mailbox = (recording tk laws).close c.mailbox }) d e h
      ∙ ap (λ l. l ++ requests es) (accepted-close tk laws c.mailbox)

-- An await that came through an open mailbox found room.
through_open :
    {X : Type 0} (b r : Bool) (p q q' : X)
    → b ≡ false
    → (if b then ok q' else if r then ok q else blocked) ≡ ok p
    → (r ≡ true) × (q ≡ p)
through_open true r p q q' e h = cc e
through_open false true p q q' e h = (refl, cc h)
through_open false false p q q' e h = cc h

module _ {U Chan W S A : Type 0} (tk : Tokio (SendMessage U) Chan W S) (laws : TokioLaws tk) where
  -- At the end of the task of a connection, a mailbox that is still open accepts the shutdown.
  pub connection_end-accepted :
      (tx : ℕ) (o : Option A) (c d : Connection U (Account tk))
      → (recording tk laws).is_closed c.mailbox ≡ false
      → connection_end (recording tk laws) tx o c ≡ ok d
      → d.mailbox.accepted ≡ c.mailbox.accepted ++ shutdown_message true tx ∷ []
  unfolding connection_end recording
  connection_end-accepted tx o c d open_ h =
      let k = recording tk laws in
      let (p, sent, made) = >>=-eq-ok (into_future k tx o c.mailbox) _ h in
      let (room, same) =
        through_open (k.is_closed c.mailbox) (has_room k c.mailbox) p _ _ open_
          (sym (into_future_lem k (recording_laws tk laws) tx o c.mailbox).0 ∙ sent) in
      let there : record c { mailbox = p.1 } ≡ d = cc made in
      ap (λ z. z.mailbox.accepted) (sym there)
      ∙ ap (λ (q : Reply A IntoFutureError × Account tk). q.1.accepted) (sym same)
      ∙ accepted-try_send tk laws (shutdown_message true tx) c.mailbox open_ room

-- ===== src/World/Connection/Streamed.antt =====
-- src/world/mod.rs over src/io: the task of a connection that reads from a reader actor, which reads from
-- a socket.
use tokactor.Common.{
  ℕ, ◌<◌, ◌≡◌, refl, sym, ap, ◌∙◌, Bool, false, true, Option, none, some, List, [], ◌∷◌, ◌++◌, map,
  length, ok,
}
use tokactor.Tokio.{Tokio}
use tokactor.Message.{SendMessage}
use tokactor.Address.{Reply, fine, failed}
use tokactor.Io.{ReaderState, idle, reader_run}
use tokactor.Io.Socket.{Socket, SocketLaws}
use tokactor.Io.Frame.{Read}
use tokactor.Io.Frames.{concat}
use tokactor.World.Connection.{ConnectionEvent, reads, takes, exits, Connection, connection_run}
use tokactor.World.Connection.Asking.{payloads, goes_on, connection_run-payloads}
use tokactor.World.Connection.Session.{
  Echoes, session, heard, session-payloads, payloads-heard, goes_on-heard,
}

-- What the reads of a schedule give, without what happens to the actor's mailbox between them.
unfoldable pub outcomes :
    {U R E : Type 0} → List (ConnectionEvent U R E) → List (Reply (Option U) E)
outcomes [] = []
outcomes (reads r tx o ∷ es) = r ∷ outcomes es
outcomes (takes ∷ es) = outcomes es
outcomes (exits ∷ es) = outcomes es

module _ {U E : Type 0} where
  -- The payloads before the first end or error, and whether there is none.
  abbrev among : List (Reply (Option U) E) → List U × Bool
  among [] = ([], true)
  among (fine (some m) ∷ rs) = (m ∷ (among rs).0, (among rs).1)
  among (fine none ∷ rs) = ([], false)
  among (failed e ∷ rs) = ([], false)

module _ {U R E : Type 0} where
  among-outcomes :
      (es : List (ConnectionEvent U R E)) → among (outcomes es) ≡ (payloads es, goes_on es)
  unfolding outcomes payloads goes_on
  among-outcomes [] = refl
  among-outcomes (reads (fine (some m)) tx o ∷ es) =
      ap (λ (p : List U × Bool). (m ∷ p.0, p.1)) (among-outcomes es)
  among-outcomes (reads (fine none) tx o ∷ es) = refl
  among-outcomes (reads (failed e) tx o ∷ es) = refl
  among-outcomes (takes ∷ es) = among-outcomes es
  among-outcomes (exits ∷ es) = among-outcomes es

module _ {B E Sk P : Type 0} (k : Socket B E Sk) (zero_byte : B) (len : ℕ) (start : P)
    (recv : P → Read B → P × Option (List B)) where
  -- What the reader actor answers.
  abbrev pub answers_of : ℕ → ℕ → Sk → List (ℕ × List B)
  answers_of fuel tx s = (reader_run start recv idle (session k zero_byte len fuel tx s)).0

module _ {B E Sk P Chan W S R : Type 0} (tk : Tokio (SendMessage (List B)) Chan W S)
    (k : Socket B E Sk) (zero_byte : B) (len : ℕ) (start : P)
    (recv : P → Read B → P × Option (List B)) (echoes : Echoes recv) (laws : SocketLaws k)
    (room : 0 < len) where
  -- From a socket to the task of a connection, on a stream that has ended, with a payload that makes a
  -- request of each frame. The reader actor is asked again and again until the end of the stream, and
  -- the task, whose actor may take messages and end meanwhile, reads what the reader actor answers, and
  -- then the end. Then the reader actor is ready for the next request; the task has left its loop; and
  -- what the task asked its actor for are the answers, which are, put one after another, exactly the
  -- bytes of the stream.
  pub connection_run-session :
      (fuel tx : ℕ) (s : Sk) (es : List (ConnectionEvent (List B) R E))
      (c d : Connection (List B) Chan)
      → length (k.bytes s) < fuel
      → k.ended s ≡ true
      → outcomes es
        ≡ outcomes (heard {R = R} {E = E} (answers_of k zero_byte len start recv fuel tx s))
      → c.reading ≡ true
      → connection_run tk es c ≡ ok d
      → ((reader_run start recv idle (session k zero_byte len fuel tx s)).1 ≡ idle)
        × (d.reading ≡ false)
        × (d.asked ≡ c.asked ++ map (λ a. a.1) (answers_of k zero_byte len start recv fuel tx s))
        × (concat (map (λ a. a.1) (answers_of k zero_byte len start recv fuel tx s)) ≡ k.bytes s)
  connection_run-session fuel tx s es c d enough done told on ran =
      let (answers, gave, bytes, end) =
        session-payloads k zero_byte len start recv echoes laws room R fuel tx s enough done in
      let (asked, went_on) = connection_run-payloads tk es c d on ran in
      let same : (payloads es, goes_on es)
          ≡ (map (λ a. a.1) (answers_of k zero_byte len start recv fuel tx s), false) =
        sym (among-outcomes es)
        ∙ ap among told
        ∙ among-outcomes (heard (answers_of k zero_byte len start recv fuel tx s))
        ∙ λ i. (
          payloads-heard R E (answers_of k zero_byte len start recv fuel tx s) i,
          goes_on-heard R E (answers_of k zero_byte len start recv fuel tx s) i,
        ) in
      (
        ap (λ (w : List (ℕ × List B) × ReaderState P). w.1) gave,
        went_on ∙ ap (λ (p : List (List B) × Bool). p.1) same,
        asked ∙ ap (λ (p : List (List B) × Bool). c.asked ++ p.0) same,
        ap (λ (w : List (ℕ × List B) × ReaderState P). concat (map (λ a. a.1) w.0)) gave
            ∙ ap concat (sym (payloads-heard R E answers))
            ∙ bytes,
      )

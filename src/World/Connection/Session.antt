-- ===== src/World/Connection/Session.antt =====
-- src/io: a client that asks the reader actor for one request after another, as the task of a connection
-- does, until the stream is at its end. Here the frames come from the socket.
use tokactor.Common.{
  Nil-cases, ℕ, zero, suc, false, ◌<◌, ◌≡◌, ◌≢◌, refl, sym, ap, ◌∙◌, true, Option, none, some, List,
  [], ◌∷◌, ◌++◌, map, length, take, take-append-drop, length-take, length-drop, length-ne-zero,
  drop-length-take, ok, inl, inr, arith,
}
use tokactor.Address.{fine, failed}
use tokactor.Io.{
  completes, ReaderEvent, awaits_request, awaits_frame, ReaderState, idle, reading, reader_step,
  reader_run, supervisor, read,
}
use tokactor.Io.Socket.{Socket, SocketLaws}
use tokactor.Io.Frame.{Read, empty_frame, as_slice, ReadPoll, filled, at_end, error, poll}
use tokactor.Io.Frames.{concat, poll_ended, poll_filled}
use tokactor.World.Connection.{ConnectionEvent, reads}
use tokactor.World.Connection.Asking.{payloads, goes_on}
use tokactor.Io.Reading.{reader_run_lem, last}

-- A payload that makes a request of each frame, of the bytes in it.
pub record Echoes {B P : Type 0} (recv : P → Read B → P × Option (List B)) : Type 0 where
  pub echo : (p : P) (r : Read B) (bs : List B) → as_slice r ≡ ok bs → (recv p r).1 ≡ some bs

-- What the client reads of the answers, and then of a request that was dropped.
abbrev pub heard : {Q R E : Type 0} → List (ℕ × Q) → List (ConnectionEvent Q R E)
heard [] = reads (read true none) 0 none ∷ []
heard ((tx, q) ∷ qs) = reads (read true (some (fine q))) tx none ∷ heard qs

pub payloads-heard :
    (R E : Type 0) {Q : Type 0} (qs : List (ℕ × Q))
    → payloads (heard {R = R} {E = E} qs) ≡ map (λ a. a.1) qs
unfolding payloads read
payloads-heard R E [] = refl
payloads-heard R E (q ∷ qs) = ap (λ l. q.1 ∷ l) (payloads-heard R E qs)

pub goes_on-heard :
    (R E : Type 0) {Q : Type 0} (qs : List (ℕ × Q)) → goes_on (heard {R = R} {E = E} qs) ≡ false
unfolding goes_on read
goes_on-heard R E [] = refl
goes_on-heard R E (q ∷ qs) = goes_on-heard R E qs

module _ {B E S : Type 0} (k : Socket B E S) (zero_byte : B) (len : ℕ) where
  abbrev on_poll :
      ReadPoll B E S → (S → List (ReaderEvent (Read B) E)) → List (ReaderEvent (Read B) E)
  on_poll (filled r s) rest = awaits_frame (completes (fine (some r))) ∷ rest s
  on_poll (at_end r s) rest = awaits_frame (completes (fine none)) ∷ []
  on_poll (error e) rest = awaits_frame (completes (failed e)) ∷ []
  on_poll _ rest = []

  -- The awaits of the reader actor: a request with a new frame, and the frame filled from the
  -- socket, again and again, with fuel; `tx` is the number of the first request's channel.
  unfoldable pub session : ℕ → ℕ → S → List (ReaderEvent (Read B) E)
  session zero tx s = []
  session (suc fuel) tx s =
      awaits_request (completes (some (empty_frame zero_byte len, tx)))
      ∷ on_poll (poll k (empty_frame zero_byte len) s) (session fuel (suc tx))

  module _ {P : Type 0} (start : P) (recv : P → Read B → P × Option (List B)) (echoes : Echoes recv)
      (laws : SocketLaws k) (room : 0 < len) where
    Heard : List (ReaderEvent (Read B) E) → S → Type 0
    Heard es s =
        (answers : List (ℕ × List B)) × (reader_run start recv idle es ≡ (answers, idle))
        × (concat (map (λ a. a.1) answers) ≡ k.bytes s)

    nothing_left :
        (fuel tx : ℕ) (s : S)
        → k.bytes s ≡ []
        → k.ended s ≡ true
        → Heard (session (suc fuel) tx s) s
    unfolding Heard session reader_run reader_step supervisor
    nothing_left fuel tx s e done =
        let (r, polled) = poll_ended k zero_byte len laws room s e done in
        (
          [],
          ap (λ p. reader_run start recv (reading start tx) (on_poll p (session fuel (suc tx))))
              polled,
          sym e,
        )

    one_more :
        (fuel tx : ℕ) (s : S)
        → k.bytes s ≢ []
        → Heard
            (session fuel (suc tx) (k.try_read (length (take len (k.bytes s))) s).1)
            (k.try_read (length (take len (k.bytes s))) s).1
        → Heard (session (suc fuel) tx s) s
    unfolding Heard session
    one_more fuel tx s e (answers, ran, same) =
        let bs = take len (k.bytes s) in
        let (r, polled, sl) = poll_filled k zero_byte len laws room s e in
        let request = awaits_request (completes (some (empty_frame zero_byte len, tx))) in
        let rest = session fuel (suc tx) (k.try_read (length bs) s).1 in
        let made : recv start r ≡ ((recv start r).0, some bs) =
          λ i. ((recv start r).0, echoes.echo start r bs sl i) in
        (
          (tx, bs) ∷ answers,
          ap (λ p. reader_run start recv idle (request ∷ on_poll p (session fuel (suc tx)))) polled
              ∙ reader_run_lem start recv (empty_frame zero_byte len) tx (r ∷ []) bs rest
                  (last made)
              ∙ ap (λ (w : List (ℕ × List B) × ReaderState P). ((tx, bs) ∷ w.0, w.1)) ran,
          ap (λ l. bs ++ l)
                (same ∙ laws.bytes-try_read (length bs) s e ∙ drop-length-take len (k.bytes s))
              ∙ take-append-drop len (k.bytes s),
        )

    session-Heard :
        (fuel tx : ℕ) (s : S)
        → length (k.bytes s) < fuel
        → k.ended s ≡ true
        → Heard (session fuel tx s) s
    session-Heard zero tx s enough done = absurd (omega (arith, enough))
    session-Heard (suc fuel) tx s enough done =
        let bs = take len (k.bytes s) in
        let s' = (k.try_read (length bs) s).1 in
        elim (Nil-cases (k.bytes s)) [
          | inl e ↦ nothing_left fuel tx s e done
          | inr e ↦ one_more fuel tx s e (
              session-Heard fuel (suc tx) s'
                (omega (
                  arith,
                  enough,
                  room,
                  ap length (laws.bytes-try_read (length bs) s e),
                  length-drop (length bs) (k.bytes s),
                  length-take len (k.bytes s),
                  length-ne-zero (k.bytes s) e,
                ))
                (laws.ended-try_read (length bs) s ∙ done))
        ]

    -- On a stream that has ended, with a payload that makes a request of each frame:
    -- the reader actor, asked again and again until the end of the stream, gives answers and is then
    -- ready for the next request; and a client that reads these answers reads payloads which, put one
    -- after another, are exactly the bytes of the stream, and then the end.
    pub session-payloads :
        (R : Type 0) (fuel tx : ℕ) (s : S)
        → length (k.bytes s) < fuel
        → k.ended s ≡ true
        → (answers : List (ℕ × List B)) × (reader_run start recv idle (session fuel tx s)
            ≡ (answers, idle))
          × (concat (payloads (heard {R = R} {E = E} answers)) ≡ k.bytes s)
          × (goes_on (heard {R = R} {E = E} answers) ≡ false)
    unfolding Heard
    session-payloads R fuel tx s enough done =
        let (answers, ran, same) = session-Heard fuel tx s enough done in
        (answers, ran, ap concat (payloads-heard R E answers) ∙ same, goes_on-heard R E answers)

-- ===== src/Io/Frames.antt =====
-- src/io/read/exact.rs: what the frames that are read one after another make of a stream.
use tokactor.Common.{
  refl, sym, append_assoc, ℕ, ◌<◌, ◌≡◌, ◌≢◌, ap, ◌∙◌, true, false, Option, none, some, List, [],
  ◌∷◌, ◌++◌, take, drop, length, length-append, length-take, take-length_append, take-length-take,
  length-ne-zero, length-replicate, ok, ltb, ◌==◌, arith,
}
use tokactor.Io.Socket.{peeked, Socket, SocketLaws}
use tokactor.Io.Frame.{Read, empty_frame, as_slice, overlay, filled, at_end, on_read, on_peek, poll}

abbrev pub concat : {B : Type 0} → List (List B) → List B
concat [] = []
concat (f ∷ fs) = f ++ concat fs

pub concat-append :
    {B : Type 0} (fs gs : List (List B)) → concat (fs ++ gs) ≡ concat fs ++ concat gs
concat-append [] gs = refl
concat-append (f ∷ fs) gs =
    ap (λ l. f ++ l) (concat-append fs gs) ∙ sym (append_assoc f (concat fs) (concat gs))

module _ {B E S : Type 0} (k : Socket B E S) (zero_byte : B) (len : ℕ) where
  module _ (laws : SocketLaws k) (room : 0 < len) where
    pub poll_ended :
        (s : S)
        → k.bytes s ≡ []
        → k.ended s ≡ true
        → (r : Read B) × (poll k (empty_frame zero_byte len) s ≡ at_end r s)
    unfolding poll
    poll_ended s e done =
        (_, ap (on_peek k (empty_frame zero_byte len) s) (laws.poll_peek_ended _ s e done))

    as_slice-overlay :
        (bs buffer : List B)
        → as_slice (record { buffer = overlay bs buffer; read_len = length bs }) ≡ ok bs
    unfolding as_slice
    as_slice-overlay bs buffer = rw fits (ap ok (take-length_append bs (drop (length bs) buffer)))
      where
        fits : ltb (length (bs ++ drop (length bs) buffer)) (length bs) ≡ false
        fits = ground (arith, length-append bs (drop (length bs) buffer))

    on_read_lem :
        (r : Read B) (bs : List B) (answer : Option (List B) × S)
        → answer.0 ≡ some bs
        → (r' : Read B) × (on_read k r (length bs) answer ≡ filled r' answer.1)
          × (as_slice r' ≡ ok bs)
    on_read_lem r bs (none, s) e = cc
    on_read_lem r bs (some bs', s) e =
        (_, ap (λ b. on_read k r (length bs) (some b, s)) same, as_slice-overlay bs r.buffer)
      where
        same : bs' ≡ bs
        same = cc

    on_peek_lem :
        (r : Read B) (s : S) (bs : List B)
        → (length bs == 0) ≡ false
        → (k.try_read (length bs) s).0 ≡ some bs
        → (r' : Read B) × (on_peek k r s (peeked bs) ≡ filled r' (k.try_read (length bs) s).1)
          × (as_slice r' ≡ ok bs)
    on_peek_lem r s bs some_bytes e =
        rw some_bytes
          (on_read_lem (record r { buffer = overlay bs r.buffer }) bs (k.try_read (length bs) s) e)

    pub poll_filled :
        (s : S)
        → k.bytes s ≢ []
        → (r : Read B) × (poll k (empty_frame zero_byte len) s
            ≡ filled r (k.try_read (length (take len (k.bytes s))) s).1)
          × (as_slice r ≡ ok (take len (k.bytes s)))
    unfolding poll empty_frame
    poll_filled s e =
        let bs = take len (k.bytes s) in
        let r = empty_frame zero_byte len in
        let (r', came, sl) =
          on_peek_lem r s bs
            (ground (arith, length-take len (k.bytes s), length-ne-zero (k.bytes s) e))
            (laws.try_read_bytes (length bs) s e ∙ ap some (take-length-take len (k.bytes s))) in
        (
          r',
          ap (on_peek k r s) (
                ap (λ n. k.poll_peek n s) (length-replicate len zero_byte)
                ∙ laws.poll_peek_bytes len s e)
              ∙ came,
          sl,
        )

-- ===== src/Io/Frame.antt =====
-- src/io/read/exact.rs: a frame of a fixed length, and the future that reads the socket into it.
use tokactor.Common.{
  ℕ, Option, none, some, List, ◌++◌, take, drop, length, replicate, Flow, ok, panicked,
  if◌then◌else◌, ltb, ◌==◌,
}
use tokactor.Io.Socket.{Peek, waits, peeked, fails, Socket}

-- `Read<LEN>`: a buffer of `LEN` bytes, and how much of it is filled.
pub record Read (B : Type 0) : Type 0 where
  pub buffer : List B
  pub read_len : ℕ

-- `Default`, where `zero_byte` is `0_u8`
unfoldable pub empty_frame : {B : Type 0} → B → ℕ → Read B
empty_frame zero_byte len = record { buffer = replicate len zero_byte; read_len = 0 }

-- `as_slice`, `to_vec` and `frame`: a slice past the end of the buffer panics.
unfoldable pub as_slice : {B : Type 0} → Read B → Flow (List B)
as_slice r = if ltb (length r.buffer) r.read_len then panicked else ok (take r.read_len r.buffer)

-- The bytes put over the first of the buffer.
abbrev pub overlay : {B : Type 0} → List B → List B → List B
overlay bs buffer = bs ++ drop (length bs) buffer

pub data ReadPoll (B E S : Type 0) : Type 0 where
  pending : ReadPoll B E S
  -- `Ok(Some(()))`, `Ok(None)` and `Err`
  filled : Read B → S → ReadPoll B E S
  at_end : Read B → S → ReadPoll B E S
  error : E → ReadPoll B E S
  panics : ReadPoll B E S

module _ {B E S : Type 0} (k : Socket B E S) where
  abbrev pub on_read : Read B → ℕ → Option (List B) × S → ReadPoll B E S
  on_read r n (none, s) = panics
  on_read r n (some bs, s) = filled (record { buffer = overlay bs r.buffer; read_len = n }) s

  abbrev pub on_peek : Read B → S → Peek B E → ReadPoll B E S
  on_peek r s waits = pending
  on_peek r s (fails e) = error e
  on_peek r s (peeked bs) =
      let r' = record r { buffer = overlay bs r.buffer } in
      if length bs == 0 then at_end r' s else on_read r' (length bs) (k.try_read (length bs) s)

  -- `ReadFut::poll`
  unfoldable pub poll : Read B → S → ReadPoll B E S
  poll r s = on_peek r s (k.poll_peek (length r.buffer) s)

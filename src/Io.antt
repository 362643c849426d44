-- ===== src/Io.antt =====
-- src/io: the actors around a socket (`mod.rs`) and, in `Frame`, the read buffer (`read/exact.rs`). What the
-- socket, the channels and the notifier do comes as a schedule: the outcomes of the awaits, in order.
pub mod Reading
pub mod Socket
pub mod Frame
pub mod Frames
pub mod Writing
pub mod Component
pub mod Tcp
pub mod Accepting
use tokactor.Common.{
  ℕ, zero, suc, ◌==◌, Bool, true, false, Option, none, some, List, [], ◌∷◌, ◌++◌, take, length,
  Flow, ok, panicked, if◌then◌else◌,
}
use tokactor.Tokio.{SupervisorMessage, shutdown}
use tokactor.Address.{Reply, fine, failed}

-- What `select!` in `supervisor` sees first: the notifier (its new value, or that it is gone), the
-- shutdown future, or the awaited future.
pub data Arm (X : Type 0) : Type 0 where
  notified : Option SupervisorMessage → Arm X
  supervisor_gone : Arm X
  told_to_stop : Arm X
  completes : X → Arm X

pub data Supervise (X : Type 0) : Type 0 where
  succeeded : X → Supervise X
  continue : Supervise X
  shutdown_now : Supervise X
  dead : Supervise X

unfoldable pub supervisor : {X : Type 0} → Arm X → Supervise X
supervisor (notified (some shutdown)) = shutdown_now
supervisor (notified none) = continue
supervisor supervisor_gone = dead
supervisor told_to_stop = shutdown_now
supervisor (completes x) = succeeded x

-- An await of the reader actor: of a request, with the frame `F` to read into and the number of the
-- oneshot channel to answer; or of a read of the socket into a frame.
pub data ReaderEvent (F E : Type 0) : Type 0 where
  awaits_request : Arm (Option (F × ℕ)) → ReaderEvent F E
  awaits_frame : Arm (Reply (Option F) E) → ReaderEvent F E

-- Where the reader actor stands: before a request, or inside one, with what it has received for it.
pub data ReaderState (P : Type 0) : Type 0 where
  idle : ReaderState P
  reading : P → ℕ → ReaderState P
  left : ReaderState P

abbrev pub after_recv : {P Q : Type 0} → ℕ → P × Option Q → ReaderState P × List (ℕ × Q)
after_recv tx (p, none) = (reading p tx, [])
after_recv tx (p, some q) = (idle, (tx, q) ∷ [])

abbrev pub on_request : {F P : Type 0} → P → Supervise (Option (F × ℕ)) → ReaderState P
on_request p (succeeded (some (frame, tx))) = reading p tx
on_request p (succeeded none) = left
on_request p continue = idle
on_request p shutdown_now = left
on_request p dead = left

-- `P` is the payload and `Q` the request that it makes of frames: `start` is `Payload::default()` and
-- `recv` is `Payload::recv`.
module _ {F E P Q : Type 0} (start : P) (recv : P → F → P × Option Q) where
  abbrev pub on_frame : P → ℕ → Supervise (Reply (Option F) E) → ReaderState P × List (ℕ × Q)
  on_frame p tx (succeeded (fine (some frame))) = after_recv tx (recv p frame)
  on_frame p tx (succeeded (fine none)) = (idle, [])
  on_frame p tx (succeeded (failed e)) = (idle, [])
  on_frame p tx continue = (reading p tx, [])
  on_frame p tx shutdown_now = (idle, [])
  on_frame p tx dead = (idle, [])

  -- One await of `create_reader_actor`, with the answers that it sends.
  unfoldable pub reader_step : ReaderState P → ReaderEvent F E → ReaderState P × List (ℕ × Q)
  unfolding supervisor
  reader_step idle (awaits_request a) = (on_request start (supervisor a), [])
  reader_step (reading p tx) (awaits_frame a) = on_frame p tx (supervisor a)
  reader_step s e = (s, [])

  -- The answers that it sends over a schedule, and whether it has told the writer actor to stop.
  unfoldable pub reader_run : ReaderState P → List (ReaderEvent F E) → List (ℕ × Q) × ReaderState P
  reader_run s [] = ([], s)
  reader_run s (e ∷ es) =
      let (s', out) = reader_step s e in let (more, last) = reader_run s' es in (out ++ more, last)

-- `shutdown_tx.send(())`, after the loops of the reader actor
abbrev pub writer_told : {P : Type 0} → ReaderState P → Bool
writer_told left = true
writer_told _ = false

-- An await of the writer actor: of data with the channel to answer, or of a write.
pub data WriterEvent (D E : Type 0) : Type 0 where
  awaits_data : Arm (Option (D × ℕ)) → WriterEvent D E
  awaits_write : Arm (Reply (Unit {0}) E) → WriterEvent D E

pub data WriterState (D : Type 0) : Type 0 where
  waiting : WriterState D
  writing : D → ℕ → WriterState D
  stopped : WriterState D

abbrev pub on_data : {D : Type 0} → Supervise (Option (D × ℕ)) → WriterState D
on_data (succeeded (some (d, tx))) = writing d tx
on_data (succeeded none) = stopped
on_data continue = waiting
on_data shutdown_now = stopped
on_data dead = stopped

module _ {D E : Type 0} where
  abbrev pub on_write :
      ℕ → Supervise (Reply (Unit {0}) E) → WriterState D × List (ℕ × Reply (Unit {0}) E)
  on_write tx (succeeded r) = (waiting, (tx, r) ∷ [])
  on_write tx continue = (waiting, [])
  on_write tx shutdown_now = (stopped, [])
  on_write tx dead = (stopped, [])

  -- One await of `create_writer_actor`, with the answers that it sends.
  unfoldable pub writer_step :
      WriterState D → WriterEvent D E → WriterState D × List (ℕ × Reply (Unit {0}) E)
  unfolding supervisor
  writer_step waiting (awaits_data a) = (on_data (supervisor a), [])
  writer_step (writing d tx) (awaits_write a) = on_write tx (supervisor a)
  writer_step s e = (s, [])

  unfoldable pub writer_run :
      WriterState D → List (WriterEvent D E) → List (ℕ × Reply (Unit {0}) E) × WriterState D
  writer_run s [] = ([], s)
  writer_run s (e ∷ es) =
      let (s', out) = writer_step s e in let (more, last) = writer_run s' es in (out ++ more, last)

-- `Reader::read`: whether the request was sent, and what its oneshot channel comes to.
unfoldable pub read : {Q E : Type 0} → Bool → Option (Reply Q E) → Reply (Option Q) E
read false o = fine none
read true none = fine none
read true (some (fine q)) = fine (some q)
read true (some (failed e)) = failed e

pub data WriteError (E : Type 0) : Type 0 where
  broken_pipe other : WriteError E
  source : E → WriteError E

-- `Writer::write`
unfoldable pub write :
    {E : Type 0} → Bool → Option (Reply (Unit {0}) E) → Reply (Unit {0}) (WriteError E)
write false o = failed broken_pipe
write true none = failed other
write true (some (fine _)) = fine tt
write true (some (failed e)) = failed (source e)

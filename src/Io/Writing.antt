-- ===== src/Io/Writing.antt =====
-- What the writer actor of src/io/mod.rs answers over a schedule of its awaits.
use tokactor.Common.{ℕ, ◌≡◌, refl, ap, none, some, List, [], ◌∷◌, ◌++◌, map}
use tokactor.Tokio.{shutdown}
use tokactor.Address.{Reply}
use tokactor.Io.{
  notified, supervisor_gone, told_to_stop, completes, supervisor, WriterEvent, awaits_data,
  awaits_write, waiting, writing, stopped, writer_step, writer_run,
}

-- A write that came, its channel and what it came to.
abbrev pub Job : (D E : Type 0) → Type 0
Job D E = D × ℕ × Reply (Unit {0}) E

module _ {D E : Type 0} where
  abbrev pub one_job : Job D E → List (WriterEvent D E)
  one_job (d, tx, r) = awaits_data (completes (some (d, tx))) ∷ awaits_write (completes r) ∷ []

  -- Jobs one after another, with the notifier waking the writer up before each for no reason.
  abbrev pub schedule : List (Job D E) → List (WriterEvent D E)
  schedule [] = []
  schedule (j ∷ js) = awaits_data (notified none) ∷ one_job j ++ schedule js

  abbrev pub results : List (Job D E) → List (ℕ × Reply (Unit {0}) E)
  results = map (λ j. (j.1, j.2))

  -- Jobs that come one after another are each answered on their own channel with the outcome of
  -- their own write, failed or not, and the writer goes on with the rest of the schedule.
  pub writer_run_lem :
      (js : List (Job D E)) (es : List (WriterEvent D E))
      → writer_run waiting (schedule js ++ es)
        ≡ (results js ++ (writer_run waiting es).0, (writer_run waiting es).1)
  unfolding writer_run writer_step supervisor
  writer_run_lem [] es = refl
  writer_run_lem ((d, tx, r) ∷ js) es = ap (λ p. ((tx, r) ∷ p.0, p.1)) (writer_run_lem js es)

  -- A writer that has stopped answers nothing and stays stopped.
  after_stop : (es : List (WriterEvent D E)) → writer_run stopped es ≡ ([], stopped)
  unfolding writer_run writer_step
  after_stop [] = refl
  after_stop (e ∷ es) = after_stop es

  -- A write that its notifier or its reader interrupts by a message to stop is not answered, and the
  -- writer answers nothing after it; one that is interrupted for no reason is not answered either,
  -- and the writer goes on.
  writer_run-interrupted :
      (d : D) (tx : ℕ) (es : List (WriterEvent D E))
      → (writer_run (writing d tx) (awaits_write (notified (some shutdown)) ∷ es) ≡ ([], stopped))
        × (writer_run (writing d tx) (awaits_write told_to_stop ∷ es) ≡ ([], stopped))
        × (writer_run (writing d tx) (awaits_write supervisor_gone ∷ es) ≡ ([], stopped))
        × (writer_run (writing d tx) (awaits_write (notified none) ∷ es) ≡ writer_run waiting es)
  unfolding writer_run writer_step supervisor
  writer_run-interrupted d tx es = (after_stop es, after_stop es, after_stop es, refl)

-- ===== src/World/Inputs.antt =====
-- src/world/mod.rs: the inputs of a world (`on_input`) and the run of a world over them
-- (`block_until_completion`). The tasks of the inputs interleave along a schedule of events.
pub mod Completion
pub mod Stopping
pub mod Serving
use tokactor.Common.{
  ℕ, zero, suc, Bool, true, false, ◌&&◌, Option, none, some, List, [], ◌∷◌, ◌++◌, map, Flow, ok,
  panicked, blocked, if◌then◌else◌,
}
use tokactor.Address.{Reply, fine, failed}
use tokactor.Io.Component.{Component}

-- The task of an input: in its loop, in `component.shutdown().await`, returned, or ended by a panic;
-- with the connections for which it started a task, oldest first.
pub data Input (C Conn : Type 0) : Type 0 where
  serving : C → List Conn → Input C Conn
  closing : C → List Conn → Input C Conn
  over : List Conn → Input C Conn
  dead : List Conn → Input C Conn

-- What the task of an input is woken by: the future of `accept` is polled, `shutdown.recv()` is, or
-- the shutdown of the component, with what happens during it. Or a task of one of its connections
-- ends while the input serves.
pub data InputEvent (D : Type 0) : Type 0 where
  accepts : InputEvent D
  departs : InputEvent D
  told : InputEvent D
  shuts : D → InputEvent D

pub data WorldEvent (D : Type 0) : Type 0 where
  ctrl_c : WorldEvent D
  wakes : ℕ → InputEvent D → WorldEvent D

pub record World (C Conn : Type 0) : Type 0 where
  pub inputs : List (Input C Conn)
  -- whether `notify_shutdown` was dropped
  pub shut : Bool

abbrev pub update : {A : Type 0} → ℕ → (A → A) → List A → List A
update i f [] = []
update zero f (x ∷ xs) = f x ∷ xs
update (suc i) f (x ∷ xs) = x ∷ update i f xs

module _ {C Conn : Type 0} where
  abbrev pub is_over : Input C Conn → Bool
  is_over (serving c conns) = false
  is_over (closing c conns) = false
  is_over (over conns) = true
  is_over (dead conns) = true

  abbrev pub all_over : List (Input C Conn) → Bool
  all_over [] = true
  all_over (i ∷ is) = is_over i && all_over is

  -- `block_until_completion` returns: each `input.await` has ended, with an error or not.
  unfoldable pub completed : World C Conn → Bool
  completed w = all_over w.inputs

  -- `on_input` for one component after another
  unfoldable pub on_inputs : List C → World C Conn
  on_inputs cs = record { inputs = map (λ c. serving c []) cs; shut = false }

module _ {C Rd Act E D : Type 0} (k : Component C Rd Act E D) where
  -- `result.unwrap()`, and a task for the connection
  abbrev pub on_accepted :
      Flow (Option (Reply (Rd × Act) E) × C) → C → List (Rd × Act) → Input C (Rd × Act)
  on_accepted (ok (none, c')) c conns = serving c' conns
  on_accepted (ok (some (fine conn), c')) c conns = serving c' (conns ++ conn ∷ [])
  on_accepted (ok (some (failed e), c')) c conns = dead conns
  on_accepted panicked c conns = dead conns
  on_accepted blocked c conns = serving c conns

  abbrev pub on_shut : Flow (Unit {0}) → C → List (Rd × Act) → Input C (Rd × Act)
  on_shut (ok u) c conns = over conns
  on_shut panicked c conns = dead conns
  on_shut blocked c conns = closing c conns

  -- The task of an input; the flag says whether `shutdown.recv()` is ready.
  unfoldable pub input_step : Bool → InputEvent D → Input C (Rd × Act) → Input C (Rd × Act)
  input_step shut accepts (serving c conns) = on_accepted (k.accept c) c conns
  input_step shut departs (serving c conns) = serving (k.departed c) conns
  input_step shut told (serving c conns) = if shut then closing c conns else serving c conns
  input_step shut (shuts d) (closing c conns) = on_shut (k.shutdown c d) c conns
  input_step shut e i = i

  unfoldable pub world_step : WorldEvent D → World C (Rd × Act) → World C (Rd × Act)
  unfolding input_step
  world_step ctrl_c w = record w { shut = true }
  world_step (wakes i e) w = record w { inputs = update i (input_step w.shut e) w.inputs }

  unfoldable pub world_run : List (WorldEvent D) → World C (Rd × Act) → World C (Rd × Act)
  unfolding world_step
  world_run [] w = w
  world_run (e ∷ es) w = world_run es (world_step e w)

-- ===== src/World/Settings.antt =====
-- src/world/builder.rs: which settings reach the runtime.
use tokactor.Common.{
  ℕ, ◌≡◌, ap, ◌∙◌, Bool, true, false, Option, none, some, List, [], ◌∷◌, if◌then◌else◌, ◌==◌, arith,
}
use tokactor.World.{
  WorldBuilder, Call, worker_threads, max_blocking_threads, thread_stack_size, enable_io,
  enable_time, Setter, set_worker_threads, set_max_blocking_threads, set_thread_name,
  set_thread_name_fn, set_thread_stack_size, set_enable_time, set_enable_io, new, apply_all, unwrap,
}

-- What a list of calls configures: the arguments of its calls of each kind.
module _ {N : Type 0} where
  abbrev pub workers : List (Call N) → List ℕ
  workers [] = []
  workers (worker_threads n ∷ cs) = n ∷ workers cs
  workers (_ ∷ cs) = workers cs

  abbrev pub blocking : List (Call N) → List ℕ
  blocking [] = []
  blocking (max_blocking_threads n ∷ cs) = n ∷ blocking cs
  blocking (_ ∷ cs) = blocking cs

  abbrev pub stacks : List (Call N) → List ℕ
  stacks [] = []
  stacks (thread_stack_size n ∷ cs) = n ∷ stacks cs
  stacks (_ ∷ cs) = stacks cs

  abbrev pub ios : List (Call N) → List ℕ
  ios [] = []
  ios (enable_io ∷ cs) = 1 ∷ ios cs
  ios (_ ∷ cs) = ios cs

  abbrev pub times : List (Call N) → List ℕ
  times [] = []
  times (enable_time ∷ cs) = 1 ∷ times cs
  times (_ ∷ cs) = times cs

-- The last request of each kind, if there is any.
module _ {N : Type 0} where
  abbrev pub last_workers : Option ℕ → List (Setter N) → Option ℕ
  last_workers o [] = o
  last_workers o (set_worker_threads n ∷ ss) = last_workers (some n) ss
  last_workers o (_ ∷ ss) = last_workers o ss

  abbrev pub last_blocking : Option ℕ → List (Setter N) → Option ℕ
  last_blocking o [] = o
  last_blocking o (set_max_blocking_threads n ∷ ss) = last_blocking (some n) ss
  last_blocking o (_ ∷ ss) = last_blocking o ss

  abbrev pub last_stack : Option ℕ → List (Setter N) → Option ℕ
  last_stack o [] = o
  last_stack o (set_thread_stack_size n ∷ ss) = last_stack (some n) ss
  last_stack o (_ ∷ ss) = last_stack o ss

  abbrev pub wants_io : Bool → List (Setter N) → Bool
  wants_io o [] = o
  wants_io o (set_enable_io ∷ ss) = wants_io true ss
  wants_io o (_ ∷ ss) = wants_io o ss

  abbrev pub wants_time : Bool → List (Setter N) → Bool
  wants_time o [] = o
  wants_time o (set_enable_time ∷ ss) = wants_time true ss
  wants_time o (_ ∷ ss) = wants_time o ss

abbrev pub clamp : ℕ → ℕ
clamp n = if n == 0 then 1 else n

abbrev pub once : Option ℕ → List ℕ
once none = []
once (some n) = n ∷ []

abbrev pub once_clamped : Option ℕ → List ℕ
once_clamped none = []
once_clamped (some n) = clamp n ∷ []

abbrev pub once_if : Bool → List ℕ
once_if true = 1 ∷ []
once_if false = []

module _ {N : Type 0} where
  -- What a builder was asked for so far, and what it holds of it.
  record Holds (b : WorldBuilder N) (w k s : Option ℕ) (io time : Bool) : Type 0 where
    held_workers : once b.worker_threads ≡ once_clamped w
    held_blocking : once b.max_blocking_threads ≡ once_clamped k
    held_stack : b.thread_stack_size ≡ s
    held_io : b.enable_io ≡ io
    held_time : b.enable_time ≡ time

  apply_all-Holds :
      (ss : List (Setter N)) (b : WorldBuilder N) (w k s : Option ℕ) (io time : Bool)
      → Holds b w k s io time
      → Holds
          (apply_all ss b)
          (last_workers w ss)
          (last_blocking k ss)
          (last_stack s ss)
          (wants_io io ss)
          (wants_time time ss)
  unfolding apply_all
  apply_all-Holds [] b w k s io time h = h
  apply_all-Holds (set_worker_threads n ∷ ss) b w k s io time h =
      apply_all-Holds ss _ (some n) k s io time (ground arith)
  apply_all-Holds (set_max_blocking_threads n ∷ ss) b w k s io time h =
      apply_all-Holds ss _ w (some n) s io time (ground arith)
  apply_all-Holds (set_thread_name n ∷ ss) b w k s io time h =
      apply_all-Holds ss _ w k s io time (ground arith)
  apply_all-Holds (set_thread_name_fn n ∷ ss) b w k s io time h =
      apply_all-Holds ss _ w k s io time (ground arith)
  apply_all-Holds (set_thread_stack_size n ∷ ss) b w k s io time h =
      apply_all-Holds ss _ w k (some n) io time (ground arith)
  apply_all-Holds (set_enable_time ∷ ss) b w k s io time h =
      apply_all-Holds ss _ w k s io true (ground arith)
  apply_all-Holds (set_enable_io ∷ ss) b w k s io time h =
      apply_all-Holds ss _ w k s true time (ground arith)

  unwrap_settings :
      (b : WorldBuilder N)
      → (workers (unwrap b) ≡ once b.worker_threads)
        × (blocking (unwrap b) ≡ once b.max_blocking_threads)
        × (stacks (unwrap b) ≡ once b.thread_stack_size)
        × (ios (unwrap b) ≡ once_if b.enable_io)
        × (times (unwrap b) ≡ once_if b.enable_time)
  unfolding unwrap
  unwrap_settings b = (ground arith, ground arith, ground arith, ground arith, ground arith)

  -- Whatever setters are called, in whatever order: the runtime gets each setting at most once, as
  -- the last call asked for it; a number of threads of 0 becomes 1; and what was not asked for is
  -- left to the runtime.
  pub unwrap-apply_all :
      (ss : List (Setter N))
      → let cs = unwrap (apply_all ss new) in
        (workers cs ≡ once_clamped (last_workers none ss))
        × (blocking cs ≡ once_clamped (last_blocking none ss))
        × (stacks cs ≡ once (last_stack none ss))
        × (ios cs ≡ once_if (wants_io false ss))
        × (times cs ≡ once_if (wants_time false ss))
  unwrap-apply_all ss =
      let start : Holds new none none none false false = (unfold new in ground arith) in
      let h = apply_all-Holds ss new none none none false false start in
      let (ws, ks, st, io, ti) = unwrap_settings (apply_all ss new) in
      (
        ws ∙ h.held_workers,
        ks ∙ h.held_blocking,
        st ∙ ap once h.held_stack,
        io ∙ ap once_if h.held_io,
        ti ∙ ap once_if h.held_time,
      )

-- ===== src/World.antt =====
-- src/world/builder.rs: how a runtime is configured. The builder of tokio is the list of the calls
-- that are made on it, in their order.
pub mod Settings
pub mod Connection
pub mod Inputs
use tokactor.Common.{
  ℕ, zero, suc, Bool, true, false, Option, none, some, List, [], ◌∷◌, ◌++◌, if◌then◌else◌, ◌==◌,
}

-- A thread's name, as a text `N` or as a function that makes one.
pub data ThreadName (N : Type 0) : Type 0 where
  string : N → ThreadName N
  fn : (Unit {0} → N) → ThreadName N

pub record WorldBuilder (N : Type 0) : Type 0 where
  pub worker_threads : Option ℕ
  pub max_blocking_threads : Option ℕ
  pub thread_name : Option (ThreadName N)
  pub thread_stack_size : Option ℕ
  pub enable_time : Bool
  pub enable_io : Bool

-- A call on `tokio::runtime::Builder`.
pub data Call (N : Type 0) : Type 0 where
  worker_threads : ℕ → Call N
  max_blocking_threads : ℕ → Call N
  thread_name : N → Call N
  thread_name_fn : (Unit {0} → N) → Call N
  thread_stack_size : ℕ → Call N
  enable_io : Call N
  enable_time : Call N

-- The setters of `WorldBuilder`.
pub data Setter (N : Type 0) : Type 0 where
  set_worker_threads : ℕ → Setter N
  set_max_blocking_threads : ℕ → Setter N
  set_thread_name : N → Setter N
  set_thread_name_fn : (Unit {0} → N) → Setter N
  set_thread_stack_size : ℕ → Setter N
  set_enable_time : Setter N
  set_enable_io : Setter N

module _ {N : Type 0} where
  unfoldable pub new : WorldBuilder N
  new = record {
    worker_threads = none;
    max_blocking_threads = none;
    thread_name = none;
    thread_stack_size = none;
    enable_time = false;
    enable_io = false;
  }

  unfoldable pub apply : Setter N → WorldBuilder N → WorldBuilder N
  apply (set_worker_threads size) b =
      if size == 0
      then record b { worker_threads = some 1 }
      else record b { worker_threads = some size }
  apply (set_max_blocking_threads size) b =
      if size == 0
      then record b { max_blocking_threads = some 1 }
      else record b { max_blocking_threads = some size }
  apply (set_thread_name name) b = record b { thread_name = some (string name) }
  apply (set_thread_name_fn f) b = record b { thread_name = some (fn f) }
  apply (set_thread_stack_size size) b = record b { thread_stack_size = some size }
  apply set_enable_time b = record b { enable_time = true }
  apply set_enable_io b = record b { enable_io = true }

  unfoldable pub apply_all : List (Setter N) → WorldBuilder N → WorldBuilder N
  unfolding apply
  apply_all [] b = b
  apply_all (s ∷ ss) b = apply_all ss (apply s b)

  abbrev call_with : {A : Type 0} → (A → Call N) → Option A → List (Call N)
  call_with f none = []
  call_with f (some a) = f a ∷ []

  abbrev call_name : ThreadName N → Call N
  call_name (string name) = thread_name name
  call_name (fn f) = thread_name_fn f

  abbrev call_if : Bool → Call N → List (Call N)
  call_if true c = c ∷ []
  call_if false c = []

  -- `WorldBuilder::unwrap`, up to `builder.build()`
  unfoldable pub unwrap : WorldBuilder N → List (Call N)
  unwrap b =
      call_with worker_threads b.worker_threads
      ++ (call_with max_blocking_threads b.max_blocking_threads
          ++ (call_with call_name b.thread_name
              ++ (call_with thread_stack_size b.thread_stack_size
                  ++ (call_if b.enable_io enable_io ++ call_if b.enable_time enable_time))))

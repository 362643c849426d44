-- ===== src/Tokio.antt =====
-- The parts of the tokio crate that an actor's context is built on, as a parameter: the mpsc channel
-- (its mailbox), the watch channel (how it notifies its children) and the semaphore (the permits of
-- its anonymous actors). `Tokio` has the operations and the quantities that the documentation
-- speaks of; `TokioLaws` states what the documentation promises about them.
pub mod Simple
pub mod Room
pub mod Recording
use tokactor.Common.{
  ℕ, suc, ◌≤◌, ◌<◌, ◌+◌, ◌-◌, ◌≡◌, ◌≢◌, Bool, true, false, Option, none, some, List, [], ◌∷◌, ◌++◌,
  length,
}

-- What a supervisor sends to its children (src/context.rs).
pub data SupervisorMessage : Type 0 where
  shutdown : SupervisorMessage

-- `Result<(), TrySendError<M>>` of `Sender::try_send`.
pub data TrySend (M : Type 0) : Type 0 where
  sent : TrySend M
  full : M → TrySend M
  closed : M → TrySend M

pub record Tokio (M Chan W S : Type 0) : Type 0 where
  -- mpsc
  pub channel : ℕ → Chan
  pub queue : Chan → List M
  pub capacity : Chan → ℕ
  pub is_closed : Chan → Bool
  pub try_send : M → Chan → TrySend M × Chan
  pub try_recv : Chan → Option M × Chan
  pub close : Chan → Chan
  -- watch
  pub watch : W
  pub receivers : W → ℕ
  pub subscribe : W → W
  pub drop_receiver : W → W
  pub notify : SupervisorMessage → W → W
  -- semaphore
  pub semaphore : ℕ → S
  pub available_permits : S → ℕ
  pub try_acquire : S → Bool × S
  pub release : S → S
  -- the semaphore once so many permits could be had (and were given back)
  pub acquire_many : ℕ → S → S

pub record TokioLaws {M Chan W S : Type 0} (t : Tokio M Chan W S) : Type 0 where
  pub queue-channel : (n : ℕ) → t.queue (t.channel n) ≡ []
  pub capacity-channel : (n : ℕ) → t.capacity (t.channel n) ≡ n
  pub is_closed-channel : (n : ℕ) → t.is_closed (t.channel n) ≡ false
  -- a closed channel hands the message back
  pub try_send_closed : (m : M) (c : Chan) → t.is_closed c ≡ true → t.try_send m c ≡ (closed m, c)
  pub try_send_full :
      (m : M) (c : Chan)
      → t.is_closed c ≡ false
      → t.capacity c ≤ length (t.queue c)
      → t.try_send m c ≡ (full m, c)
  -- otherwise the message goes to the end of the queue
  pub try_send_sent :
      (m : M) (c : Chan)
      → t.is_closed c ≡ false
      → length (t.queue c) < t.capacity c
      → (t.try_send m c).0 ≡ sent
  pub queue-try_send :
      (m : M) (c : Chan)
      → t.is_closed c ≡ false
      → length (t.queue c) < t.capacity c
      → t.queue (t.try_send m c).1 ≡ t.queue c ++ m ∷ []
  pub capacity-try_send : (m : M) (c : Chan) → t.capacity (t.try_send m c).1 ≡ t.capacity c
  pub is_closed-try_send : (m : M) (c : Chan) → t.is_closed (t.try_send m c).1 ≡ t.is_closed c
  -- messages come out in the order in which they went in, also of a closed channel
  pub try_recv_none : (c : Chan) → t.queue c ≡ [] → t.try_recv c ≡ (none, c)
  pub try_recv_some :
      (c : Chan) (m : M) (ms : List M) → t.queue c ≡ m ∷ ms → (t.try_recv c).0 ≡ some m
  pub queue-try_recv :
      (c : Chan) (m : M) (ms : List M) → t.queue c ≡ m ∷ ms → t.queue (t.try_recv c).1 ≡ ms
  pub is_closed-try_recv : (c : Chan) → t.is_closed (t.try_recv c).1 ≡ t.is_closed c
  pub capacity-try_recv : (c : Chan) → t.capacity (t.try_recv c).1 ≡ t.capacity c
  pub queue-close : (c : Chan) → t.queue (t.close c) ≡ t.queue c
  pub is_closed-close : (c : Chan) → t.is_closed (t.close c) ≡ true
  pub receivers-watch : t.receivers t.watch ≡ 0
  pub receivers-subscribe : (w : W) → t.receivers (t.subscribe w) ≡ suc (t.receivers w)
  pub receivers-drop : (w : W) → t.receivers (t.drop_receiver w) ≡ t.receivers w - 1
  pub receivers-notify :
      (m : SupervisorMessage) (w : W) → t.receivers (t.notify m w) ≡ t.receivers w
  pub permits-semaphore : (n : ℕ) → t.available_permits (t.semaphore n) ≡ n
  pub try_acquire_none : (s : S) → t.available_permits s ≡ 0 → t.try_acquire s ≡ (false, s)
  pub try_acquire_some : (s : S) → t.available_permits s ≢ 0 → (t.try_acquire s).0 ≡ true
  pub permits-try_acquire :
      (s : S) → t.available_permits (t.try_acquire s).1 ≡ t.available_permits s - 1
  pub permits-release : (s : S) → t.available_permits (t.release s) ≡ suc (t.available_permits s)
  -- waiting for permits takes none away for good
  pub permits-acquire_many : (n : ℕ) (s : S) → n ≤ t.available_permits (t.acquire_many n s)
  pub permits-acquire_many_now :
      (n : ℕ) (s : S)
      → n ≤ t.available_permits s
      → t.available_permits (t.acquire_many n s) ≡ t.available_permits s

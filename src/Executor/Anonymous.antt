-- ===== src/Executor/Anonymous.antt =====
-- src/executor.rs, `check_anonymous_actors`.
use tokactor.Common.{ℕ, ◌-◌, ◌^◌, ◌≤◌, ◌<◌, ◌≡◌, min, ok, arith, if◌then◌else◌, ◌==◌}
use tokactor.Tokio.{Tokio}
use tokactor.Message.{SendMessage}
use tokactor.Actor.{Actor}
use tokactor.Context.{Ctx}
use tokactor.Executor.{check_anonymous_actors}

module _ {A U R Chan W S : Type 0} (tk : Tokio (SendMessage U) Chan W S) (act : Actor A U R) where
  -- The anonymous actors that hold a permit.
  abbrev pub running_tasks : Ctx R Chan W S → ℕ
  running_tasks c = act.max_anonymous_actors - tk.available_permits c.max_anonymous_actors

  -- How many permits the overflow asks for.
  abbrev pub asked : Ctx R Chan W S → ℕ
  asked c = min c.overflow_anonymous_actors (running_tasks c)

  abbrev pub settle : Ctx R Chan W S → Ctx R Chan W S
  settle c = record c {
    max_anonymous_actors = tk.acquire_many (asked c) c.max_anonymous_actors;
    overflow_anonymous_actors = c.overflow_anonymous_actors - asked c;
  }

  -- With no more permits than the maximum, and fewer than 2^32 anonymous actors running, the four
  -- branches of `check_anonymous_actors` are one: with no overflow nothing happens, and otherwise it
  -- waits for as many permits as the smaller of the overflow and the running actors, and takes
  -- that number off the overflow. No subtraction falls below zero.
  pub check_anonymous_actors-settle :
      (c : Ctx R Chan W S)
      → tk.available_permits c.max_anonymous_actors ≤ act.max_anonymous_actors
      → running_tasks c < 2 ^ 32
      → check_anonymous_actors tk act c
        ≡ ok (if c.overflow_anonymous_actors == 0 then c else settle c)
  unfolding check_anonymous_actors
  check_anonymous_actors-settle c few small = ground arith

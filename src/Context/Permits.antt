-- ===== src/Context/Permits.antt =====
-- src/context.rs, `acquire_anonymous_permit`: what becomes of the permits of anonymous actors.
use tokactor.Common.{
  ℕ, ◌+◌, ◌%◌, ◌^◌, ◌≡◌, Bool, true, false, List, [], ◌∷◌, ◌++◌, ok, >>=-eq-ok, arith,
}
use tokactor.Tokio.{Tokio, TokioLaws}
use tokactor.Message.{SendMessage}
use tokactor.Actor.{Actor, Command, anonymous, anonymous_task, anonymous_handle}
use tokactor.Context.{
  Task, child, message_task, unit_task, handle_task, Effect, starts, replies, Ctx, new, run_command,
  run_commands,
}

-- The permits that a task holds, and the permits that it should have had.
abbrev pub with_permit : Task → ℕ
with_permit (message_task true) = 1
with_permit (unit_task true) = 1
with_permit (handle_task true) = 1
with_permit _ = 0

abbrev without_permit : Task → ℕ
without_permit (message_task false) = 1
without_permit (unit_task false) = 1
without_permit (handle_task false) = 1
without_permit _ = 0

module _ {R : Type 0} where
  abbrev pub tally : (Task → ℕ) → List (Effect R) → ℕ
  tally w [] = 0
  tally w (starts t ∷ es) = w t + tally w es
  tally w (replies tx r ∷ es) = tally w es

  tally-append :
      (w : Task → ℕ) (es : List (Effect R)) (e : Effect R)
      → tally w (es ++ e ∷ []) ≡ tally w es + tally w (e ∷ [])
  tally-append w [] e = omega arith
  tally-append w (starts t ∷ es) e = omega (arith, tally-append w es e)
  tally-append w (replies tx r ∷ es) e = tally-append w es e

-- The task that each command may start.
abbrev task_of : Command → Bool → Task
task_of anonymous = message_task
task_of anonymous_task = unit_task
task_of anonymous_handle = handle_task
task_of _ = λ _. child

tally-start :
    {R : Type 0} (w : Task → ℕ) (k : Command) (permit : Bool) (es : List (Effect R))
    → tally w (es ++ starts (task_of k permit) ∷ []) ≡ tally w es + w (task_of k permit)
tally-start w k permit es = omega (arith, tally-append w es (starts (task_of k permit)))

module _ {U R Chan W S : Type 0} (tk : Tokio (SendMessage U) Chan W S) where
  -- Every anonymous actor that was started holds one of the permits or is counted as overflow.
  pub record Accounted (max : ℕ) (c : Ctx R Chan W S) : Type 0 where
    pub permits : tk.available_permits c.max_anonymous_actors + tally with_permit c.effects ≡ max
    pub overflow : c.overflow_anonymous_actors ≡ tally without_permit c.effects % 2 ^ 64

module _ {U R Chan W S : Type 0} (tk : Tokio (SendMessage U) Chan W S) (laws : TokioLaws tk) where
  new-Accounted :
      {A : Type 0} (act : Actor A U R) → Accounted tk act.max_anonymous_actors (new tk act)
  unfolding new
  new-Accounted act = ground (arith, laws.permits-semaphore act.max_anonymous_actors)

  run_command-Accounted :
      (max : ℕ) (k : Command) (c d : Ctx R Chan W S)
      → run_command tk k c ≡ ok d
      → Accounted tk max c
      → Accounted tk max d
  unfolding run_command
  run_command-Accounted max k c d h v = ground (
    arith,
    laws.try_acquire_none c.max_anonymous_actors,
    laws.try_acquire_some c.max_anonymous_actors,
    laws.permits-try_acquire c.max_anonymous_actors,
    tally-start with_permit k true c.effects,
    tally-start with_permit k false c.effects,
    tally-start without_permit k true c.effects,
    tally-start without_permit k false c.effects,
  )

  run_commands-keeps :
      (max : ℕ) (ks : List Command) (c d : Ctx R Chan W S)
      → run_commands tk ks c ≡ ok d
      → Accounted tk max c
      → Accounted tk max d
  unfolding run_commands
  run_commands-keeps max [] c d h v = ground (arith, v)
  run_commands-keeps max (k ∷ ks) c d h v =
      let (e, first, rest) = >>=-eq-ok (run_command tk k c) (run_commands tk ks) h in
      run_commands-keeps max ks e d rest (run_command-Accounted max k c e first v)

  -- From a new context on, whatever calls user code makes: each anonymous actor that it started
  -- holds one of the `max_anonymous_actors` permits, or is counted as overflow (modulo 2^64), and
  -- permits given out and permits left add up to the maximum.
  pub run_commands-Accounted :
      {A : Type 0} (act : Actor A U R) (ks : List Command) (d : Ctx R Chan W S)
      → run_commands tk ks (new tk act) ≡ ok d
      → Accounted tk act.max_anonymous_actors d
  run_commands-Accounted act ks d h =
      run_commands-keeps act.max_anonymous_actors ks (new tk act) d h (new-Accounted act)

-- ===== src/Executor/Mailbox.antt =====
-- src/executor.rs and src/envelope.rs: what processing a message can do to the mailbox. It sends to it,
-- or closes it; so what these two keep up, every message does.
pub mod Messages
use tokactor.Common.{
  ℕ, ◌≡◌, subst, Bool, true, false, Option, none, some, List, [], ◌∷◌, Flow, ok, panicked, blocked,
  ◌>>=◌, >>=-eq-ok, if◌then◌else◌, refl, inl, inr, Bool-cases,
}
use tokactor.Tokio.{Tokio, TrySend, sent, full, closed}
use tokactor.Message.{
  SendMessage, envelope, response, async_response, shutdown_envelope, cancelled_envelope, unwrap,
  reveal, confide, cancel, ActorState, running, stopping, stopped, IntoFutureShutdown,
}
use tokactor.Actor.{
  Actor, Command, stop, abort, spawn, anonymous, anonymous_task, anonymous_handle, AskResult, reply,
  task, Raced, changed, unending,
}
use tokactor.Actor
use tokactor.Executor.Calls.{Each, Makes, MakesAsked}
use tokactor.Context.{
  Ctx, child, start, run_command, run_commands, abort_from, subscribe_and_stop, subscribe_and_wait,
  anonymous_ctx, unit_task, message_task, handle_task, Task, is_running, stop_ctx, abort_ctx,
  spawn_task, acquire_anonymous_permit,
}
use tokactor.Executor.{
  Executor, ExecutorLoop, take_tx, react, react_ask, finish_ask, note_self, finish_async, send,
  scheduler, is_awaited, run_message, process_message, private_shutdown,
}

module _ {A U R Chan W S : Type 0} (tk : Tokio (SendMessage U) Chan W S) (act : Actor A U R)
    (P : Chan → Type 0) (sends : (m : SendMessage U) (c : Chan) → P c → P (tk.try_send m c).1)
    (Allowed : Command → Type 0) (closes : Allowed abort → (c : Chan) → P c → P (tk.close c)) where
  abbrev pub Holds : Executor A R Chan W S → Type 0
  Holds x = P x.context.mailbox

  abbrev pub Keeps : Flow (Executor A R Chan W S) → Type 0
  Keeps (ok y) = Holds y
  Keeps panicked = Unit
  Keeps blocked = Unit

  pub Keeps-bind :
      (m : Flow (Executor A R Chan W S)) (f : Executor A R Chan W S → Flow (Executor A R Chan W S))
      → Keeps m
      → ((y : Executor A R Chan W S) → Holds y → Keeps (f y))
      → Keeps (m >>= f)
  Keeps-bind (ok y) f p q = q y p
  Keeps-bind panicked f p q = tt
  Keeps-bind blocked f p q = tt

  pub Keeps-const :
      {B : Type 0} (m : Flow B) (f : B → Flow (Executor A R Chan W S))
      → ((b : B) → Keeps (f b))
      → Keeps (m >>= f)
  Keeps-const (ok b) f q = q b
  Keeps-const panicked f q = tt
  Keeps-const blocked f q = tt

  abort_from-Holds :
      Allowed abort
      → (s : ActorState) (c : Ctx R Chan W S) → P c.mailbox
      → P (abort_from tk s c).mailbox
  abort_from-Holds ok_ running c p = closes ok_ c.mailbox p
  abort_from-Holds ok_ stopping c p = closes ok_ c.mailbox p
  abort_from-Holds ok_ stopped c p = p

  anonymous_ctx-Holds :
      (t : Bool → Task) (c : Ctx R Chan W S) → P c.mailbox → P (anonymous_ctx tk t c).mailbox
  unfolding anonymous_ctx acquire_anonymous_permit
  anonymous_ctx-Holds t c p = elim (Bool-cases (tk.try_acquire c.max_anonymous_actors).0) [
    | inl got ↦ rw got p
    | inr none_left ↦ rw none_left p
  ]

  same :
      {c : Ctx R Chan W S} (d : Ctx R Chan W S)
      → ◌≡◌ {A = Flow _} (ok c) (ok d)
      → P c.mailbox
      → P d.mailbox
  same {c} d h p = let eq : c ≡ d = cc h in subst (λ z. P z.mailbox) eq p

  run_command-Holds :
      (k : Command) (c d : Ctx R Chan W S)
      → Allowed k
      → P c.mailbox
      → run_command tk k c ≡ ok d
      → P d.mailbox
  unfolding run_command stop_ctx abort_ctx spawn_task
  run_command-Holds stop c d may p h = elim (Bool-cases (is_running c.state)) [
    | inl runs ↦ same d (rw runs at h) p
    | inr done ↦ same d (rw done at h) p
  ]
  run_command-Holds abort c d may p h = same d h (abort_from-Holds may c.state c p)
  run_command-Holds spawn c d may p h = elim (Bool-cases (is_running c.state)) [
    | inl runs ↦ same d (rw runs at h) p
    | inr done ↦ cc (rw done at h)
  ]
  run_command-Holds anonymous c d may p h = same d h (anonymous_ctx-Holds message_task c p)
  run_command-Holds anonymous_task c d may p h = same d h (anonymous_ctx-Holds unit_task c p)
  run_command-Holds anonymous_handle c d may p h = same d h (anonymous_ctx-Holds handle_task c p)

  run_commands-Holds :
      (ks : List Command) (c d : Ctx R Chan W S)
      → Each Allowed ks
      → P c.mailbox
      → run_commands tk ks c ≡ ok d
      → P d.mailbox
  unfolding run_commands Each
  run_commands-Holds [] c d may p h = same d h p
  run_commands-Holds (k ∷ ks) c d (may, more) p h =
      let (e, first, rest) = >>=-eq-ok (run_command tk k c) (run_commands tk ks) h in
      run_commands-Holds ks e d more (run_command-Holds k c e may p first) rest

  pub react-Keeps :
      (r : Option (A × List Command)) (x : Executor A R Chan W S)
      → Makes Allowed r
      → Holds x
      → Keeps (react tk act r x)
  react-Keeps none x may p = tt
  react-Keeps (some (a, ks)) x may p =
      commands (run_commands tk ks x.context) λ d h. run_commands-Holds ks x.context d may p h
    where
      commands :
          (r : Flow (Ctx R Chan W S))
          → ((d : Ctx R Chan W S) → r ≡ ok d → P d.mailbox)
          → Keeps (r >>= λ c. ok (record x { actor = a; context = c }))
      commands (ok d) q = q d refl
      commands panicked q = tt
      commands blocked q = tt

  pub react_ask-Keeps :
      (r : Option (A × List Command × AskResult R)) (tx : ℕ) (x : Executor A R Chan W S)
      → MakesAsked Allowed r
      → Holds x
      → Keeps (react_ask tk act r tx x)
  react_ask-Keeps none tx x may p = tt
  react_ask-Keeps (some (a, ks, result)) tx x may p =
      Keeps-bind (react tk act (some (a, ks)) x) _ (react-Keeps (some (a, ks)) x may p)
        λ y q. finished result y q
    where
      finished :
          (result : AskResult R) (y : Executor A R Chan W S)
          → Holds y
          → Holds (finish_ask tk act result tx y)
      finished (reply r) y q = q
      finished task y q = anonymous_ctx-Holds unit_task y.context q

  note_self-Keeps :
      (t : TrySend (SendMessage U) × Chan) (x : Executor A R Chan W S)
      → Holds x
      → P t.1
      → Keeps (note_self tk act t x)
  note_self-Keeps (sent, c) x p q = q
  note_self-Keeps (closed m, c) x p q = p
  note_self-Keeps (full m, c) x p q = tt

  pub finish_async-Keeps :
      (r : Option (A × Raced R)) (tx : ℕ) (x : Executor A R Chan W S)
      → Holds x
      → Keeps (finish_async tk act r tx x)
  finish_async-Keeps none tx x p = tt
  finish_async-Keeps (some (a, Actor.response r)) tx x p = p
  finish_async-Keeps (some (a, unending)) tx x p = tt
  finish_async-Keeps (some (a, changed)) tx x p =
      note_self-Keeps (tk.try_send (cancelled_envelope (confide cancel)) x.context.mailbox)
        (record x { actor = a }) p (sends _ x.context.mailbox p)

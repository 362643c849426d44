-- ===== src/Executor/Quiet.antt =====
-- src/executor.rs: an actor that handles every message, and how it shuts down.
use tokactor.Common.{
  ℕ, zero, suc, ◌+◌, ◌≡◌, refl, ap, ◌∙◌, true, some, List, [], ◌∷◌, ◌++◌, map, length, ok, ◌>>=◌,
  if◌then◌else◌, arith,
}
use tokactor.Tokio.{Tokio, TokioLaws}
use tokactor.Message.{SendMessage, envelope, enclose}
use tokactor.Actor.{Actor}
use tokactor.Context.{run_commands, is_running}
use tokactor.Executor.{Executor, continue, break, send, run_message, process_message}
use tokactor.Executor.Awaits.{ready}
use tokactor.Executor.Loops.{drain, shutdown_executor}
use tokactor.Executor.Shutdown.{drain_empty, drain_first, taken}
use tokactor.Executor.Silent.{Silent, to_drain, shutdown_silent}

module _ {A U R : Type 0} (act : Actor A U R) (f : U → A → A) where
  -- Every message is handled, and no callback does anything.
  pub record Quiet : Type 0 where
    pub silent : Silent act
    pub handle : (u : U) (a : A) → act.handle u a ≡ some (f u a, [])

-- The messages handled one after another.
abbrev pub handle_all : {A U : Type 0} → (U → A → A) → List U → A → A
handle_all f [] a = a
handle_all f (u ∷ us) a = handle_all f us (f u a)

pub handle_all-append :
    {A U : Type 0} (f : U → A → A) (us vs : List U) (a : A)
    → handle_all f (us ++ vs) a ≡ handle_all f vs (handle_all f us a)
handle_all-append f [] vs a = refl
handle_all-append f (u ∷ us) vs a = handle_all-append f us vs (f u a)

-- The messages in a mailbox.
abbrev pub posted : {U : Type 0} → List U → List (SendMessage U)
posted us = map (λ u. envelope (enclose u)) us

module _ {A U R Chan W S : Type 0} (tk : Tokio (SendMessage U) Chan W S) (act : Actor A U R)
    (laws : TokioLaws tk) (f : U → A → A) (q : Quiet act f) where
  -- The executor whose actor has handled a message.
  abbrev pub moved : U → Executor A R Chan W S → Executor A R Chan W S
  moved u x = record x { actor = f u x.actor }

  pub process_posted :
      (u : U) (x : Executor A R Chan W S)
      → process_message tk act x (envelope (enclose u))
        ≡ ok (moved u x, if is_running x.context.state then continue else break)
  unfolding process_message run_message send run_commands
  process_posted u x =
      rw (q.silent.pre_run x.actor, q.handle u x.actor, q.silent.post_run (f u x.actor)) refl

  pub drain-posted :
      (vs : List U) (x : Executor A R Chan W S) (fuel : ℕ)
      → tk.queue x.context.mailbox ≡ posted vs
      → tk.is_closed x.context.mailbox ≡ true
      → length vs + 1 ≡ fuel
      → (y : Executor A R Chan W S) × (drain tk act fuel x ≡ ok y)
        × (y.actor ≡ handle_all f vs x.actor)
        × (y.context.into_future_sender ≡ x.context.into_future_sender)
  drain-posted [] x zero e shut h = absurd (omega (arith, h))
  drain-posted [] x (suc n) e shut h = (x, drain_empty tk act laws n x e shut, refl, refl)
  drain-posted (v ∷ vs) x zero e shut h = absurd (omega (arith, h))
  drain-posted (v ∷ vs) x (suc n) e shut h =
      let c = x.context.mailbox in
      let x₁ = moved v (taken tk act laws x) in
      let (y, done, end, kept) =
        drain-posted vs x₁ n (laws.queue-try_recv c _ _ e) (laws.is_closed-try_recv c ∙ shut)
          (omega (arith, h)) in
      (
        y,
        drain_first tk act laws n x (envelope (enclose v)) (posted vs) e
            ∙ ap (λ r. r >>= λ p. drain tk act n p.0) (process_posted v (taken tk act laws x))
            ∙ done,
        end,
        kept,
      )

  length-posted : (vs : List U) → length (posted vs) ≡ length vs
  length-posted [] = refl
  length-posted (v ∷ vs) = ap suc (length-posted vs)

  pub shutdown_quiet :
      (vs : List U) (x : Executor A R Chan W S)
      → tk.queue x.context.mailbox ≡ posted vs
      → tk.receivers x.context.notifier ≡ 0
      → (y : Executor A R Chan W S) × (shutdown_executor tk act x [] ≡ ready y [])
        × (y.actor ≡ handle_all f vs x.actor)
        × (y.context.into_future_sender ≡ x.context.into_future_sender)
  shutdown_quiet vs x e alone =
      let c = x.context.mailbox in
      let held = laws.queue-close c ∙ e in
      let (y, drained, end, kept) =
        drain-posted vs (to_drain tk act laws q.silent x) (suc (length (tk.queue (tk.close c))))
          held (laws.is_closed-close c) (omega (arith, ap length held, length-posted vs)) in
      (y, shutdown_silent tk act laws q.silent x y [] alone drained, end, kept)

-- ===== src/Executor/Terminating.antt =====
-- src/executor.rs, `shutdown`: that it comes to an end.
use tokactor.Common.{
  ◌≡◌, ◌≢◌, refl, true, false, Option, none, some, List, Flow, ok, panicked, blocked, ◌>>=◌, arith,
}
use tokactor.Tokio.{Tokio, TokioLaws}
use tokactor.Message.{SendMessage, stopping, stopped}
use tokactor.Actor.{Actor, Command, Prompt}
use tokactor.Context.{run_commands}
use tokactor.Executor.{Executor, react}
use tokactor.Executor.Awaits.{Event, Outcome, ready, panics, lift, and_then}
use tokactor.Executor.Loops.{
  has_children, with_mailbox, with_state, stopping_loop, stop, stopped_phase, shutdown_executor,
}
use tokactor.Executor.Reaching.{run_commands-ne-blocked}
use tokactor.Executor.Shutdown.{stop-ne-blocked}
use tokactor.Executor.Ending.{react-Progress}

bind-ne-blocked :
    {X Y : Type 0} (m : Flow X) (f : X → Flow Y)
    → m ≢ blocked
    → ((x : X) → m ≡ ok x → f x ≢ blocked)
    → (m >>= f) ≢ blocked
bind-ne-blocked (ok x) f p q e = q x refl e
bind-ne-blocked panicked f p q e = cc
bind-ne-blocked blocked f p q e = p refl

module _ {A U R Chan W S : Type 0} (tk : Tokio (SendMessage U) Chan W S) (act : Actor A U R)
    (laws : TokioLaws tk) where
  pub react-ne-blocked :
      (r : Option (A × List Command)) (x : Executor A R Chan W S) → react tk act r x ≢ blocked
  react-ne-blocked none x e = cc
  react-ne-blocked (some (a, ks)) x e =
      bind-ne-blocked (run_commands tk ks x.context) _
        (run_commands-ne-blocked tk act laws ks x.context) (λ c made e'. cc) e

  pub stopped_phase-ne-blocked :
      (x : Executor A R Chan W S)
      → Prompt act
      → tk.is_closed x.context.mailbox ≡ true
      → stopped_phase tk act x ≢ blocked
  unfolding stopped_phase
  stopped_phase-ne-blocked x prompt shut =
      let x₁ = with_state tk act stopped x in
      bind-ne-blocked (react tk act (act.on_stopped x.actor) x₁) _
        (react-ne-blocked (act.on_stopped x.actor) x₁)
        λ z ran.
          bind-ne-blocked (stop tk act z) _
            (stop-ne-blocked tk act laws z prompt
              ((react-Progress tk act laws (act.on_stopped x.actor) x₁ z ran).closed shut))
            λ w stopped_. react-ne-blocked (act.on_end w.actor) w

  -- The outcomes of code that is over: it returned or it panicked.
  pub data Over {X : Type 0} : Outcome U X → Type 0 where
    returned : {x : X} {es : List (Event U)} → Over (ready x es)
    panicked_ : Over panics

  pub lift-Over : {X : Type 0} (m : Flow X) (es : List (Event U)) → m ≢ blocked → Over (lift m es)
  lift-Over (ok x) es p = returned
  lift-Over panicked es p = panicked_
  lift-Over blocked es p = absurd (p refl)

  -- An actor that has no children left once `on_stopping` is done ends at once, whatever its
  -- mailbox holds and whatever its callbacks and handlers do, if no future of its handlers waits for good:
  -- `shutdown` returns or panics.
  pub shutdown_executor-Over :
      (x : Executor A R Chan W S) (es : List (Event U))
      → Prompt act
      → ((z : Executor A R Chan W S)
          → react tk act (act.on_stopping x.actor) (with_state tk act stopping x) ≡ ok z
          → tk.receivers z.context.notifier ≡ 0)
      → Over (shutdown_executor tk act x es)
  unfolding shutdown_executor stopping_loop
  shutdown_executor-Over x es prompt alone =
      over (react tk act (act.on_stopping x.actor) (with_state tk act stopping x))
        (react-ne-blocked (act.on_stopping x.actor) (with_state tk act stopping x)) alone
    where
      over :
          (m : Flow (Executor A R Chan W S))
          → m ≢ blocked
          → ((z : Executor A R Chan W S) → m ≡ ok z → tk.receivers z.context.notifier ≡ 0)
          → Over (
              and_then (lift m es) λ z rest.
                and_then
                  (stopping_loop tk act z rest)
                  λ w later. lift (stopped_phase tk act w) later)
      over (ok z) p q =
          let none_left : has_children tk act z ≡ false = ground (arith, q z refl) in
          let w = with_mailbox tk act (tk.close z.context.mailbox) z in
          rw none_left (
            lift-Over (stopped_phase tk act w) es
              (stopped_phase-ne-blocked w prompt (laws.is_closed-close z.context.mailbox)))
      over panicked p q = panicked_
      over blocked p q = absurd (p refl)

-- ===== src/Executor/Awaiting.antt =====
-- src/executor.rs: what becomes of an actor that is awaited.
use tokactor.Common.{
  ℕ, suc, ◌≡◌, refl, sym, ap, ◌∙◌, true, some, List, [], ◌∷◌, ◌++◌, length, replicate, ok, ◌>>=◌,
  arith,
}
use tokactor.Tokio.{Tokio, TokioLaws}
use tokactor.Message.{SendMessage, envelope, enclose, running, now, into_inner}
use tokactor.Actor.{Actor}
use tokactor.Context.{Ctx}
use tokactor.Address.{shutdown_message}
use tokactor.Executor.{Executor, process_message, check_anonymous_actors}
use tokactor.Executor.Awaits.{wakes, ready, drive}
use tokactor.Executor.Loops.{next, on_recv, check, actor_turn, run_actor, take_sender, handed}
use tokactor.Executor.Schedule.{drive_stay, drive_leave}
use tokactor.Executor.Shutdown.{poll_some, taken}
use tokactor.Executor.Quiet.{
  Quiet, handle_all, handle_all-append, posted, moved, process_posted, shutdown_quiet,
}
use tokactor.Executor.Silent.{asked, process_await, react_silent}

module _ {A U R Chan W S : Type 0} (tk : Tokio (SendMessage U) Chan W S) (act : Actor A U R)
    (laws : TokioLaws tk) where
  -- An executor that runs with no children and no overflow of anonymous actors.
  pub record Calm (x : Executor A R Chan W S) : Type 0 where
    pub runs : x.context.state ≡ running
    pub alone : tk.receivers x.context.notifier ≡ 0
    pub settled : x.context.overflow_anonymous_actors ≡ 0

  check-Calm : (x : Executor A R Chan W S) → Calm x → check tk act x ≡ ok x
  unfolding check_anonymous_actors
  check-Calm x v =
      ap (λ r. r >>= λ c. ok (record x { context = c })) (nothing_over x.context v.settled)
    where
      nothing_over :
          (c : Ctx R Chan W S)
          → c.overflow_anonymous_actors ≡ 0
          → check_anonymous_actors tk act c ≡ ok c
      nothing_over c h = ground (arith, h)

  pub turn_wakes :
      (x : Executor A R Chan W S) (m : SendMessage U) (ms : List (SendMessage U))
      → Calm x
      → tk.queue x.context.mailbox ≡ m ∷ ms
      → actor_turn tk act x wakes ≡ next tk act (process_message tk act (taken tk act laws x) m)
  unfolding actor_turn
  turn_wakes x m ms v e =
      let x₁ = taken tk act laws x in
      let calm : Calm x₁ = record { runs = v.runs; alone = v.alone; settled = v.settled } in
      ap (λ p. on_recv tk act p x) (poll_some tk act laws x.context.mailbox m ms e)
      ∙ ap (λ r. next tk act (r >>= λ y. process_message tk act y m)) (check-Calm x₁ calm)

module _ {A U R Chan W S : Type 0} (tk : Tokio (SendMessage U) Chan W S) (act : Actor A U R)
    (laws : TokioLaws tk) (f : U → A → A) (q : Quiet act f) where
  run_posted :
      (us vs : List U) (tx : ℕ) (x : Executor A R Chan W S)
      → Calm tk act laws x
      → tk.queue x.context.mailbox ≡ posted us ++ shutdown_message true tx ∷ posted vs
      → (y : Executor A R Chan W S) × (drive
            (actor_turn tk act)
            x
            (replicate (suc (length us)) wakes)
          ≡ ready y [])
        × (y.actor ≡ handle_all f us x.actor)
        × (tk.queue y.context.mailbox ≡ posted vs)
        × (tk.receivers y.context.notifier ≡ 0)
        × (y.context.into_future_sender ≡ some (now tx))
  run_posted [] vs tx x v e =
      let x₁ = taken tk act laws x in
      (
        asked tk act laws q.silent tx x₁,
        drive_leave (actor_turn tk act) x wakes [] (
            turn_wakes tk act laws x (shutdown_message true tx) (posted vs) v e
            ∙ ap (next tk act) (process_await tk act laws q.silent tx x₁ v.runs)),
        refl,
        laws.queue-try_recv x.context.mailbox _ _ e,
        v.alone,
        refl,
      )
  run_posted (u ∷ us) vs tx x v e =
      let x₁ = moved tk act laws f q u (taken tk act laws x) in
      let (y, ran, end, rest, alone, sender) =
        run_posted us vs tx x₁ (record { runs = v.runs; alone = v.alone; settled = v.settled })
          (laws.queue-try_recv x.context.mailbox _ _ e) in
      (
        y,
        drive_stay (actor_turn tk act) x wakes (replicate (suc (length us)) wakes) (
              turn_wakes tk act laws x (envelope (enclose u)) _ v e
              ∙ ap (next tk act) (process_posted tk act laws f q u (taken tk act laws x))
              ∙ rw v.runs refl)
            ∙ ran,
        end,
        rest,
        alone,
        sender,
      )

  -- An actor handles every message without a call on its context and its callbacks do nothing; it runs with
  -- no children and no overflow of anonymous actors, and its mailbox holds plain messages and one
  -- request to await it. It ends, once it has been polled for each message before the request and for
  -- the request. Who awaits it gets the actor in the state after all messages in its mailbox, also
  -- those behind the request, in the order in which they came.
  pub run_actor-awaited :
      (us vs : List U) (tx : ℕ) (x : Executor A R Chan W S)
      → Calm tk act laws x
      → tk.queue x.context.mailbox ≡ posted us ++ shutdown_message true tx ∷ posted vs
      → (y : Executor A R Chan W S) × (run_actor tk act x (replicate (suc (length us)) wakes)
          ≡ ready (y, some (tx, handle_all f (us ++ vs) x.actor)) [])
        × (y.actor ≡ handle_all f (us ++ vs) x.actor)
  unfolding run_actor
  run_actor-awaited us vs tx x v e =
      let (y, ran, mid, rest, alone, sender) = run_posted us vs tx x v e in
      let (z, ended_, end, kept) = shutdown_quiet tk act laws f q vs y rest alone in
      let final : z.actor ≡ handle_all f (us ++ vs) x.actor =
        end ∙ ap (handle_all f vs) mid ∙ sym (handle_all-append f us vs x.actor) in
      let sent_ : handed tk act z.context.into_future_sender z.actor
          ≡ some (tx, handle_all f (us ++ vs) x.actor) =
        rw (kept ∙ sender, final) (unfold into_inner in refl) in
      (
        (take_sender tk act z).0,
        rw
            (
              react_silent tk act laws q.silent (act.on_start x.actor) x
                  (q.silent.on_start x.actor),
              ran,
              ended_,
            )
            (ap (λ s. ready ((take_sender tk act z).0, s) []) sent_),
        final,
      )

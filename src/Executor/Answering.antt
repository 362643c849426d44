-- ===== src/Executor/Answering.antt =====
-- src/executor.rs and src/envelope.rs: which oneshot channels are answered while a message is processed.
use tokactor.Common.{
  ℕ, ◌≡◌, sym, ap, ◌∙◌, Bool, true, false, Option, none, some, List, [], ◌∷◌, ◌++◌, append-nil, ok,
  ◌>>=◌, >>=-eq-ok, if◌then◌else◌, arith,
}
use tokactor.Tokio.{Tokio, TrySend, sent, full, closed}
use tokactor.Message.{
  SendMessage, envelope, response, async_response, shutdown_envelope, cancelled_envelope, take,
  unwrap, reveal, confide, cancel, IntoFutureShutdown,
}
use tokactor.Actor.{Actor, Command, AskResult, reply, task, Raced, changed, unending}
use tokactor.Actor
use tokactor.Context.{
  replies, run_commands, stop_ctx, anonymous_ctx, acquire_anonymous_permit, unit_task,
  subscribe_and_stop, subscribe_and_wait,
}
use tokactor.Executor.{
  Executor, answer, take_tx, react, react_ask, finish_ask, note_self, finish_async,
  private_shutdown, send, scheduler, is_awaited, run_message,
}
use tokactor.Executor.Answers.{
  answers_in, answers_in-append, answers_in-starts, run_commands-answers, ask_answer, future_answer,
  async_answer, on_ask, on_async_ask, answers, prepared,
}

module _ {A U R Chan W S : Type 0} (tk : Tokio (SendMessage U) Chan W S) (act : Actor A U R) where
  -- The answers that an executor has sent.
  abbrev pub answered : Executor A R Chan W S → List (ℕ × R)
  answered x = answers_in x.context.effects

  react-answered :
      (r : Option (A × List Command)) (x y : Executor A R Chan W S)
      → react tk act r x ≡ ok y
      → (answered y ≡ answered x) × (y.actor ≡ prepared tk act r x.actor)
  react-answered none x y h = cc
  react-answered (some (a, ks)) x y h =
      let (c, ran, made) =
        >>=-eq-ok (run_commands tk ks x.context) (λ c. ok (record x { actor = a; context = c }))
          h in
      let same : record x { actor = a; context = c } ≡ y = cc made in
      (
        ap (λ z. answered z) (sym same) ∙ run_commands-answers tk ks x.context c ran,
        ap (λ z. z.actor) (sym same),
      )

  finish_ask-answered :
      (a : A) (ks : List Command) (result : AskResult R) (tx : ℕ) (z : Executor A R Chan W S)
      → answered (finish_ask tk act result tx z)
        ≡ answered z ++ ask_answer tk act tx (some (a, ks, result))
  unfolding anonymous_ctx acquire_anonymous_permit
  finish_ask-answered a ks (reply r) tx z = answers_in-append z.context.effects (replies tx r ∷ [])
  finish_ask-answered a ks task tx z =
      ground (
        arith,
        answers_in-starts z.context.effects (unit_task true),
        answers_in-starts z.context.effects (unit_task false),
      )
      ∙ sym (append-nil (answered z))

  react_ask-answered :
      (r : Option (A × List Command × AskResult R)) (tx : ℕ) (x y : Executor A R Chan W S)
      → react_ask tk act r tx x ≡ ok y
      → answered y ≡ answered x ++ ask_answer tk act tx r
  react_ask-answered none tx x y h = cc
  react_ask-answered (some (a, ks, result)) tx x y h =
      let (z, ran, made) =
        >>=-eq-ok (react tk act (some (a, ks)) x) (λ y. ok (finish_ask tk act result tx y)) h in
      let same : finish_ask tk act result tx z ≡ y = cc made in
      ap (λ w. answered w) (sym same)
      ∙ finish_ask-answered a ks result tx z
      ∙ ap (λ l. l ++ ask_answer tk act tx (some (a, ks, result)))
          (react-answered (some (a, ks)) x z ran).0

  note_self-answered :
      (p : TrySend (SendMessage U) × Chan) (x y : Executor A R Chan W S)
      → note_self tk act p x ≡ ok y
      → answered y ≡ answered x
  note_self-answered (sent, c) x y h = ground arith
  note_self-answered (closed m, c) x y h = ground arith
  note_self-answered (full m, c) x y h = cc

  finish_async-answered :
      (r : Option (A × Raced R)) (tx : ℕ) (x y : Executor A R Chan W S)
      → finish_async tk act r tx x ≡ ok y
      → answered y ≡ answered x ++ future_answer tk act tx r
  finish_async-answered none tx x y h = cc
  finish_async-answered (some (a, Actor.response r)) tx x y h =
      let same : answer tx r (record x { actor = a }) ≡ y = cc h in
      ap (λ w. answered w) (sym same) ∙ answers_in-append x.context.effects (replies tx r ∷ [])
  finish_async-answered (some (a, unending)) tx x y h = cc h
  finish_async-answered (some (a, changed)) tx x y h =
      note_self-answered (tk.try_send (cancelled_envelope (confide cancel)) x.context.mailbox)
        (record x { actor = a }) y h
      ∙ sym (append-nil (answered x))

  raced-answered :
      (r : Option (A × List Command)) (u : U) (tx : ℕ) (x z y : Executor A R Chan W S)
      → react tk act r x ≡ ok z
      → finish_async tk act (act.async_future u z.actor) tx z ≡ ok y
      → answered y ≡ answered x ++ async_answer tk act u tx r
  raced-answered none u tx x z y ran h = cc
  raced-answered (some (a, ks)) u tx x z y ran h =
      let (kept, moved) = react-answered (some (a, ks)) x z ran in
      finish_async-answered (act.async_future u z.actor) tx z y h
      ∙ ap (λ l. l ++ future_answer tk act tx (act.async_future u z.actor)) kept
      ∙ ap (λ b. answered x ++ future_answer tk act tx (act.async_future u b)) moved

  send-answered :
      (awaited : Bool) (m : SendMessage U) (x y : Executor A R Chan W S)
      → send tk act awaited m x ≡ ok y
      → answered y ≡ answered x ++ answers tk act awaited m x.actor
  unfolding send subscribe_and_stop subscribe_and_wait stop_ctx
  send-answered awaited (envelope e) x y h =
      let (u, there, ran) = >>=-eq-ok (unwrap e).0 (λ u. react tk act (act.handle u x.actor) x) h in
      (react-answered (act.handle u x.actor) x y ran).0 ∙ sym (append-nil (answered x))
  send-answered awaited (response e) x y h =
      let (u, there, h₁) =
        >>=-eq-ok (unwrap e.msg).0
          (λ u. take_tx e.tx >>= λ tx. react_ask tk act (act.ask u x.actor) tx x) h in
      let (tx, open_, ran) =
        >>=-eq-ok (take_tx e.tx) (λ tx. react_ask tk act (act.ask u x.actor) tx x) h₁ in
      react_ask-answered (act.ask u x.actor) tx x y ran
      ∙ ap (λ l. answered x ++ l) (question u tx there open_)
    where
      question :
          (u : U) (tx : ℕ)
          → take e.msg.msg ≡ ok u
          → take_tx e.tx ≡ ok tx
          → ask_answer tk act tx (act.ask u x.actor) ≡ on_ask tk act e.msg.msg e.tx x.actor
      question u tx p q = ground (arith, p, q)
  send-answered awaited (async_response e) x y h =
      let (u, there, h₁) = >>=-eq-ok (unwrap e.msg).0 _ h in
      let (tx, open_, h₂) = >>=-eq-ok (take_tx e.tx) _ h₁ in
      let (z, ran, h₃) = >>=-eq-ok (react tk act (act.async_ask u x.actor) x) _ h₂ in
      raced awaited u tx z there open_ ran h₃
    where
      question :
          (u : U) (tx : ℕ)
          → take e.msg.msg ≡ ok u
          → take_tx e.tx ≡ ok tx
          → async_answer tk act u tx (act.async_ask u x.actor)
            ≡ on_async_ask tk act e.msg.msg e.tx x.actor
      question u tx p q = ground (arith, p, q)

      raced :
          (awaited : Bool) (u : U) (tx : ℕ) (z : Executor A R Chan W S)
          → take e.msg.msg ≡ ok u
          → take_tx e.tx ≡ ok tx
          → react tk act (act.async_ask u x.actor) x ≡ ok z
          → (if awaited then finish_async tk act (act.async_future u z.actor) tx z else ok z) ≡ ok y
          → answered y ≡ answered x ++ answers tk act awaited (async_response e) x.actor
      raced true u tx z p q ran h =
          raced-answered (act.async_ask u x.actor) u tx x z y ran h
          ∙ ap (λ l. answered x ++ l) (question u tx p q)
      raced false u tx z p q ran h =
          let same : z ≡ y = cc h in
          ap (λ w. answered w) (sym same)
          ∙ (react-answered (act.async_ask u x.actor) x z ran).0
          ∙ sym (append-nil (answered x))
  send-answered awaited (shutdown_envelope e) x y h =
      let (m, there, made) =
        >>=-eq-ok (reveal e).0 (λ m. ok (record x { context = private_shutdown m x.context })) h in
      let same : record x { context = private_shutdown m x.context } ≡ y = cc made in
      ap (λ w. answered w) (sym same) ∙ kept m ∙ sym (append-nil (answered x))
    where
      kept :
          (m : IntoFutureShutdown) → answers_in (private_shutdown m x.context).effects ≡ answered x
      kept m = ground arith
  send-answered awaited (cancelled_envelope e) x y h =
      let (m, there, made) = >>=-eq-ok (reveal e).0 (λ m. ok x) h in
      let same : x ≡ y = cc made in ap (λ w. answered w) (sym same) ∙ sym (append-nil (answered x))

  -- A message that is processed adds exactly these answers to those that were sent: a question
  -- the reply that its handler gives in the state after `pre_run`, on the question's own channel
  -- and once; a question to an async handler what its future comes to, if the scheduler does not
  -- block; a question that is delegated to a task, one whose future was interrupted or never
  -- awaited, and any other message none.
  pub run_message-answers :
      (x : Executor A R Chan W S) (m : SendMessage U) (y : Executor A R Chan W S)
      → run_message tk act x m ≡ ok y
      → answered y
        ≡ answered x
          ++ answers tk act
              (is_awaited (scheduler tk act m))
              m
              (prepared tk act (act.pre_run x.actor) x.actor)
  unfolding run_message
  run_message-answers x m y h =
      let awaited = is_awaited (scheduler tk act m) in
      let (a, before, h₁) = >>=-eq-ok (react tk act (act.pre_run x.actor) x) _ h in
      let (b, during, after) = >>=-eq-ok (send tk act awaited m a) _ h₁ in
      let (kept, moved) = react-answered (act.pre_run x.actor) x a before in
      (react-answered (act.post_run b.actor) b y after).0
      ∙ send-answered awaited m a b during
      ∙ ap (λ l. l ++ answers tk act awaited m a.actor) kept
      ∙ ap (λ z. answered x ++ answers tk act awaited m z) moved

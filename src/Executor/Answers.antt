-- ===== src/Executor/Answers.antt =====
-- src/executor.rs and src/envelope.rs: the answers among the effects, and those that a message calls for.
use tokactor.Common.{
  ℕ, ◌≡◌, refl, ap, ◌∙◌, Bool, true, false, Option, none, some, List, [], ◌∷◌, ◌++◌, append-nil, ok,
  >>=-eq-ok, arith,
}
use tokactor.Tokio.{Tokio}
use tokactor.Message.{SendMessage, response, async_response}
use tokactor.Actor.{Actor, Command, AskResult, reply, task, Raced, changed}
use tokactor.Actor
use tokactor.Context.{
  Ctx, Effect, child, message_task, handle_task, starts, replies, run_command, run_commands,
  spawn_task, anonymous_ctx, acquire_anonymous_permit, unit_task,
}

module _ {R : Type 0} where
  -- The answers among the effects, oldest first.
  abbrev pub answers_in : List (Effect R) → List (ℕ × R)
  answers_in [] = []
  answers_in (starts t ∷ es) = answers_in es
  answers_in (replies tx r ∷ es) = (tx, r) ∷ answers_in es

  pub answers_in-append :
      (es fs : List (Effect R)) → answers_in (es ++ fs) ≡ answers_in es ++ answers_in fs
  answers_in-append [] fs = refl
  answers_in-append (starts t ∷ es) fs = answers_in-append es fs
  answers_in-append (replies tx r ∷ es) fs = ap (λ l. (tx, r) ∷ l) (answers_in-append es fs)

  pub answers_in-starts :
      (es : List (Effect R)) (t : _) → answers_in (es ++ starts t ∷ []) ≡ answers_in es
  answers_in-starts es t = answers_in-append es (starts t ∷ []) ∙ append-nil (answers_in es)

module _ {A U R Chan W S : Type 0} (tk : Tokio (SendMessage U) Chan W S) (act : Actor A U R) where
  -- The answer of a question that the actor handles in this state.
  abbrev pub ask_answer : ℕ → Option (A × List Command × AskResult R) → List (ℕ × R)
  ask_answer tx (some (a, ks, reply r)) = (tx, r) ∷ []
  ask_answer tx _ = []

  abbrev pub future_answer : ℕ → Option (A × Raced R) → List (ℕ × R)
  future_answer tx (some (a, Actor.response r)) = (tx, r) ∷ []
  future_answer tx _ = []

  abbrev pub async_answer : U → ℕ → Option (A × List Command) → List (ℕ × R)
  async_answer u tx (some (a, ks)) = future_answer tx (act.async_future u a)
  async_answer u tx none = []

  abbrev pub on_ask : Option U → Option ℕ → A → List (ℕ × R)
  on_ask (some u) (some tx) a = ask_answer tx (act.ask u a)
  on_ask _ _ a = []

  abbrev pub on_async_ask : Option U → Option ℕ → A → List (ℕ × R)
  on_async_ask (some u) (some tx) a = async_answer u tx (act.async_ask u a)
  on_async_ask _ _ a = []

  -- What a message has the actor answer: a question its handler's reply, a question to an async
  -- handler what its future comes to, if somebody awaits that, and any other message nothing.
  abbrev pub answers : Bool → SendMessage U → A → List (ℕ × R)
  answers awaited (response e) a = on_ask e.msg.msg e.tx a
  answers true (async_response e) a = on_async_ask e.msg.msg e.tx a
  answers _ _ a = []

  abbrev pub prepared : Option (A × List Command) → A → A
  prepared (some (b, ks)) a = b
  prepared none a = a

module _ {U R Chan W S : Type 0} (tk : Tokio (SendMessage U) Chan W S) where
  run_command-answers :
      (k : Command) (c d : Ctx R Chan W S)
      → run_command tk k c ≡ ok d
      → answers_in d.effects ≡ answers_in c.effects
  unfolding run_command spawn_task anonymous_ctx acquire_anonymous_permit
  run_command-answers k c d h = ground (
    arith,
    answers_in-starts c.effects child,
    answers_in-starts c.effects (message_task true),
    answers_in-starts c.effects (message_task false),
    answers_in-starts c.effects (unit_task true),
    answers_in-starts c.effects (unit_task false),
    answers_in-starts c.effects (handle_task true),
    answers_in-starts c.effects (handle_task false),
  )

  pub run_commands-answers :
      (ks : List Command) (c d : Ctx R Chan W S)
      → run_commands tk ks c ≡ ok d
      → answers_in d.effects ≡ answers_in c.effects
  unfolding run_commands
  run_commands-answers [] c d h = ground arith
  run_commands-answers (k ∷ ks) c d h =
      let (e, first, rest) = >>=-eq-ok (run_command tk k c) (run_commands tk ks) h in
      run_commands-answers ks e d rest ∙ run_command-answers k c e first

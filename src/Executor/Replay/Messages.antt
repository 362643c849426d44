-- ===== src/Executor/Replay/Messages.antt =====
-- src/executor.rs and src/envelope.rs: what processing a message makes of the actor.
use tokactor.Common.{
  ℕ, ◌≡◌, refl, sym, ap, ◌∙◌, Bool, true, false, Option, none, some, List, ok, ◌>>=◌, >>=-eq-ok,
  if◌then◌else◌, arith,
}
use tokactor.Tokio.{Tokio, TrySend, sent, full, closed}
use tokactor.Message.{
  SendMessage, envelope, response, async_response, shutdown_envelope, cancelled_envelope, unwrap,
  reveal, confide, cancel, take,
}
use tokactor.Actor.{Actor, Command, AskResult, reply, task, Raced, changed, unending}
use tokactor.Actor
use tokactor.Context.{run_commands}
use tokactor.Executor.{
  Executor, ExecutorLoop, take_tx, react, react_ask, finish_ask, note_self, finish_async, send,
  scheduler, is_awaited, run_message, process_message,
}
use tokactor.Executor.Replay.{moved, moved_asked, moved_raced, handled, replay_one}

module _ {A U R Chan W S : Type 0} (tk : Tokio (SendMessage U) Chan W S) (act : Actor A U R) where
  pub actor-react :
      (r : Option (A × List Command)) (x y : Executor A R Chan W S)
      → react tk act r x ≡ ok y
      → y.actor ≡ moved r x.actor
  actor-react none x y h = cc h
  actor-react (some (a, ks)) x y h =
      let (c, ran, made) =
        >>=-eq-ok (run_commands tk ks x.context) (λ c. ok (record x { actor = a; context = c }))
          h in
      let same : record x { actor = a; context = c } ≡ y = cc made in
      ap (λ (z : Executor A R Chan W S). z.actor) (sym same)

  finish_ask-actor :
      (r : AskResult R) (tx : ℕ) (x : Executor A R Chan W S)
      → (finish_ask tk act r tx x).actor ≡ x.actor
  finish_ask-actor (reply r) tx x = refl
  finish_ask-actor task tx x = refl

  react_ask-actor :
      (r : Option (A × List Command × AskResult R)) (tx : ℕ) (x y : Executor A R Chan W S)
      → react_ask tk act r tx x ≡ ok y
      → y.actor ≡ moved_asked r x.actor
  react_ask-actor none tx x y h = cc h
  react_ask-actor (some (a, ks, result)) tx x y h =
      let (z, ran, made) =
        >>=-eq-ok (react tk act (some (a, ks)) x) (λ y. ok (finish_ask tk act result tx y)) h in
      let same : finish_ask tk act result tx z ≡ y = cc made in
      ap (λ (w : Executor A R Chan W S). w.actor) (sym same)
      ∙ finish_ask-actor result tx z
      ∙ actor-react (some (a, ks)) x z ran

  note_self-actor :
      (p : TrySend (SendMessage U) × Chan) (x y : Executor A R Chan W S)
      → note_self tk act p x ≡ ok y
      → y.actor ≡ x.actor
  note_self-actor (sent, c) x y h = ground arith
  note_self-actor (closed m, c) x y h = ground arith
  note_self-actor (full m, c) x y h = cc h

  finish_async-actor :
      (r : Option (A × Raced R)) (tx : ℕ) (x y : Executor A R Chan W S)
      → finish_async tk act r tx x ≡ ok y
      → y.actor ≡ moved_raced r x.actor
  finish_async-actor none tx x y h = cc h
  finish_async-actor (some (a, Actor.response r)) tx x y h = ground arith
  finish_async-actor (some (a, unending)) tx x y h = cc h
  finish_async-actor (some (a, changed)) tx x y h =
      note_self-actor (tk.try_send (cancelled_envelope (confide cancel)) x.context.mailbox)
        (record x { actor = a }) y h

  send-actor :
      (m : SendMessage U) (x y : Executor A R Chan W S)
      → send tk act (is_awaited (scheduler tk act m)) m x ≡ ok y
      → y.actor ≡ handled act m x.actor
  unfolding send scheduler
  send-actor (envelope e) x y h =
      let (u, there, ran) = >>=-eq-ok (unwrap e).0 (λ u. react tk act (act.handle u x.actor) x) h in
      actor-react (act.handle u x.actor) x y ran ∙ found u there
    where
      found :
          (u : U)
          → take e.msg ≡ ok u
          → moved (act.handle u x.actor) x.actor ≡ handled act (envelope e) x.actor
      found u there = ground (arith, there)
  send-actor (response e) x y h =
      let (u, there, h₁) =
        >>=-eq-ok (unwrap e.msg).0
          (λ u. take_tx e.tx >>= λ tx. react_ask tk act (act.ask u x.actor) tx x) h in
      let (tx, open_, ran) =
        >>=-eq-ok (take_tx e.tx) (λ tx. react_ask tk act (act.ask u x.actor) tx x) h₁ in
      react_ask-actor (act.ask u x.actor) tx x y ran ∙ found u there
    where
      found :
          (u : U)
          → take e.msg.msg ≡ ok u
          → moved_asked (act.ask u x.actor) x.actor ≡ handled act (response e) x.actor
      found u there = ground (arith, there)
  send-actor (async_response e) x y h =
      let (u, there, h₁) = >>=-eq-ok (unwrap e.msg).0 _ h in
      let (tx, open_, h₂) = >>=-eq-ok (take_tx e.tx) _ h₁ in
      let (z, ran, h₃) = >>=-eq-ok (react tk act (act.async_ask u x.actor) x) _ h₂ in
      raced (is_awaited act.async_ask_scheduler) u tx z h₃
      ∙ ap (after (is_awaited act.async_ask_scheduler) u)
          (actor-react (act.async_ask u x.actor) x z ran)
      ∙ found u there
    where
      after : Bool → U → A → A
      after awaited u b = if awaited then moved_raced (act.async_future u b) b else b

      raced :
          (awaited : Bool) (u : U) (tx : ℕ) (z : Executor A R Chan W S)
          → (if awaited then finish_async tk act (act.async_future u z.actor) tx z else ok z) ≡ ok y
          → y.actor ≡ after awaited u z.actor
      raced true u tx z h = finish_async-actor (act.async_future u z.actor) tx z y h
      raced false u tx z h =
          let same : z ≡ y = cc h in ap (λ (w : Executor A R Chan W S). w.actor) (sym same)

      found :
          (u : U)
          → take e.msg.msg ≡ ok u
          → after (is_awaited act.async_ask_scheduler) u (moved (act.async_ask u x.actor) x.actor)
            ≡ handled act (async_response e) x.actor
      found u there = ground (arith, there)
  send-actor (shutdown_envelope e) x y h =
      let (m, there, made) = >>=-eq-ok (reveal e).0 _ h in ground arith
  send-actor (cancelled_envelope e) x y h =
      let (m, there, made) = >>=-eq-ok (reveal e).0 _ h in ground arith

  run_message-actor :
      (m : SendMessage U) (x y : Executor A R Chan W S)
      → run_message tk act x m ≡ ok y
      → y.actor ≡ replay_one act m x.actor
  unfolding run_message replay_one
  run_message-actor m x y h =
      let (a, before, h₁) = >>=-eq-ok (react tk act (act.pre_run x.actor) x) _ h in
      let (b, during, after_) =
        >>=-eq-ok (send tk act (is_awaited (scheduler tk act m)) m a) _ h₁ in
      let p = actor-react (act.pre_run x.actor) x a before in
      let q = send-actor m a b during ∙ ap (handled act m) p in
      actor-react (act.post_run b.actor) b y after_ ∙ ap (λ c. moved (act.post_run c) c) q

  -- A message that was processed has made of the actor what it makes of the state machine.
  pub process_message-actor :
      (m : SendMessage U) (x y : Executor A R Chan W S) (l : ExecutorLoop)
      → process_message tk act x m ≡ ok (y, l)
      → y.actor ≡ replay_one act m x.actor
  unfolding process_message
  process_message-actor m x y l h =
      let (z, ran, made) = >>=-eq-ok (run_message tk act x m) _ h in
      let same : z ≡ y = cc made in
      ap (λ (w : Executor A R Chan W S). w.actor) (sym same) ∙ run_message-actor m x z ran

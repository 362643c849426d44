-- ===== src/Executor/Progress.antt =====
-- src/executor.rs and src/envelope.rs: what the processing of a message can do to the context.
use tokactor.Common.{
  ℕ, ◌≡◌, ◌≢◌, ◌↔◌, Bool, true, false, Option, none, some, List, Flow, ok, panicked, blocked,
  if◌then◌else◌, arith, inl, inr, Bool-cases,
}
use tokactor.Tokio.{Tokio, TokioLaws, TrySend, sent, full, closed}
use tokactor.Message.{
  running, SendMessage, envelope, response, async_response, shutdown_envelope, cancelled_envelope,
  confide, cancel, unwrap, reveal,
}
use tokactor.Actor.{
  Actor, Command, stop, abort, spawn, anonymous, anonymous_task, anonymous_handle, AskResult, reply,
  task, Raced, changed, unending, Prompt,
}
use tokactor.Actor
use tokactor.Context.{Ctx}
use tokactor.Executor.{
  ExecutorLoop, continue, Executor, take_tx, react, finish_ask, react_ask, note_self, finish_async,
  send, scheduler, is_awaited, run_message, conclude, process_message,
}
use tokactor.Executor.Reaching.{
  Progress, Progress-refl, private_shutdown-Progress, anonymous_ctx-Progress, take-ne-blocked,
  take_tx-ne-blocked, Reaches, Reaches-bind, Reaches-const, react-Reaches,
}

module _ {A U R Chan W S : Type 0} (tk : Tokio (SendMessage U) Chan W S) (act : Actor A U R)
    (laws : TokioLaws tk) where
  react_ask-Reaches :
      (r : Option (A × List Command × AskResult R)) (tx : ℕ) (x : Executor A R Chan W S)
      → Reaches tk act laws x.context (react_ask tk act r tx x)
  react_ask-Reaches none tx x = tt
  react_ask-Reaches (some (a, ks, result)) tx x =
      Reaches-bind tk act laws x.context (react tk act (some (a, ks)) x) _
        (react-Reaches tk act laws (some (a, ks)) x) (λ y. finished result y)
    where
      finished :
          (result : AskResult R) (y : Executor A R Chan W S)
          → Progress tk y.context (finish_ask tk act result tx y).context
      finished (reply r) y = ground arith
      finished task y = anonymous_ctx-Progress tk laws y.context

  note_self-Reaches :
      (m : SendMessage U) (x : Executor A R Chan W S)
      → Reaches tk act laws x.context (note_self tk act (tk.try_send m x.context.mailbox) x)
  note_self-Reaches m x = elim (Bool-cases (tk.is_closed x.context.mailbox)) [
    | inl shut ↦
        rw (laws.try_send_closed m x.context.mailbox shut) (Progress-refl tk laws x.context)
    | inr open_ ↦ noted (tk.try_send m x.context.mailbox) open_
  ]
    where
      noted :
          (p : TrySend (SendMessage U) × Chan)
          → tk.is_closed x.context.mailbox ≡ false
          → Reaches tk act laws x.context (note_self tk act p x)
      noted (sent, c) e = ground arith
      noted (closed m', c) e = ground arith
      noted (full m', c) e = inl e

  finish_async-Reaches :
      (u : U) (b : A) (r : Option (A × Raced R)) (tx : ℕ) (x : Executor A R Chan W S)
      → act.async_future u b ≡ r
      → Reaches tk act laws x.context (finish_async tk act r tx x)
  finish_async-Reaches u b none tx x e = tt
  finish_async-Reaches u b (some (a, Actor.response r)) tx x e = ground arith
  finish_async-Reaches u b (some (a, unending)) tx x e = inr (u, b, a, e)
  finish_async-Reaches u b (some (a, changed)) tx x e =
      note_self-Reaches (cancelled_envelope (confide cancel)) (record x { actor = a })

  send-Reaches :
      (awaited : Bool) (m : SendMessage U) (x : Executor A R Chan W S)
      → Reaches tk act laws x.context (send tk act awaited m x)
  unfolding send
  send-Reaches awaited (envelope e) x =
      Reaches-const tk act laws x.context (unwrap e).0 _ (take-ne-blocked e.msg)
        λ u. react-Reaches tk act laws (act.handle u x.actor) x
  send-Reaches awaited (response e) x =
      Reaches-const tk act laws x.context (unwrap e.msg).0 _ (take-ne-blocked e.msg.msg) λ u.
        Reaches-const tk act laws x.context (take_tx e.tx) _ (take_tx-ne-blocked e.tx)
          λ tx. react_ask-Reaches (act.ask u x.actor) tx x
  send-Reaches awaited (async_response e) x =
      Reaches-const tk act laws x.context (unwrap e.msg).0 _ (take-ne-blocked e.msg.msg) λ u.
        Reaches-const tk act laws x.context (take_tx e.tx) _ (take_tx-ne-blocked e.tx) λ tx.
          Reaches-bind tk act laws x.context (react tk act (act.async_ask u x.actor) x) _
            (react-Reaches tk act laws (act.async_ask u x.actor) x) λ y. raced awaited u tx y
    where
      raced :
          (awaited : Bool) (u : U) (tx : ℕ) (y : Executor A R Chan W S)
          → Reaches tk act laws y.context
              (if awaited then finish_async tk act (act.async_future u y.actor) tx y else ok y)
      raced true u tx y =
          finish_async-Reaches u y.actor (act.async_future u y.actor) tx y
            (λ i. act.async_future u y.actor)
      raced false u tx y = Progress-refl tk laws y.context
  send-Reaches awaited (shutdown_envelope e) x =
      Reaches-const tk act laws x.context (reveal e).0 _ (take-ne-blocked e.msg)
        λ m. private_shutdown-Progress tk laws m x.context
  send-Reaches awaited (cancelled_envelope e) x =
      Reaches-const tk act laws x.context (reveal e).0 _ (take-ne-blocked e.msg)
        λ m. Progress-refl tk laws x.context

  pub run_message-Reaches :
      (x : Executor A R Chan W S) (m : SendMessage U)
      → Reaches tk act laws x.context (run_message tk act x m)
  unfolding run_message
  run_message-Reaches x m =
      Reaches-bind tk act laws x.context (react tk act (act.pre_run x.actor) x) _
        (react-Reaches tk act laws (act.pre_run x.actor) x)
        λ y.
          Reaches-bind tk act laws y.context (send tk act (is_awaited (scheduler tk act m)) m y) _
            (send-Reaches (is_awaited (scheduler tk act m)) m y)
            λ z. react-Reaches tk act laws (act.post_run z.actor) z

  conclude-Progress :
      (c : Ctx R Chan W S) (r : Flow (Executor A R Chan W S)) (y : Executor A R Chan W S)
      (l : ExecutorLoop)
      → Reaches tk act laws c r
      → conclude r ≡ ok (y, l)
      → Progress tk c y.context × ((l ≡ continue) ↔ (y.context.state ≡ running))
  conclude-Progress c (ok z) y l p h = (ground (arith, p), ground (arith, p))
  conclude-Progress c panicked y l p h = cc
  conclude-Progress c blocked y l p h = cc

  -- A message that was processed has not taken the state of its actor back, nor opened its
  -- mailbox, nor added to it once it was closed, nor lost a receiver of its notifier; and the
  -- loop is to go on exactly if the actor is still running.
  pub process_message-Progress :
      (x : Executor A R Chan W S) (m : SendMessage U) (y : Executor A R Chan W S) (l : ExecutorLoop)
      → process_message tk act x m ≡ ok (y, l)
      → Progress tk x.context y.context × ((l ≡ continue) ↔ (y.context.state ≡ running))
  unfolding process_message
  process_message-Progress x m y l h =
      conclude-Progress x.context (run_message tk act x m) y l (run_message-Reaches x m) h

  conclude-ne-blocked :
      (c : Ctx R Chan W S) (r : Flow (Executor A R Chan W S))
      → Reaches tk act laws c r
      → Prompt act
      → tk.is_closed c.mailbox ≡ true
      → conclude r ≢ blocked
  conclude-ne-blocked c (ok z) p prompt h e = cc
  conclude-ne-blocked c panicked p prompt h e = cc
  conclude-ne-blocked c blocked (inl open_) prompt h e = cc
  conclude-ne-blocked c blocked (inr endless) prompt h e = prompt endless

  -- Once the mailbox is closed, no message makes the actor wait for room in its own mailbox; so it waits
  -- for good only for a future of its user's.
  pub process_message-ne-blocked :
      (x : Executor A R Chan W S) (m : SendMessage U)
      → Prompt act
      → tk.is_closed x.context.mailbox ≡ true
      → process_message tk act x m ≢ blocked
  unfolding process_message
  process_message-ne-blocked x m prompt h =
      conclude-ne-blocked x.context (run_message tk act x m) (run_message-Reaches x m) prompt h

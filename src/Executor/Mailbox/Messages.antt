-- ===== src/Executor/Mailbox/Messages.antt =====
-- src/executor.rs and src/envelope.rs: every message, and every step of the loops, keeps up what sending to the
-- mailbox, taking from it and closing it keep up.
use tokactor.Common.{
  ℕ, ◌≡◌, sym, subst, Bool, true, false, Flow, ok, >>=-eq-ok, if◌then◌else◌, arith, Option, some,
  none, List,
}
use tokactor.Tokio.{Tokio}
use tokactor.Message.{
  SendMessage, envelope, response, async_response, shutdown_envelope, cancelled_envelope, unwrap,
  reveal, IntoFutureShutdown,
}
use tokactor.Actor.{Actor, Command, abort}
use tokactor.Context.{Ctx, subscribe_and_stop, subscribe_and_wait, stop_ctx}
use tokactor.Executor.{
  Executor, ExecutorLoop, take_tx, react, send, scheduler, is_awaited, run_message, process_message,
  private_shutdown, finish_async, check_anonymous_actors,
}
use tokactor.Executor.Awaits.{
  Event, delivers, child_exits, permit_returns, wakes, sleeps, notified, supervisor_dropped, got,
  polled,
}
use tokactor.Executor.Loops.{check, poll_recv, with_mailbox, surroundings}
use tokactor.Executor.Throughout.{Rounds, Steps}
use tokactor.Executor.Calls.{Makes, Calls, Called, any_Calls, any_makes}
use tokactor.Executor.Mailbox.{
  Keeps, Keeps-bind, Keeps-const, react-Keeps, react_ask-Keeps, finish_async-Keeps,
}

module _ {A U R Chan W S : Type 0} (tk : Tokio (SendMessage U) Chan W S) (act : Actor A U R) where
  pub check_keeps :
      (c d : Ctx R Chan W S)
      → check_anonymous_actors tk act c ≡ ok d
      → (d.mailbox ≡ c.mailbox) × (d.notifier ≡ c.notifier)
  unfolding check_anonymous_actors
  check_keeps c d h = ground (arith, h)

module _ {A U R Chan W S : Type 0} (tk : Tokio (SendMessage U) Chan W S) (act : Actor A U R)
    (P : Chan → Type 0) (sends : (m : SendMessage U) (c : Chan) → P c → P (tk.try_send m c).1)
    (Allowed : Command → Type 0) (closes : Allowed abort → (c : Chan) → P c → P (tk.close c))
    (calls : Calls Allowed act) where
  abbrev Has : Executor A R Chan W S → Type 0
  Has x = P x.context.mailbox

  abbrev Keep : Flow (Executor A R Chan W S) → Type 0
  Keep m = Keeps tk act P sends Allowed closes m

  shutdown-Holds :
      (m : IntoFutureShutdown) (x : Executor A R Chan W S)
      → Has x
      → P (private_shutdown m x.context).mailbox
  unfolding subscribe_and_stop subscribe_and_wait stop_ctx
  shutdown-Holds m x p =
      let same : (private_shutdown m x.context).mailbox ≡ x.context.mailbox = ground arith in
      subst P (sym same) p

  send-Keeps :
      (awaited : Bool) (m : SendMessage U) (x : Executor A R Chan W S)
      → Has x
      → Keep (send tk act awaited m x)
  unfolding send
  send-Keeps awaited (envelope e) x p =
      Keeps-const tk act P sends Allowed closes (unwrap e).0 _ λ u.
        react-Keeps tk act P sends Allowed closes (act.handle u x.actor) x (calls.handle u x.actor)
          p
  send-Keeps awaited (response e) x p =
      Keeps-const tk act P sends Allowed closes (unwrap e.msg).0 _ λ u.
        Keeps-const tk act P sends Allowed closes (take_tx e.tx) _ λ tx.
          react_ask-Keeps tk act P sends Allowed closes (act.ask u x.actor) tx x
            (calls.ask u x.actor) p
  send-Keeps awaited (async_response e) x p =
      Keeps-const tk act P sends Allowed closes (unwrap e.msg).0 _ λ u.
        Keeps-const tk act P sends Allowed closes (take_tx e.tx) _ λ tx.
          Keeps-bind tk act P sends Allowed closes (react tk act (act.async_ask u x.actor) x) _
            (react-Keeps tk act P sends Allowed closes (act.async_ask u x.actor) x
              (calls.async_ask u x.actor) p)
            λ y q. raced awaited u tx y q
    where
      raced :
          (awaited : Bool) (u : U) (tx : ℕ) (y : Executor A R Chan W S)
          → Has y
          → Keep (if awaited then finish_async tk act (act.async_future u y.actor) tx y else ok y)
      raced true u tx y q =
          finish_async-Keeps tk act P sends Allowed closes (act.async_future u y.actor) tx y q
      raced false u tx y q = q
  send-Keeps awaited (shutdown_envelope e) x p =
      Keeps-const tk act P sends Allowed closes (reveal e).0 _ λ m. shutdown-Holds m x p
  send-Keeps awaited (cancelled_envelope e) x p =
      Keeps-const tk act P sends Allowed closes (reveal e).0 _ λ m. p

  run_message-Keeps :
      (x : Executor A R Chan W S) (m : SendMessage U) → Has x → Keep (run_message tk act x m)
  unfolding run_message
  run_message-Keeps x m p =
      Keeps-bind tk act P sends Allowed closes (react tk act (act.pre_run x.actor) x) _
        (react-Keeps tk act P sends Allowed closes (act.pre_run x.actor) x (calls.pre_run x.actor)
          p)
        λ y q.
          Keeps-bind tk act P sends Allowed closes
            (send tk act (is_awaited (scheduler tk act m)) m y) _
            (send-Keeps (is_awaited (scheduler tk act m)) m y q)
            λ z r.
              react-Keeps tk act P sends Allowed closes (act.post_run z.actor) z
                (calls.post_run z.actor) r

  -- What holds of a result that is a value.
  pub Keeps-ok :
      (m : Flow (Executor A R Chan W S)) (y : Executor A R Chan W S) → Keep m → m ≡ ok y → Has y
  Keeps-ok m y p h = subst Keep h p

  pub process_message-Holds :
      (x : Executor A R Chan W S) (m : SendMessage U) (y : Executor A R Chan W S) (l : ExecutorLoop)
      → Has x
      → process_message tk act x m ≡ ok (y, l)
      → Has y
  unfolding process_message
  process_message-Holds x m y l p h =
      let (z, ran, made) = >>=-eq-ok (run_message tk act x m) _ h in
      let same : z ≡ y = cc made in
      subst Has same (Keeps-ok (run_message tk act x m) z (run_message-Keeps x m p) ran)

  check-Holds : (x y : Executor A R Chan W S) → Has x → check tk act x ≡ ok y → Has y
  unfolding check_anonymous_actors
  check-Holds x y p h =
      let (c, ran, made) = >>=-eq-ok (check_anonymous_actors tk act x.context) _ h in
      let moved : record x { context = c } ≡ y = cc made in
      subst Has moved (subst P (sym (check_keeps tk act x.context c ran).0) p)

  pub reacts-Holds :
      (r : Option (A × List Command)) (x y : Executor A R Chan W S)
      → Makes Allowed r
      → Has x
      → react tk act r x ≡ ok y
      → Has y
  reacts-Holds r x y may p h =
      Keeps-ok (react tk act r x) y (react-Keeps tk act P sends Allowed closes r x may p) h

  -- Taking a message keeps it up as well.
  module _ (takes : (c : Chan) → P c → P (tk.try_recv c).1) where
    got-Holds :
        (c : Chan) → P c → (m : SendMessage U) (d : Chan) → poll_recv tk act c ≡ got m d → P d
    got-Holds c p m d h = through (tk.try_recv c) (tk.is_closed c) (takes c p) h
      where
        through :
            (r : Option (SendMessage U) × Chan) (b : Bool) → P r.1 → polled r b ≡ got m d → P d
        through (some n, c') b q e = let same : c' ≡ d = cc e in subst P same q
        through (none, c') true q e = cc e
        through (none, c') false q e = cc e

    surrounds-Holds :
        (x : Executor A R Chan W S) (e : Event U) → Has x → Has (surroundings tk act e x)
    surrounds-Holds x (delivers m) p = sends m x.context.mailbox p
    surrounds-Holds x child_exits p = p
    surrounds-Holds x permit_returns p = p
    surrounds-Holds x wakes p = p
    surrounds-Holds x sleeps p = p
    surrounds-Holds x (notified n) p = p
    surrounds-Holds x supervisor_dropped p = p

    -- So whatever sending and taking keep up of the mailbox, the steps of the loops do.
    pub mailbox-Rounds : Rounds tk act (λ x. P x.context.mailbox)
    mailbox-Rounds = record {
      takes = λ x z y m c l p e checked ran.
          process_message-Holds z m y l
            (check-Holds (with_mailbox tk act c x) z (got-Holds x.context.mailbox p m c e) checked)
            ran;
      takes_late = λ x y m c l p e ran.
          process_message-Holds (with_mailbox tk act c x) m y l
            (got-Holds x.context.mailbox p m c e) ran;
      surrounds = surrounds-Holds;
    }

module _ {A U R Chan W S : Type 0} (tk : Tokio (SendMessage U) Chan W S) (act : Actor A U R)
    (P : Chan → Type 0) (sends : (m : SendMessage U) (c : Chan) → P c → P (tk.try_send m c).1)
    (closes : (c : Chan) → P c → P (tk.close c)) where
  -- What closing keeps up as well, every callback and every message does.
  pub any_reacts-Holds :
      (r : Option (A × List Command)) (x y : Executor A R Chan W S)
      → P x.context.mailbox
      → react tk act r x ≡ ok y
      → P y.context.mailbox
  any_reacts-Holds r x y p h =
      reacts-Holds tk act P sends Called (λ k. closes) (any_Calls act) r x y (any_makes r) p h

  pub any_message-Holds :
      (x : Executor A R Chan W S) (m : SendMessage U) (y : Executor A R Chan W S) (l : ExecutorLoop)
      → P x.context.mailbox
      → process_message tk act x m ≡ ok (y, l)
      → P y.context.mailbox
  any_message-Holds = process_message-Holds tk act P sends Called (λ k. closes) (any_Calls act)

  -- And a whole life keeps up what taking does, too.
  pub mailbox-Steps :
      ((c : Chan) → P c → P (tk.try_recv c).1) → Steps tk act (λ x. P x.context.mailbox)
  mailbox-Steps takes = record {
    rounds = mailbox-Rounds tk act P sends Called (λ k. closes) (any_Calls act) takes;
    closes = λ x p. closes x.context.mailbox p;
    tells = λ x p. p;
    sets = λ x s p. p;
    on_stopping = λ x y p h. any_reacts-Holds (act.on_stopping x.actor) x y p h;
    on_stopped = λ x y p h. any_reacts-Holds (act.on_stopped x.actor) x y p h;
    on_end = λ x y p h. any_reacts-Holds (act.on_end x.actor) x y p h;
  }

-- ===== src/Executor/Replay/Runs.antt =====
-- src/executor.rs: a whole run of an actor against the state machine on the messages that it accepted.
use tokactor.Common.{
  ℕ, ◌≡◌, refl, sym, ap, ◌∙◌, subst, Option, some, none, List, [], ◌∷◌, ◌++◌, ok, >>=-eq-ok, Bool,
  true, false,
}
use tokactor.Tokio.{Tokio, TokioLaws}
use tokactor.Tokio.Recording.{Account, recording}
use tokactor.Tokio.Recording.Accepted.{try_send-taken, close-taken, try_recv-taken}
use tokactor.Message.{SendMessage}
use tokactor.Actor.{Actor, Command}
use tokactor.Executor.{Executor, ExecutorLoop, react, process_message}
use tokactor.Executor.Awaits.{
  Event, delivers, child_exits, permit_returns, wakes, sleeps, notified, supervisor_dropped, ready,
  got, polled,
}
use tokactor.Executor.Loops.{poll_recv, with_mailbox, surroundings, check, run_actor, take_sender}
use tokactor.Executor.Delivery.{run_actor-taken}
use tokactor.Executor.Mailbox.Messages.{any_message-Holds, check_keeps, any_reacts-Holds}
use tokactor.Executor.Throughout.{Rounds, Steps}
use tokactor.Executor.Throughout.Life.{run_actor-P}
use tokactor.Executor.Replay.{moved, replay_one, replay, replay-append_last}
use tokactor.Executor.Replay.Messages.{process_message-actor, actor-react}

-- The callbacks of the shutdown leave the actor as it is; what they do to the context is free.
pub record Plain {A U R : Type 0} (act : Actor A U R) : Type 0 where
  pub on_stopping : (a b : A) (ks : List Command) → act.on_stopping a ≡ some (b, ks) → b ≡ a
  pub on_stopped : (a b : A) (ks : List Command) → act.on_stopped a ≡ some (b, ks) → b ≡ a
  pub on_end : (a b : A) (ks : List Command) → act.on_end a ≡ some (b, ks) → b ≡ a

moved_same :
    {A : Type 0} (r : Option (A × List Command)) (a : A)
    → ((b : A) (ks : List Command) → r ≡ some (b, ks) → b ≡ a)
    → moved r a ≡ a
moved_same none a p = refl
moved_same (some (b, ks)) a p = p b ks refl

module _ {A U R Chan W S : Type 0} (tk : Tokio (SendMessage U) Chan W S) (laws : TokioLaws tk)
    (act : Actor A U R) (plain : Plain act) (start : A) where
  abbrev Recorded : Type 0
  Recorded = Executor A R (Account tk) W S

  -- The actor is what the messages that were taken have made of it.
  abbrev pub Replayed : Recorded → Type 0
  Replayed x = x.actor ≡ replay act x.context.mailbox.taken start

  got-taken :
      (a c : Account tk) (m : SendMessage U)
      → poll_recv (recording tk laws) act a ≡ got m c
      → c.taken ≡ a.taken ++ m ∷ []
  got-taken a c m h =
      through ((recording tk laws).try_recv a) ((recording tk laws).is_closed a) refl h
    where
      through :
          (r : Option (SendMessage U) × Account tk) (b : Bool)
          → (recording tk laws).try_recv a ≡ r
          → polled r b ≡ got m c
          → c.taken ≡ a.taken ++ m ∷ []
      through (some n, d) b e h =
          let same : n ≡ m = cc h in
          let there : d ≡ c = cc h in
          ap (λ (v : Account tk). v.taken) (sym there)
          ∙ try_recv-taken tk laws a n d e
          ∙ ap (λ k. a.taken ++ k ∷ []) same
      through (none, d) true e h = cc h
      through (none, d) false e h = cc h

  -- Processing takes nothing out of the mailbox.
  taken-process :
      (x y : Recorded) (m : SendMessage U) (l : ExecutorLoop)
      → process_message (recording tk laws) act x m ≡ ok (y, l)
      → y.context.mailbox.taken ≡ x.context.mailbox.taken
  taken-process x y m l h =
      any_message-Holds (recording tk laws) act (λ a. a.taken ≡ x.context.mailbox.taken)
        (λ n a e. try_send-taken tk laws n a ∙ e) (λ a e. close-taken tk laws a ∙ e) x m y l refl h

  taken-react :
      (r : Option (A × List Command)) (x y : Recorded)
      → react (recording tk laws) act r x ≡ ok y
      → y.context.mailbox.taken ≡ x.context.mailbox.taken
  taken-react r x y h =
      any_reacts-Holds (recording tk laws) act (λ a. a.taken ≡ x.context.mailbox.taken)
        (λ n a e. try_send-taken tk laws n a ∙ e) (λ a e. close-taken tk laws a ∙ e) r x y refl h

  processed-Replayed :
      (x z y : Recorded) (m : SendMessage U) (l : ExecutorLoop)
      → Replayed x
      → z.actor ≡ x.actor
      → z.context.mailbox.taken ≡ x.context.mailbox.taken ++ m ∷ []
      → process_message (recording tk laws) act z m ≡ ok (y, l)
      → Replayed y
  processed-Replayed x z y m l p same grown h =
      process_message-actor (recording tk laws) act m z y l h
      ∙ ap (replay_one act m) (same ∙ p)
      ∙ sym (replay-append_last act x.context.mailbox.taken m start)
      ∙ ap (λ ms. replay act ms start) (sym (taken-process z y m l h ∙ grown))

  checked-Recorded :
      (x z : Recorded)
      → check (recording tk laws) act x ≡ ok z
      → (z.actor ≡ x.actor) × (z.context.mailbox ≡ x.context.mailbox)
  checked-Recorded x z h =
      let (c, ran, made) = >>=-eq-ok _ (λ c. ok (record x { context = c })) h in
      let same : record x { context = c } ≡ z = cc made in
      (
        ap (λ (w : Recorded). w.actor) (sym same),
        ap (λ (w : Recorded). w.context.mailbox) (sym same)
            ∙ (check_keeps (recording tk laws) act x.context c ran).0,
      )

  pub checks-Replayed :
      (x z : Recorded) → Replayed x → check (recording tk laws) act x ≡ ok z → Replayed z
  checks-Replayed x z p h =
      let (same, kept) = checked-Recorded x z h in
      same ∙ p ∙ ap (λ (a : Account tk). replay act a.taken start) (sym kept)

  surrounds-Replayed :
      (x : Recorded) (e : Event U)
      → Replayed x
      → Replayed (surroundings (recording tk laws) act e x)
  surrounds-Replayed x (delivers m) p =
      p ∙ ap (λ ms. replay act ms start) (sym (try_send-taken tk laws m x.context.mailbox))
  surrounds-Replayed x child_exits p = p
  surrounds-Replayed x permit_returns p = p
  surrounds-Replayed x wakes p = p
  surrounds-Replayed x sleeps p = p
  surrounds-Replayed x (notified n) p = p
  surrounds-Replayed x supervisor_dropped p = p

  reacts-Replayed :
      (r : Option (A × List Command)) (x y : Recorded)
      → ((b : A) (ks : List Command) → r ≡ some (b, ks) → b ≡ x.actor)
      → Replayed x
      → react (recording tk laws) act r x ≡ ok y
      → Replayed y
  reacts-Replayed r x y same p h =
      actor-react (recording tk laws) act r x y h
      ∙ moved_same r x.actor same
      ∙ p
      ∙ ap (λ ms. replay act ms start) (sym (taken-react r x y h))

  replay-Rounds : Rounds (recording tk laws) act Replayed
  replay-Rounds = record {
    takes = λ x z y m c l p e checked ran.
        let (same, kept) = checked-Recorded (with_mailbox (recording tk laws) act c x) z checked in
        processed-Replayed x z y m l p same
          (ap (λ (a : Account tk). a.taken) kept ∙ got-taken x.context.mailbox c m e) ran;
    takes_late = λ x y m c l p e ran.
        processed-Replayed x (with_mailbox (recording tk laws) act c x) y m l p refl
          (got-taken x.context.mailbox c m e) ran;
    surrounds = surrounds-Replayed;
  }

  pub replay-Steps : Steps (recording tk laws) act Replayed
  replay-Steps = record {
    rounds = replay-Rounds;
    closes =
        λ x p. p ∙ ap (λ ms. replay act ms start) (sym (close-taken tk laws x.context.mailbox));
    tells = λ x p. p;
    sets = λ x s p. p;
    on_stopping =
        λ x y p h. reacts-Replayed (act.on_stopping x.actor) x y (plain.on_stopping x.actor) p h;
    on_stopped =
        λ x y p h. reacts-Replayed (act.on_stopped x.actor) x y (plain.on_stopped x.actor) p h;
    on_end = λ x y p h. reacts-Replayed (act.on_end x.actor) x y (plain.on_end x.actor) p h;
  }

module _ {A U R Chan W S : Type 0} (tk : Tokio (SendMessage U) Chan W S) (act : Actor A U R)
    (laws : TokioLaws tk) where
  -- Once it has started, an actor is where the state machine begins.
  pub begun :
      (plain : Plain act) (x z : Executor A R (Account tk) W S)
      → x.context.mailbox.taken ≡ []
      → react (recording tk laws) act (act.on_start x.actor) x ≡ ok z
      → Replayed tk laws act plain (moved (act.on_start x.actor) x.actor) z
  unfolding replay
  begun plain x z fresh ran =
      let start = moved (act.on_start x.actor) x.actor in
      let nothing = taken-react tk laws act plain start (act.on_start x.actor) x z ran ∙ fresh in
      actor-react (recording tk laws) act (act.on_start x.actor) x z ran
      ∙ ap (λ ms. replay act ms start) (sym nothing)

  -- An actor whose shutdown leaves it as it is runs, from an empty account, among whatever other tasks
  -- and along whatever schedule. If its task is over, then the actor is what the state machine makes,
  -- from where `on_start` left it, of the messages that its mailbox accepted, one after another in the
  -- order of their acceptance: nothing else has an effect on it.
  pub run_actor-replay :
      (x y : Executor A R (Account tk) W S) (es rest : List (Event U)) (sent : Option (ℕ × A))
      → Plain act
      → x.context.mailbox.taken ≡ []
      → run_actor (recording tk laws) act x es ≡ ready (y, sent) rest
      → y.actor ≡ replay act y.context.mailbox.accepted (moved (act.on_start x.actor) x.actor)
  unfolding replay
  run_actor-replay x y es rest sent plain fresh h =
      let start = moved (act.on_start x.actor) x.actor in
      let (w, p, end) =
        run_actor-P (recording tk laws) act (Replayed tk laws act plain start)
          (replay-Steps tk laws act plain start) x es y sent rest
          (λ z ran. begun plain x z fresh ran) h in
      let same : (take_sender (recording tk laws) act w).0 ≡ y = ap (λ q. q.0) end in
      subst
        (λ (z : Executor A R (Account tk) W S). z.actor ≡ replay act z.context.mailbox.taken start)
        same p
      ∙ ap (λ ms. replay act ms start) (sym (run_actor-taken tk act laws x y es rest sent h))

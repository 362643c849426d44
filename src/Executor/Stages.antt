-- ===== src/Executor/Stages.antt =====
-- src/actor.rs and src/executor.rs: the stages of an actor's life as predicates on the actor, and what
-- one message does to them.
use tokactor.Common.{
  ℕ, ◌≡◌, refl, subst, Bool, true, false, Option, none, some, List, Flow, ok, panicked, blocked,
  ◌>>=◌, >>=-eq-ok, if◌then◌else◌, ◌⊎◌, inl, inr,
}
use tokactor.Tokio.{Tokio, TrySend, sent, full, closed}
use tokactor.Message.{
  SendMessage, envelope, response, async_response, shutdown_envelope, cancelled_envelope, unwrap,
  reveal, confide, cancel,
}
use tokactor.Actor.{Actor, Command, AskResult, reply, task, Raced, changed, unending}
use tokactor.Actor
use tokactor.Context.{run_commands}
use tokactor.Executor.{
  Executor, ExecutorLoop, take_tx, react, react_ask, finish_ask, note_self, finish_async, send,
  scheduler, is_awaited, run_message, process_message,
}

pub data Stage : Type 0 where
  serving stopping stopped : Stage

-- What is to hold of an actor before its life, between two messages of a stage, before and after its
-- handler has run, and at the end; and that each callback and handler leads from one to the next.
pub record Stages {A U R : Type 0} (act : Actor A U R) (Fresh : A → Type 0)
    (Idle Busy Done : Stage → A → Type 0) (Over : A → Type 0) : Type 0 where
  pub on_start :
      (a b : A) (ks : List Command) → Fresh a → act.on_start a ≡ some (b, ks) → Idle serving b
  pub pre_run :
      (s : Stage) (a b : A) (ks : List Command) → Idle s a → act.pre_run a ≡ some (b, ks) → Busy s b
  pub handle :
      (s : Stage) (u : U) (a b : A) (ks : List Command)
      → Busy s a
      → act.handle u a ≡ some (b, ks)
      → Done s b
  pub ask :
      (s : Stage) (u : U) (a b : A) (ks : List Command) (r : AskResult R)
      → Busy s a
      → act.ask u a ≡ some (b, ks, r)
      → Done s b
  pub async_ask :
      (s : Stage) (u : U) (a b : A) (ks : List Command)
      → Busy s a
      → act.async_ask u a ≡ some (b, ks)
      → Done s b
  pub async_future :
      (s : Stage) (u : U) (a b : A) (r : Raced R)
      → Done s a
      → act.async_future u a ≡ some (b, r)
      → Done s b
  -- a message of the library's own has no handler of the user's
  pub post_run :
      (s : Stage) (a b : A) (ks : List Command)
      → Busy s a ⊎ Done s a
      → act.post_run a ≡ some (b, ks)
      → Idle s b
  pub on_stopping :
      (a b : A) (ks : List Command)
      → Idle serving a
      → act.on_stopping a ≡ some (b, ks)
      → Idle stopping b
  pub on_stopped :
      (a b : A) (ks : List Command)
      → Idle stopping a
      → act.on_stopped a ≡ some (b, ks)
      → Idle stopped b
  pub on_end : (a b : A) (ks : List Command) → Idle stopped a → act.on_end a ≡ some (b, ks) → Over b

module _ {A U R Chan W S : Type 0} (tk : Tokio (SendMessage U) Chan W S) (act : Actor A U R) where
  -- What holds of the actor that code comes to, if it comes to one.
  abbrev pub After : (A → Type 0) → Flow (Executor A R Chan W S) → Type 0
  After P (ok y) = P y.actor
  After P panicked = Unit
  After P blocked = Unit

  pub After-ok :
      (P : A → Type 0) (m : Flow (Executor A R Chan W S)) (y : Executor A R Chan W S)
      → After P m
      → m ≡ ok y
      → P y.actor
  After-ok P m y p h = subst (After P) h p

  After-bind :
      (P Q : A → Type 0) (m : Flow (Executor A R Chan W S))
      (f : Executor A R Chan W S → Flow (Executor A R Chan W S))
      → After P m
      → ((y : Executor A R Chan W S) → P y.actor → After Q (f y))
      → After Q (m >>= f)
  After-bind P Q (ok y) f p q = q y p
  After-bind P Q panicked f p q = tt
  After-bind P Q blocked f p q = tt

  After-const :
      {B : Type 0} (Q : A → Type 0) (m : Flow B) (f : B → Flow (Executor A R Chan W S))
      → ((b : B) → After Q (f b))
      → After Q (m >>= f)
  After-const Q (ok b) f q = q b
  After-const Q panicked f q = tt
  After-const Q blocked f q = tt

  pub react-After :
      (P : A → Type 0) (r : Option (A × List Command)) (x : Executor A R Chan W S)
      → ((b : A) (ks : List Command) → r ≡ some (b, ks) → P b)
      → After P (react tk act r x)
  react-After P none x p = tt
  react-After P (some (b, ks)) x p =
      After-const P (run_commands tk ks x.context) _ (λ c. p b ks refl)

  react_ask-After :
      (P : A → Type 0) (r : Option (A × List Command × AskResult R)) (tx : ℕ)
      (x : Executor A R Chan W S)
      → ((b : A) (ks : List Command) (a : AskResult R) → r ≡ some (b, ks, a) → P b)
      → After P (react_ask tk act r tx x)
  react_ask-After P none tx x p = tt
  react_ask-After P (some (b, ks, result)) tx x p =
      After-bind P P (react tk act (some (b, ks)) x) _
        (react-After P (some (b, ks)) x (λ b' ks' e. subst P (cc e) (p b ks result refl)))
        (λ y q. finished result y q)
    where
      finished :
          (result : AskResult R) (y : Executor A R Chan W S)
          → P y.actor
          → P (finish_ask tk act result tx y).actor
      finished (reply r) y q = q
      finished task y q = q

  note_self-After :
      (P : A → Type 0) (p : TrySend (SendMessage U) × Chan) (x : Executor A R Chan W S)
      → P x.actor
      → After P (note_self tk act p x)
  note_self-After P (sent, c) x q = q
  note_self-After P (closed m, c) x q = q
  note_self-After P (full m, c) x q = tt

  finish_async-After :
      (P : A → Type 0) (r : Option (A × Raced R)) (tx : ℕ) (x : Executor A R Chan W S)
      → ((b : A) (a : Raced R) → r ≡ some (b, a) → P b)
      → After P (finish_async tk act r tx x)
  finish_async-After P none tx x p = tt
  finish_async-After P (some (b, Actor.response r)) tx x p = p b _ refl
  finish_async-After P (some (b, unending)) tx x p = tt
  finish_async-After P (some (b, changed)) tx x p =
      note_self-After P (tk.try_send (cancelled_envelope (confide cancel)) x.context.mailbox)
        (record x { actor = b }) (p b _ refl)

module _ {A U R Chan W S : Type 0} (tk : Tokio (SendMessage U) Chan W S) (act : Actor A U R)
    (Fresh : A → Type 0) (Idle Busy Done : Stage → A → Type 0) (Over : A → Type 0)
    (st : Stages act Fresh Idle Busy Done Over) (s : Stage) where
  -- The handler has run, or there was none to run.
  abbrev Handled : A → Type 0
  Handled a = Busy s a ⊎ Done s a

  send-After :
      (awaited : Bool) (m : SendMessage U) (x : Executor A R Chan W S)
      → Busy s x.actor
      → After tk act Handled (send tk act awaited m x)
  unfolding send
  send-After awaited (envelope e) x p = After-const tk act Handled (unwrap e).0 _ λ u.
      react-After tk act Handled (act.handle u x.actor) x λ b ks h. inr (st.handle s u _ b ks p h)
  send-After awaited (response e) x p = After-const tk act Handled (unwrap e.msg).0 _ λ u.
      After-const tk act Handled (take_tx e.tx) _ λ tx.
        react_ask-After tk act Handled (act.ask u x.actor) tx x
          λ b ks r h. inr (st.ask s u _ b ks r p h)
  send-After awaited (async_response e) x p = After-const tk act Handled (unwrap e.msg).0 _ λ u.
      After-const tk act Handled (take_tx e.tx) _ λ tx.
        After-bind tk act (Done s) Handled (react tk act (act.async_ask u x.actor) x) _
          (react-After tk act (Done s) (act.async_ask u x.actor) x
            λ b ks h. st.async_ask s u _ b ks p h)
          λ y q. raced awaited u tx y q
    where
      raced :
          (awaited : Bool) (u : U) (tx : ℕ) (y : Executor A R Chan W S)
          → Done s y.actor
          → After tk act Handled
              (if awaited then finish_async tk act (act.async_future u y.actor) tx y else ok y)
      raced true u tx y q =
          finish_async-After tk act Handled (act.async_future u y.actor) tx y
            λ b r h. inr (st.async_future s u _ b r q h)
      raced false u tx y q = inr q
  send-After awaited (shutdown_envelope e) x p =
      After-const tk act Handled (reveal e).0 _ λ m. inl p
  send-After awaited (cancelled_envelope e) x p =
      After-const tk act Handled (reveal e).0 _ λ m. inl p

  run_message-Idle :
      (x : Executor A R Chan W S) (m : SendMessage U)
      → Idle s x.actor
      → After tk act (Idle s) (run_message tk act x m)
  unfolding run_message
  run_message-Idle x m p =
      After-bind tk act (Busy s) (Idle s) (react tk act (act.pre_run x.actor) x) _
        (react-After tk act (Busy s) (act.pre_run x.actor) x λ b ks h. st.pre_run s _ b ks p h)
        λ y q.
          After-bind tk act Handled (Idle s) (send tk act (is_awaited (scheduler tk act m)) m y) _
            (send-After (is_awaited (scheduler tk act m)) m y q)
            λ z r.
              react-After tk act (Idle s) (act.post_run z.actor) z
                λ b ks h. st.post_run s _ b ks r h

  -- A message of a stage is processed within the stage.
  pub process_message-Idle :
      (x : Executor A R Chan W S) (m : SendMessage U) (y : Executor A R Chan W S) (l : ExecutorLoop)
      → Idle s x.actor
      → process_message tk act x m ≡ ok (y, l)
      → Idle s y.actor
  unfolding process_message
  process_message-Idle x m y l p h =
      let (z, ran, made) = >>=-eq-ok (run_message tk act x m) _ h in
      let same : z ≡ y = cc made in
      subst (λ w. Idle s w.actor) same
        (After-ok tk act (Idle s) (run_message tk act x m) z (run_message-Idle x m p) ran)

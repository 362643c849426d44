-- ===== src/Executor/Shutdown.antt =====
-- src/executor.rs, `stopping`, `stop` and `shutdown`: how an actor ends.
use tokactor.Common.{
  ℕ, zero, suc, ◌≤◌, ◌<◌, ◌≡◌, ◌≢◌, refl, sym, ap, ◌∙◌, subst, true, some, List, [], ◌∷◌, length,
  Flow, ok, panicked, blocked, ◌>>=◌, >>=-eq-ok, arith, ◌⊎◌, inl, inr, Bool-cases,
}
use tokactor.Tokio.{Tokio, TokioLaws}
use tokactor.Message.{SendMessage}
use tokactor.Actor.{Actor, Prompt}
use tokactor.Context.State.{rank}
use tokactor.Executor.{ExecutorLoop, Executor, process_message}
use tokactor.Executor.Awaits.{got, ended, polled}
use tokactor.Executor.Loops.{poll_recv, with_mailbox, has_children, drain, stop, on_drain}
use tokactor.Executor.Progress.{process_message-Progress, process_message-ne-blocked}

List-cases : {A : Type 0} (xs : List A) → (xs ≡ []) ⊎ ((a : A) × (r : List A) × (xs ≡ a ∷ r))
List-cases [] = inl refl
List-cases (a ∷ r) = inr (a, r, refl)

module _ {A U R Chan W S : Type 0} (tk : Tokio (SendMessage U) Chan W S) (act : Actor A U R) where
  -- The messages are received from the mailbox and processed one after another, in this order.
  pub data Handled
      : Executor A R Chan W S → List (SendMessage U) → Executor A R Chan W S → Type 0 where
    nothing : {x : Executor A R Chan W S} → Handled x [] x
    first :
        {x y z : Executor A R Chan W S} {ms : List (SendMessage U)} (m : SendMessage U) (c : Chan)
        (l : ExecutorLoop)
        → tk.try_recv x.context.mailbox ≡ (some m, c)
        → process_message tk act (with_mailbox tk act c x) m ≡ ok (y, l)
        → Handled y ms z
        → Handled x (m ∷ ms) z

  pub record Drained (x y : Executor A R Chan W S) : Type 0 where
    pub empty : tk.queue y.context.mailbox ≡ []
    pub closed : tk.is_closed y.context.mailbox ≡ true
    pub state : rank x.context.state ≤ rank y.context.state
    pub handled : Handled x (tk.queue x.context.mailbox) y

module _ {A U R Chan W S : Type 0} (tk : Tokio (SendMessage U) Chan W S) (act : Actor A U R)
    (laws : TokioLaws tk) where
  try_recv_pair :
      (c : Chan) (m : SendMessage U) (ms : List (SendMessage U))
      → tk.queue c ≡ m ∷ ms
      → tk.try_recv c ≡ (some m, (tk.try_recv c).1)
  try_recv_pair c m ms h = λ i. (laws.try_recv_some c m ms h i, (tk.try_recv c).1)

  pub poll_some :
      (c : Chan) (m : SendMessage U) (ms : List (SendMessage U))
      → tk.queue c ≡ m ∷ ms
      → poll_recv tk act c ≡ got m (tk.try_recv c).1
  poll_some c m ms h = ap (λ p. polled p (tk.is_closed c)) (try_recv_pair c m ms h)

  pub poll_ended : (c : Chan) → tk.queue c ≡ [] → tk.is_closed c ≡ true → poll_recv tk act c ≡ ended
  poll_ended c h shut = rw (laws.try_recv_none c h, shut)

  pub drain_empty :
      (fuel : ℕ) (x : Executor A R Chan W S)
      → tk.queue x.context.mailbox ≡ []
      → tk.is_closed x.context.mailbox ≡ true
      → drain tk act (suc fuel) x ≡ ok x
  unfolding drain
  drain_empty fuel x e shut =
      ap (λ p. on_drain tk act p x (drain tk act fuel)) (poll_ended x.context.mailbox e shut)

  -- The executor that has taken a message from its mailbox.
  abbrev pub taken : Executor A R Chan W S → Executor A R Chan W S
  taken x = with_mailbox tk act (tk.try_recv x.context.mailbox).1 x

  pub drain_first :
      (fuel : ℕ) (x : Executor A R Chan W S) (m : SendMessage U) (ms : List (SendMessage U))
      → tk.queue x.context.mailbox ≡ m ∷ ms
      → drain tk act (suc fuel) x
        ≡ (process_message tk act (taken x) m >>= λ p. drain tk act fuel p.0)
  unfolding drain
  drain_first fuel x m ms e =
      ap (λ p. on_drain tk act p x (drain tk act fuel)) (poll_some x.context.mailbox m ms e)

  -- What is left after the first message of a closed mailbox.
  taken_next :
      (x y : Executor A R Chan W S) (m : SendMessage U) (ms : List (SendMessage U))
      (l : ExecutorLoop)
      → tk.queue x.context.mailbox ≡ m ∷ ms
      → tk.is_closed x.context.mailbox ≡ true
      → process_message tk act (taken x) m ≡ ok (y, l)
      → (tk.queue y.context.mailbox ≡ ms)
        × (tk.is_closed y.context.mailbox ≡ true)
        × (rank x.context.state ≤ rank y.context.state)
  taken_next x y m ms l e shut h =
      let c = x.context.mailbox in
      let p = (process_message-Progress tk act laws (taken x) m y l h).0 in
      let shut' = laws.is_closed-try_recv c ∙ shut in
      (p.sealed shut' ∙ laws.queue-try_recv c m ms e, p.closed shut', p.state)

  drain-Drained :
      (fuel : ℕ) (x y : Executor A R Chan W S)
      → tk.is_closed x.context.mailbox ≡ true
      → drain tk act fuel x ≡ ok y
      → Drained tk act x y
  unfolding drain
  drain-Drained zero x y shut h = cc
  drain-Drained (suc fuel) x y shut h = elim (List-cases (tk.queue x.context.mailbox)) [
    | inl e ↦
        let same : x ≡ y = cc (sym (drain_empty fuel x e shut) ∙ h) in
        subst (Drained tk act x) same
          (record { empty = e; closed = shut; state = omega arith; handled = rw e nothing })
    | inr (m, ms, e) ↦
        let ((z, l), now, later) =
          >>=-eq-ok (process_message tk act (taken x) m) (λ p. drain tk act fuel p.0)
            (sym (drain_first fuel x m ms e) ∙ h) in
        let (rest, shut', up) = taken_next x z m ms l e shut now in
        let d = drain-Drained fuel z y shut' later in
        let pair = try_recv_pair x.context.mailbox m ms e in
        record {
          empty = d.empty;
          closed = d.closed;
          state = omega (arith, up, d.state);
          handled = rw e (
              first m (tk.try_recv x.context.mailbox).1 l pair now
                (subst (λ q. Handled tk act z q y) rest d.handled));
        }
  ]

  drain-ne-blocked :
      (fuel : ℕ) (x : Executor A R Chan W S)
      → Prompt act
      → tk.is_closed x.context.mailbox ≡ true
      → length (tk.queue x.context.mailbox) < fuel
      → drain tk act fuel x ≢ blocked
  drain-ne-blocked zero x prompt shut room h = absurd (omega arith)
  drain-ne-blocked (suc fuel) x prompt shut room h =
      elim (List-cases (tk.queue x.context.mailbox)) [
        | inl e ↦ cc (sym (drain_empty fuel x e shut) ∙ h)
        | inr (m, ms, e) ↦
            not_blocked (process_message tk act (taken x) m)
              (process_message-ne-blocked tk act laws (taken x) m prompt
                (laws.is_closed-try_recv x.context.mailbox ∙ shut))
              (λ z l now.
                let (rest, shut', up) = taken_next x z m ms l e shut now in
                drain-ne-blocked fuel z prompt shut' (omega (arith, ap length rest, ap length e)))
              (sym (drain_first fuel x m ms e) ∙ h)
      ]
    where
      not_blocked :
          (r : Flow (Executor A R Chan W S × ExecutorLoop))
          → r ≢ blocked
          → ((z : Executor A R Chan W S) (l : ExecutorLoop)
              → r ≡ ok (z, l)
              → drain tk act fuel z ≢ blocked)
          → (r >>= λ p. drain tk act fuel p.0) ≢ blocked
      not_blocked (ok (z, l)) p q e = q z l refl e
      not_blocked panicked p q e = cc
      not_blocked blocked p q e = p refl

  -- `stop` on a closed mailbox, when it returns, has processed exactly the messages that were
  -- queued, in their order, each once, and has left the mailbox closed and empty.
  pub stop-Drained :
      (x y : Executor A R Chan W S)
      → tk.is_closed x.context.mailbox ≡ true
      → stop tk act x ≡ ok y
      → Drained tk act x y
  unfolding stop
  stop-Drained x y shut h =
      drain-Drained (suc (length (tk.queue x.context.mailbox))) x y shut (ground arith)

  -- The loop of `stop` comes to an end on a closed mailbox, if the actor's futures do: one more round than
  -- there are messages is enough.
  pub stop-ne-blocked :
      (x : Executor A R Chan W S)
      → Prompt act
      → tk.is_closed x.context.mailbox ≡ true
      → stop tk act x ≢ blocked
  unfolding stop
  stop-ne-blocked x prompt shut = elim (Bool-cases (has_children tk act x)) [
    | inl some_left ↦ rw some_left (λ e. cc)
    | inr alone ↦
        rw alone
          (drain-ne-blocked (suc (length (tk.queue x.context.mailbox))) x prompt shut (omega arith))
  ]

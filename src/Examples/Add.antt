-- ===== src/Examples/Add.antt =====
-- examples/add.rs: a counter that can be sent its numbers, asked with them, and asked asynchronously.
use tokactor.Common.{
  ℕ, ◌+◌, ◌^◌, ◌≡◌, refl, ap, ◌∙◌, true, false, Option, none, some, List, [], ◌∷◌, ◌++◌, map,
  append_assoc, Flow, ok, panicked, ◌>>=◌, arith, ltb, if◌then◌else◌, ◌⊎◌, inl, inr, Bool-cases,
}
use tokactor.Tokio.{Tokio}
use tokactor.Message.{SendMessage, envelope, enclose, running}
use tokactor.Actor.{Actor, defaults, Command, anonymous_handle, AskResult, reply, task}
use tokactor.Actor
use tokactor.Context.{Ctx, replies, emit, run_commands}
use tokactor.Address.{ask_message, async_message}
use tokactor.Executor.{
  Executor, ExecutorLoop, continue, break, process_message, run_message, send, scheduler,
}
use tokactor.Executor.Answers.{answers_in, answers_in-append}
use tokactor.Executor.Answering.{answered}

-- `Add`, `Sleep` and `Sum`
pub data Msg : Type 0 where
  add sleep : ℕ → Msg
  sum : Msg

-- `()`, or a `Counter`
pub data Answer : Type 0 where
  unit : Answer
  counted : ℕ → Answer

-- `self.inner += message.0` of a `u32`
unfoldable pub add_up : ℕ → ℕ → Option ℕ
add_up n inner = if ltb (inner + n) (2 ^ 32) then some (inner + n) else none

abbrev added : Option ℕ → Option (ℕ × List Command)
added none = none
added (some inner) = some (inner, [])

abbrev added_reply : Option ℕ → Option (ℕ × List Command × AskResult Answer)
added_reply none = none
added_reply (some inner) = some (inner, [], reply unit)

-- `Handler<Add>`; the program has no handler for the other messages, and does not send them.
abbrev pub on_send : Msg → ℕ → Option (ℕ × List Command)
on_send (add n) inner = added (add_up n inner)
on_send _ inner = none

-- `Ask<Sum>`
abbrev on_sum : ℕ → Option (ℕ × List Command × AskResult Answer)
on_sum inner = some (inner, [], reply (counted inner))

-- `Ask<Add>`, `Ask<Sleep>` and `Ask<Sum>`
abbrev pub on_ask : Msg → ℕ → Option (ℕ × List Command × AskResult Answer)
on_ask (add n) inner = added_reply (add_up n inner)
on_ask (sleep time) inner = some (inner, anonymous_handle ∷ [], task)
on_ask sum inner = on_sum inner

-- `AsyncAsk<Add>`, up to its future, which is ready
abbrev pub on_async_ask : Msg → ℕ → Option (ℕ × List Command)
on_async_ask (add n) inner = added (add_up n inner)
on_async_ask _ inner = none

-- `Counter`, with the defaults of `Actor`, on a machine of 64 bits
abbrev pub counter : Actor ℕ Msg Answer
counter = record defaults {
  handle = on_send;
  ask = on_ask;
  async_ask = on_async_ask;
  async_future = λ u a. some (a, Actor.response unit);
}

-- `send_async`, `ask` and `async_ask`
pub data Way : Type 0 where
  sends asks async_asks : Way

-- A number, the way that it is sent, and the oneshot channel of its answer.
abbrev pub Sending : Type 0
Sending = Way × ℕ × ℕ

abbrev pub letter : Sending → SendMessage Msg
letter (sends, n, tx) = envelope (enclose (add n))
letter (asks, n, tx) = ask_message (add n) tx
letter (async_asks, n, tx) = async_message (add n) tx

abbrev pub receipts : List Sending → List (ℕ × Answer)
receipts [] = []
receipts ((sends, n, tx) ∷ ps) = receipts ps
receipts ((asks, n, tx) ∷ ps) = (tx, unit) ∷ receipts ps
receipts ((async_asks, n, tx) ∷ ps) = (tx, unit) ∷ receipts ps

abbrev pub total : List Sending → ℕ
total [] = 0
total ((w, n, tx) ∷ ps) = n + total ps

module _ {Chan W S : Type 0} (tk : Tokio (SendMessage Msg) Chan W S) where
  abbrev pub Counting : Type 0
  Counting = Executor ℕ Answer Chan W S

  abbrev proceed : (Counting → Flow Counting) → Counting × ExecutorLoop → Flow Counting
  proceed rest (x, continue) = rest x
  proceed rest (x, break) = ok x

  -- The actor takes these messages one after another, until it no longer runs.
  abbrev pub process_all : List (SendMessage Msg) → Counting → Flow Counting
  process_all [] x = ok x
  process_all (m ∷ ms) x = process_message tk counter x m >>= proceed (process_all ms)

  abbrev noted : Way → ℕ → Ctx Answer Chan W S → Ctx Answer Chan W S
  noted sends tx c = c
  noted asks tx c = emit (replies tx unit) c
  noted async_asks tx c = emit (replies tx unit) c

  -- The counter that was told a number.
  abbrev told : Sending → Counting → Counting
  told p x = record x { actor = x.actor + p.1; context = noted p.0 p.2 x.context }

  take_in :
      (p : Sending) (x : Counting)
      → ltb (x.actor + p.1) (2 ^ 32) ≡ true
      → x.context.state ≡ running
      → process_message tk counter x (letter p) ≡ ok (told p x, continue)
  unfolding process_message run_message send scheduler run_commands add_up
  take_in (sends, n, tx) x fits runs = rw (fits, runs) refl
  take_in (asks, n, tx) x fits runs = rw (fits, runs) refl
  take_in (async_asks, n, tx) x fits runs = rw (fits, runs) refl

  too_much :
      (p : Sending) (x : Counting)
      → ltb (x.actor + p.1) (2 ^ 32) ≡ false
      → process_message tk counter x (letter p) ≡ panicked
  unfolding process_message run_message send scheduler run_commands add_up
  too_much (sends, n, tx) x over = rw over refl
  too_much (asks, n, tx) x over = rw over refl
  too_much (async_asks, n, tx) x over = rw over refl

  report :
      (tx : ℕ) (x : Counting)
      → x.context.state ≡ running
      → process_message tk counter x (ask_message sum tx)
        ≡ ok (record x { context = emit (replies tx (counted x.actor)) x.context }, continue)
  unfolding process_message run_message send scheduler run_commands
  report tx x runs = rw runs refl

  -- What a program sends to the counter: its numbers, and a question for their sum.
  abbrev pub program : List Sending → ℕ → List (SendMessage Msg)
  program ps tx = map letter ps ++ ask_message sum tx ∷ []

  -- What the counter comes to when the sum fits in 32 bits.
  pub Summed : List Sending → ℕ → Counting → Type 0
  Summed ps tx x =
      (y : Counting) × (process_all (program ps tx) x ≡ ok y)
      × (y.actor ≡ x.actor + total ps)
      × (answered tk counter y
          ≡ answered tk counter x ++ (receipts ps ++ (tx, counted (x.actor + total ps)) ∷ []))

  one_more :
      (tx : ℕ) (ps : List Sending) (x : Counting) (last : List (ℕ × Answer))
      → answers_in (x.context.effects ++ replies tx unit ∷ []) ++ (receipts ps ++ last)
        ≡ answered tk counter x ++ ((tx, unit) ∷ receipts ps ++ last)
  one_more tx ps x last =
      ap (λ l. l ++ (receipts ps ++ last))
        (answers_in-append x.context.effects (replies tx unit ∷ []))
      ∙ append_assoc (answered tk counter x) ((tx, unit) ∷ []) (receipts ps ++ last)

  told-answered :
      (p : Sending) (ps : List Sending) (x : Counting) (last : List (ℕ × Answer))
      → answered tk counter (told p x) ++ (receipts ps ++ last)
        ≡ answered tk counter x ++ (receipts (p ∷ ps) ++ last)
  told-answered (sends, n, tx) ps x last = refl
  told-answered (asks, n, tx) ps x last = one_more tx ps x last
  told-answered (async_asks, n, tx) ps x last = one_more tx ps x last

  still_runs : (p : Sending) (x : Counting) → (told p x).context.state ≡ x.context.state
  still_runs (sends, n, tx) x = refl
  still_runs (asks, n, tx) x = refl
  still_runs (async_asks, n, tx) x = refl

  summed :
      (ps : List Sending) (tx : ℕ) (x : Counting)
      → ltb (x.actor + total ps) (2 ^ 32) ≡ true
      → x.context.state ≡ running
      → Summed ps tx x
  unfolding Summed
  summed [] tx x fits runs =
      let same : x.actor ≡ x.actor + 0 = omega arith in
      (
        record x { context = emit (replies tx (counted x.actor)) x.context },
        ap (λ r. r >>= proceed (process_all [])) (report tx x runs),
        same,
        answers_in-append x.context.effects (replies tx (counted x.actor) ∷ [])
            ∙ ap (λ k. answered tk counter x ++ (tx, counted k) ∷ []) same,
      )
  summed (p ∷ ps) tx x fits runs =
      let same : x.actor + p.1 + total ps ≡ x.actor + (p.1 + total ps) = omega arith in
      let head : ltb (x.actor + p.1) (2 ^ 32) ≡ true = ground (arith, fits) in
      let (y, ran, end, sent_) =
        summed ps tx (told p x) (ap (λ k. ltb k (2 ^ 32)) same ∙ fits) (still_runs p x ∙ runs) in
      (
        y,
        ap (λ r. r >>= proceed (process_all (program ps tx))) (take_in p x head runs) ∙ ran,
        end ∙ same,
        sent_
            ∙ told-answered p ps x ((tx, counted (x.actor + p.1 + total ps)) ∷ [])
            ∙ ap (λ k. answered tk counter x ++ (receipts (p ∷ ps) ++ (tx, counted k) ∷ [])) same,
      )

  overflows :
      (ps : List Sending) (tx : ℕ) (x : Counting)
      → ltb x.actor (2 ^ 32) ≡ true
      → ltb (x.actor + total ps) (2 ^ 32) ≡ false
      → x.context.state ≡ running
      → process_all (program ps tx) x ≡ panicked
  overflows [] tx x small over runs = absurd (ground (arith, small, over))
  overflows (p ∷ ps) tx x small over runs =
      let same : x.actor + p.1 + total ps ≡ x.actor + (p.1 + total ps) = omega arith in
      let rest = proceed (process_all (program ps tx)) in
      elim (Bool-cases (ltb (x.actor + p.1) (2 ^ 32))) [
        | inl fits ↦
            ap (λ r. r >>= rest) (take_in p x fits runs)
            ∙ overflows ps tx (told p x) fits (ap (λ k. ltb k (2 ^ 32)) same ∙ over)
                (still_runs p x ∙ runs)
        | inr now ↦ ap (λ r. r >>= rest) (too_much p x now)
      ]

  -- A counter that runs and holds a `u32` is told numbers in any of the three ways and is then asked
  -- for their sum. If the sum fits in 32 bits, it answers each question about a number once, in order,
  -- and the last with the sum, in whichever ways the numbers came; if not, the actor panics.
  pub process_all-Summed :
      (ps : List Sending) (tx : ℕ) (x : Counting)
      → ltb x.actor (2 ^ 32) ≡ true
      → x.context.state ≡ running
      → ((ltb (x.actor + total ps) (2 ^ 32) ≡ true) × Summed ps tx x)
        ⊎ ((ltb (x.actor + total ps) (2 ^ 32) ≡ false) × (process_all (program ps tx) x ≡ panicked))
  process_all-Summed ps tx x small runs = elim (Bool-cases (ltb (x.actor + total ps) (2 ^ 32))) [
    | inl fits ↦ inl (fits, summed ps tx x fits runs)
    | inr over ↦ inr (over, overflows ps tx x small over runs)
  ]

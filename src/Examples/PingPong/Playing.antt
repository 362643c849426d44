-- ===== src/Examples/PingPong/Playing.antt =====
-- examples/ping-pong.rs: the run of the actor and of the program together, over the loops of
-- src/executor.rs.
use tokactor.Common.{
  ℕ, zero, suc, ◌+◌, ◌<◌, ◌≤◌, ◌≡◌, refl, sym, ap, ◌∙◌, true, false, Option, some, [], ◌∷◌, ◌++◌,
  append_assoc, append-nil, ok, panicked, arith, ltb, ◌⊎◌, inl, inr, Bool-cases,
}
use tokactor.Tokio.{Tokio, TokioLaws}
use tokactor.Message.{SendMessage, running, into_inner}
use tokactor.Context.{replies, emit, run_commands}
use tokactor.Address.{ask_message, shutdown_message}
use tokactor.Executor.{Executor, continue, process_message, run_message, send, scheduler}
use tokactor.Executor.Answers.{answers_in-append}
use tokactor.Executor.Answering.{answered}
use tokactor.Executor.Awaits.{wakes, Outcome, ready, panics, drive, and_then}
use tokactor.Executor.Loops.{next, actor_turn, run_actor, shutdown_executor, take_sender}
use tokactor.Executor.Schedule.{drive_stay, drive_leave, drive_crash}
use tokactor.Executor.Silent.{asked, process_await, to_drain, shutdown_silent, drain_nothing}
use tokactor.Executor.Taking.{Waits, got_it, sent_to, one_message, delivered, woken}
use tokactor.Examples.PingPong.{Msg, next_of, on_ask, ping_pong, ping_pong-Silent, program, answers}

module _ {Chan W S : Type 0} (tk : Tokio (SendMessage Msg) Chan W S) (laws : TokioLaws tk) where
  -- The executor that has answered a question.
  abbrev counted : Msg → ℕ → Executor ℕ Msg Chan W S → Executor ℕ Msg Chan W S
  counted message tx x =
      let y = got_it tk ping_pong laws (ask_message message tx) x in
      record y { actor = x.actor + 1; context = emit (replies tx (next_of message)) y.context }

  one_answer :
      (message : Msg) (tx : ℕ) (x : Executor ℕ Msg Chan W S)
      → x.context.state ≡ running
      → ltb (x.actor + 1) 256 ≡ true
      → process_message tk ping_pong
          (got_it tk ping_pong laws (ask_message message tx) x)
          (ask_message message tx)
        ≡ ok (counted message tx x, continue)
  unfolding process_message run_message send scheduler run_commands on_ask
  one_answer message tx x runs fits = rw (fits, runs) refl

  too_many :
      (message : Msg) (tx : ℕ) (x : Executor ℕ Msg Chan W S)
      → ltb (x.actor + 1) 256 ≡ false
      → process_message tk ping_pong
          (got_it tk ping_pong laws (ask_message message tx) x)
          (ask_message message tx)
        ≡ panicked
  unfolding process_message run_message send scheduler run_commands on_ask
  too_many message tx x over = rw over refl

  counted-Waits :
      (message : Msg) (tx : ℕ) (x : Executor ℕ Msg Chan W S)
      → Waits tk ping_pong laws x
      → Waits tk ping_pong laws (counted message tx x)
  counted-Waits message tx x v =
      let w = (one_message tk ping_pong laws (ask_message message tx) x v).1 in
      record {
        calm = record { runs = w.calm.runs; alone = w.calm.alone; settled = w.calm.settled };
        empty = w.empty;
        open_ = w.open_;
        room = w.room;
      }

  -- The program from its loop on.
  abbrev from_loop :
      Outcome Msg (Executor ℕ Msg Chan W S) → Outcome Msg (Executor ℕ Msg Chan W S × Option (ℕ × ℕ))
  from_loop o = and_then o λ z later.
      and_then (shutdown_executor tk ping_pong z later)
        λ w last. ready (take_sender tk ping_pong w) last

  abbrev looped :
      ℕ → Msg → ℕ → Executor ℕ Msg Chan W S → Outcome Msg (Executor ℕ Msg Chan W S × Option (ℕ × ℕ))
  looped n message tx x = from_loop (drive (actor_turn tk ping_pong) x (program n message tx))

  -- What the program comes to if the counter does not overflow.
  pub Comes :
      ℕ
      → Msg
      → ℕ
      → Executor ℕ Msg Chan W S
      → Outcome Msg (Executor ℕ Msg Chan W S × Option (ℕ × ℕ))
      → Type 0
  Comes n message tx x o =
      (y : Executor ℕ Msg Chan W S) × (o ≡ ready (y, some (tx + n, x.actor + n)) [])
      × (answered tk ping_pong y ≡ answered tk ping_pong x ++ answers n message tx)

  last_request :
      (message : Msg) (tx : ℕ) (x : Executor ℕ Msg Chan W S)
      → Waits tk ping_pong laws x
      → Comes zero message tx x (looped zero message tx x)
  unfolding Comes program answers into_inner
  last_request message tx x v =
      let m = shutdown_message true tx in
      let (held, w) = one_message tk ping_pong laws m x v in
      let z = asked tk ping_pong laws ping_pong-Silent tx (got_it tk ping_pong laws m x) in
      let end = to_drain tk ping_pong laws ping_pong-Silent z in
      let looped_ : drive (actor_turn tk ping_pong) x (program zero message tx) ≡ ready z [] =
        delivered tk ping_pong laws m x (wakes ∷ [])
        ∙ drive_leave (actor_turn tk ping_pong) (sent_to tk ping_pong laws m x) wakes [] (
            woken tk ping_pong laws m x v
            ∙ ap (next tk ping_pong) (
                process_await tk ping_pong laws ping_pong-Silent tx (got_it tk ping_pong laws m x)
                  w.calm.runs)) in
      (
        (take_sender tk ping_pong end).0,
        ap from_loop looped_
            ∙ rw
                (shutdown_silent tk ping_pong laws ping_pong-Silent z end [] w.calm.alone
                  (drain_nothing tk ping_pong laws ping_pong-Silent z w.empty))
                (let same : x.actor ≡ x.actor + zero = omega arith in
                  let chan : tx ≡ tx + zero = omega arith in
                  λ i. ready ((take_sender tk ping_pong end).0, some (chan i, same i)) []),
        sym (append-nil (answered tk ping_pong x)),
      )

  first_answer :
      (n : ℕ) (message : Msg) (tx : ℕ) (x : Executor ℕ Msg Chan W S)
      → Waits tk ping_pong laws x
      → ltb (x.actor + 1) 256 ≡ true
      → looped (suc n) message tx x ≡ looped n (next_of message) (suc tx) (counted message tx x)
  unfolding program
  first_answer n message tx x v fits =
      let m = ask_message message tx in
      ap from_loop (
        delivered tk ping_pong laws m x (wakes ∷ program n (next_of message) (suc tx))
        ∙ drive_stay (actor_turn tk ping_pong) (sent_to tk ping_pong laws m x) wakes
            (program n (next_of message) (suc tx))
            (woken tk ping_pong laws m x v
              ∙ ap (next tk ping_pong) (one_answer message tx x v.calm.runs fits)))

  first_panic :
      (n : ℕ) (message : Msg) (tx : ℕ) (x : Executor ℕ Msg Chan W S)
      → Waits tk ping_pong laws x
      → ltb (x.actor + 1) 256 ≡ false
      → looped (suc n) message tx x ≡ panics
  unfolding program
  first_panic n message tx x v over_ =
      let m = ask_message message tx in
      ap from_loop (
        delivered tk ping_pong laws m x (wakes ∷ program n (next_of message) (suc tx))
        ∙ drive_crash (actor_turn tk ping_pong) (sent_to tk ping_pong laws m x) wakes
            (program n (next_of message) (suc tx))
            (woken tk ping_pong laws m x v ∙ ap (next tk ping_pong) (too_many message tx x over_)))

  looped-Comes :
      (n : ℕ) (message : Msg) (tx : ℕ) (x : Executor ℕ Msg Chan W S)
      → Waits tk ping_pong laws x
      → x.actor + n < 256
      → Comes n message tx x (looped n message tx x)
  unfolding Comes answers
  looped-Comes zero message tx x v fits = last_request message tx x v
  looped-Comes (suc n) message tx x v fits =
      let now_fits : ltb (x.actor + 1) 256 ≡ true = ground (arith, fits) in
      let (y, ran, said) =
        looped-Comes n (next_of message) (suc tx) (counted message tx x)
          (counted-Waits message tx x v) (omega (arith, fits)) in
      let sum : x.actor + 1 + n ≡ x.actor + suc n = omega arith in
      let chan : suc tx + n ≡ tx + suc n = omega arith in
      (
        y,
        first_answer n message tx x v now_fits ∙ ran ∙ (λ i. ready (y, some (chan i, sum i)) []),
        said
            ∙ ap (λ l. l ++ answers n (next_of message) (suc tx))
                (answers_in-append x.context.effects (replies tx (next_of message) ∷ []))
            ∙ append_assoc (answered tk ping_pong x) ((tx, next_of message) ∷ [])
                (answers n (next_of message) (suc tx)),
      )

  looped-panics :
      (n : ℕ) (message : Msg) (tx : ℕ) (x : Executor ℕ Msg Chan W S)
      → Waits tk ping_pong laws x
      → x.actor < 256
      → 256 ≤ x.actor + n
      → looped n message tx x ≡ panics
  looped-panics zero message tx x v small large = absurd (omega (arith, small, large))
  looped-panics (suc n) message tx x v small large = elim (Bool-cases (ltb (x.actor + 1) 256)) [
    | inl fits ↦
        first_answer n message tx x v fits
        ∙ looped-panics n (next_of message) (suc tx) (counted message tx x)
            (counted-Waits message tx x v) (ground (arith, fits)) (omega (arith, large))
    | inr over_ ↦ first_panic n message tx x v over_
  ]

  -- An actor that counts in a `u8`, and waits with room in its open mailbox, is asked `n` times, first with
  -- a message and then with each answer, and is then awaited. If the count stays below 256, the whole
  -- run ends, the actor has answered every question in turn, ping by pong and pong by ping, and the
  -- program gets it with `n` more counted; if not, the actor panics.
  pub run_actor-counts :
      (n : ℕ) (message : Msg) (tx : ℕ) (x : Executor ℕ Msg Chan W S)
      → Waits tk ping_pong laws x
      → x.actor < 256
      → ((x.actor + n < 256)
          × Comes n message tx x (run_actor tk ping_pong x (program n message tx)))
        ⊎ ((256 ≤ x.actor + n) × (run_actor tk ping_pong x (program n message tx) ≡ panics))
  unfolding run_actor run_commands
  run_actor-counts n message tx x v small = elim (Bool-cases (ltb (x.actor + n) 256)) [
    | inl fits ↦
        let bound : x.actor + n < 256 = ground (arith, fits) in
        inl (bound, looped-Comes n message tx x v bound)
    | inr over_ ↦
        let bound : 256 ≤ x.actor + n = ground (arith, over_) in
        inr (bound, looped-panics n message tx x v small bound)
  ]

-- ===== src/Address/Results.antt =====
-- src/address.rs: what the caller of each method of an address gets back.
use tokactor.Common.{
  ℕ, ◌+◌, ◌≤◌, ◌<◌, ◌≡◌, refl, sym, ap, ◌∙◌, Bool, true, false, Option, List, [], ◌∷◌, ◌++◌, map,
  append_assoc, append-nil, length, length-append, Flow, ok, panicked, blocked, ◌>>=◌, arith, inl,
  inr, Bool-cases,
}
use tokactor.Tokio.{Tokio, TrySend, TokioLaws}
use tokactor.Tokio.Room.{has_room, by_room, try_send_lem, push_through}
use tokactor.Message.{SendMessage, envelope, enclose}
use tokactor.Address.{
  AskError, SendError, lost, IntoFutureError, mailbox_closed, Reply, fine, failed, send, send_async,
  internal_send_async, ask, async_ask, wait_for_completion, into_future, completed, answered,
  ask_message, async_message, shutdown_message, sent_now, sent_later, ask_outcome, awaited,
}

module _ {U Chan W S : Type 0} (tk : Tokio (SendMessage U) Chan W S) (laws : TokioLaws tk) where
  send_lem :
      (m : U) (c : Chan)
      → send tk m c
        ≡ ok (
            by_room tk c
              (failed (SendError.closed m), c)
              (fine tt, (tk.try_send (envelope (enclose m)) c).1)
              (failed (SendError.full m), c))
  unfolding send
  send_lem m c =
      ap (sent_now tk) (try_send_lem tk laws (envelope (enclose m)) c)
      ∙ push_through tk (sent_now tk) c _ _ _
      ∙ sym (push_through tk ok c _ _ _)

  pub send_async_lem :
      (m : U) (c : Chan)
      → send_async tk m c
        ≡ by_room tk c
            (ok (failed (SendError.closed m), c))
            (ok (fine tt, (tk.try_send (envelope (enclose m)) c).1))
            blocked
  unfolding send_async
  send_async_lem m c =
      ap (sent_later tk _) (try_send_lem tk laws (envelope (enclose m)) c)
      ∙ push_through tk (sent_later tk _) c _ _ _

  module _ {R : Type 0} (m : U) (tx : ℕ) (o : Option R) (c : Chan) where
    abbrev pub asked_by : SendMessage U → Flow (Reply R (AskError U) × Chan)
    asked_by b = by_room tk c panicked (ok (answered tk o, (tk.try_send b c).1)) blocked

    outcome-asked_by :
        (b : SendMessage U)
        → ask_outcome tk o (tk.try_send b c)
          ≡ by_room tk c
              (ask_outcome tk o (TrySend.closed b, c))
              (ok (answered tk o, (tk.try_send b c).1))
              blocked
    outcome-asked_by b =
        ap (ask_outcome tk o) (try_send_lem tk laws b c)
        ∙ push_through tk (ask_outcome tk o) c _ _ _

    -- `ask` and `async_ask` give the actor's answer, or `Dropped` when the actor dropped the question,
    -- and wait while the mailbox is full. On a closed mailbox they panic, since what comes back is no
    -- `Envelope`, where the documentation promises the message back.
    pub ask_lem :
        (ask tk m tx o c ≡ asked_by (ask_message m tx))
        × (async_ask tk m tx o c ≡ asked_by (async_message m tx))
    unfolding ask async_ask
    ask_lem = (outcome-asked_by (ask_message m tx), outcome-asked_by (async_message m tx))

  module _ {A : Type 0} (tx : ℕ) (o : Option A) (c : Chan) where
    internal_send_lem :
        (stop_now : Bool)
        → internal_send_async tk (shutdown_message stop_now tx) c
          ≡ by_room tk c
              (ok (failed lost, c))
              (ok (fine tt, (tk.try_send (shutdown_message stop_now tx) c).1))
              blocked
    unfolding internal_send_async
    internal_send_lem stop_now =
        ap (sent_later tk _) (try_send_lem tk laws (shutdown_message stop_now tx) c)
        ∙ push_through tk (sent_later tk _) c _ _ _

    -- `wait_for_completion` and awaiting an address differ only in the message that they send.
    abbrev awaited_by : Bool → Flow (Reply A IntoFutureError × Chan)
    awaited_by stop_now =
        by_room tk c (ok (failed mailbox_closed, c))
          (ok (completed tk o, (tk.try_send (shutdown_message stop_now tx) c).1)) blocked

    wait_for_completion_lem : wait_for_completion tk tx o c ≡ awaited_by false
    unfolding wait_for_completion
    wait_for_completion_lem =
        ap (λ r. r >>= λ p. ok (awaited tk o p)) (internal_send_lem false)
        ∙ push_through tk (λ r. r >>= λ p. ok (awaited tk o p)) c _ _ _

    awaiting_lem : into_future tk tx o c ≡ awaited_by true
    unfolding into_future
    awaiting_lem = elim (Bool-cases (tk.is_closed c)) [
      | inl shut ↦ rw shut
      | inr open_ ↦ rw open_ (
          ap (λ r. r >>= λ p. ok (awaited tk o p)) (internal_send_lem true)
          ∙ push_through tk (λ r. r >>= λ p. ok (awaited tk o p)) c _ _ _
          ∙ rw open_)
    ]

    -- Awaiting an address and `wait_for_completion` give `MailboxClosed` if the actor has closed its
    -- mailbox, and otherwise, once there is room for their request, the actor, or `Paniced` when it
    -- was dropped. The first asks the actor to stop, and the second does not.
    pub into_future_lem :
        (into_future tk tx o c ≡ awaited_by true)
        × (wait_for_completion tk tx o c ≡ awaited_by false)
    into_future_lem = (awaiting_lem, wait_for_completion_lem)

  -- The calls of `send` for one message after another.
  send_all : List U → Chan → Flow Chan
  send_all [] c = ok c
  send_all (m ∷ ms) c = send tk m c >>= λ p. send_all ms p.1

  send_room :
      (m : U) (c : Chan)
      → tk.is_closed c ≡ false
      → length (tk.queue c) < tk.capacity c
      → send tk m c ≡ ok (fine tt, (tk.try_send (envelope (enclose m)) c).1)
  send_room m c open_ room =
      let fits : has_room tk c ≡ true = ground arith in send_lem m c ∙ rw (open_, fits)

  -- Messages that the mailbox has room for are all accepted and stand in it in the order of the
  -- calls, behind what was there.
  send_all_lem :
      (ms : List U) (c : Chan)
      → tk.is_closed c ≡ false
      → length (tk.queue c) + length ms ≤ tk.capacity c
      → (d : Chan) × (send_all ms c ≡ ok d)
        × (tk.queue d ≡ tk.queue c ++ map (λ m. envelope (enclose m)) ms)
  unfolding send_all
  send_all_lem [] c open_ room = (c, refl, sym (append-nil (tk.queue c)))
  send_all_lem (m ∷ ms) c open_ room =
      let b : SendMessage U = envelope (enclose m) in
      let fits : length (tk.queue c) < tk.capacity c = omega arith in
      let c' = (tk.try_send b c).1 in
      let grown : tk.queue c' ≡ tk.queue c ++ b ∷ [] = laws.queue-try_send b c open_ fits in
      let more = length-append (tk.queue c) (b ∷ []) in
      let (d, sent_, queued) =
        send_all_lem ms c' (laws.is_closed-try_send b c ∙ open_)
          (omega (arith, ap length grown, more, laws.capacity-try_send b c)) in
      (
        d,
        rw (send_room m c open_ fits) sent_,
        queued
            ∙ ap (λ q. q ++ map (λ u. envelope (enclose u)) ms) grown
            ∙ append_assoc (tk.queue c) (b ∷ []) (map (λ u. envelope (enclose u)) ms),
      )

-- ===== src/Executor/Relay.antt =====
-- src/executor.rs: the actors that relay what comes through a typed address to their parent
-- (`child_with_custom_handle_rx`, `child_with_custom_ask_rx`, `child_with_custom_async_ask_rx`). What
-- the call on the parent comes to is part of the schedule.
use tokactor.Common.{
  ℕ, ◌≡◌, ap, ◌∙◌, sym, Option, none, some, List, [], ◌∷◌, ◌++◌, map, append_assoc, append-nil,
  Flow, ok, panicked, blocked,
}
use tokactor.Tokio.{SupervisorMessage}
use tokactor.Address.{Reply, fine, failed, SendError, lost, AskError}
use tokactor.Executor.Awaits.{Turn, stay, leave, crash, hang}

-- An await of the `select!`: the supervisor's notifier, or the channel of the address. A message
-- comes with what the call on the parent, by which it is passed on, comes to.
pub data RelayEvent (I C : Type 0) : Type 0 where
  notified : Option SupervisorMessage → RelayEvent I C
  supervisor_dropped : RelayEvent I C
  receives : I → Flow C → RelayEvent I C
  senders_gone : RelayEvent I C

pub data Relayed (X : Type 0) : Type 0 where
  finished : X → Relayed X
  waiting : X → Relayed X
  panics : Relayed X
  hangs : Relayed X

module _ {I C O : Type 0} (served : I → C → List O → Turn (List O)) where
  abbrev call_turn : I → Flow C → List O → Turn (List O)
  call_turn m (ok r) os = served m r os
  call_turn m panicked os = crash
  call_turn m blocked os = hang

  unfoldable pub relay_turn : RelayEvent I C → List O → Turn (List O)
  relay_turn (notified (some SupervisorMessage.shutdown)) os = leave os
  relay_turn (notified none) os = stay os
  relay_turn supervisor_dropped os = crash
  relay_turn (receives m r) os = call_turn m r os
  relay_turn senders_gone os = leave os

  -- The loop, up to `shutdown`, with what it has done so far.
  unfoldable pub relay : List (RelayEvent I C) → List O → Relayed (List O)
  unfolding relay_turn
  relay [] os = waiting os
  relay (e ∷ es) os = elim (relay_turn e os) [
    | stay os' ↦ relay es os'
    | leave os' ↦ finished os'
    | crash ↦ panics
    | hang ↦ hangs
  ]

-- `parent.send_async(message)`; what it has done is the messages that the parent accepted.
unfoldable pub relay_send :
    {I : Type 0} → I → Reply (Unit {0}) (SendError I) → List I → Turn (List I)
relay_send m (fine _) os = stay (os ++ m ∷ [])
relay_send m (failed (SendError.closed _)) os = leave os
relay_send m (failed (SendError.full _)) os = stay os
relay_send m (failed lost) os = stay os

-- `rx.send(parent.ask(message))`, and the same for `async_ask`; what it has done is its answers.
unfoldable pub relay_ask :
    {I R : Type 0}
    → I × ℕ
    → Reply R (AskError I)
    → List (ℕ × Reply R (AskError I))
    → Turn (List (ℕ × Reply R (AskError I)))
relay_ask (m, rx) r os = stay (os ++ (rx, r) ∷ [])

abbrev pub Sent : Type 0 → Type 0
Sent I = I × Reply (Unit {0}) (SendError I)

abbrev pub Question : Type 0 → Type 0 → Type 0
Question I R = I × ℕ × Reply R (AskError I)

module _ {I : Type 0} where
  abbrev pub sending : List (Sent I) → List (RelayEvent I (Reply (Unit {0}) (SendError I)))
  sending [] = []
  sending ((m, r) ∷ ms) = receives m (ok r) ∷ sending ms

  -- The messages that the parent took, before it closed its mailbox.
  abbrev pub taken : List (Sent I) → List I
  taken [] = []
  taken ((m, fine _) ∷ ms) = m ∷ taken ms
  taken ((m, failed (SendError.closed _)) ∷ ms) = []
  taken ((m, failed (SendError.full _)) ∷ ms) = taken ms
  taken ((m, failed lost) ∷ ms) = taken ms

  relay_from :
      (ms : List (Sent I)) (os : List I)
      → relay relay_send (sending ms ++ senders_gone ∷ []) os ≡ finished (os ++ taken ms)
  unfolding relay relay_turn relay_send
  relay_from [] os = ap finished (sym (append-nil os))
  relay_from ((m, fine _) ∷ ms) os =
      relay_from ms (os ++ m ∷ []) ∙ ap finished (append_assoc os (m ∷ []) (taken ms))
  relay_from ((m, failed (SendError.closed _)) ∷ ms) os = ap finished (sym (append-nil os))
  relay_from ((m, failed (SendError.full _)) ∷ ms) os = relay_from ms os
  relay_from ((m, failed lost) ∷ ms) os = relay_from ms os

  -- A relay of messages passes on each message that comes, in order, and skips those that find the
  -- parent's mailbox full; it ends at the first that finds it closed, or when its senders are gone.
  pub relay_send_lem :
      (ms : List (Sent I))
      → relay relay_send (sending ms ++ senders_gone ∷ []) [] ≡ finished (taken ms)
  relay_send_lem ms = relay_from ms []

module _ {I R : Type 0} where
  abbrev pub asking : List (Question I R) → List (RelayEvent (I × ℕ) (Reply R (AskError I)))
  asking [] = []
  asking ((m, rx, r) ∷ ms) = receives (m, rx) (ok r) ∷ asking ms

  abbrev pub replies : List (Question I R) → List (ℕ × Reply R (AskError I))
  replies = map (λ j. (j.1, j.2))

  questions_from :
      (js : List (Question I R)) (es : List (RelayEvent (I × ℕ) (Reply R (AskError I))))
      (os : List (ℕ × Reply R (AskError I)))
      → relay relay_ask (asking js ++ es) os ≡ relay relay_ask es (os ++ replies js)
  unfolding relay relay_turn relay_ask
  questions_from [] es os = ap (relay relay_ask es) (sym (append-nil os))
  questions_from ((m, rx, r) ∷ js) es os =
      questions_from js es (os ++ (rx, r) ∷ [])
      ∙ ap (relay relay_ask es) (append_assoc os ((rx, r) ∷ []) (replies js))

  -- A relay of questions answers each that the parent could be asked on its own channel with what
  -- the parent came back with, in order. A message to stop ends it with these answers; a question
  -- at which the call on the parent panics takes the relay with it.
  pub relay_ask_lem :
      (js : List (Question I R)) (m : I) (rx : ℕ)
      → (relay relay_ask (asking js ++ notified (some SupervisorMessage.shutdown) ∷ []) []
          ≡ finished (replies js))
        × (relay relay_ask (asking js ++ receives (m, rx) panicked ∷ []) [] ≡ panics)
  unfolding relay relay_turn
  relay_ask_lem js m rx = (questions_from js _ [], questions_from js _ [])

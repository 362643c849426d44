-- ===== src/Examples/Broadcast/Delivered.antt =====
-- examples/multi_tcp_world.rs: what each client is sent, against what it should hear.
use tokactor.Common.{
  ℕ, ◌≡◌, refl, sym, ap, ◌∙◌, Option, none, some, List, [], ◌∷◌, ◌++◌, append_assoc, append-nil,
  map, if◌then◌else◌, ◌==◌, inl, inr, Bool-cases,
}
use tokactor.Tokio.{Tokio, TokioLaws}
use tokactor.Tokio.Recording.{Account, recording}
use tokactor.Message.{
  SendMessage, envelope, response, async_response, shutdown_envelope, cancelled_envelope,
}
use tokactor.Executor.{Executor}
use tokactor.Executor.Awaits.{Event, ready}
use tokactor.Executor.Loops.{run_supervised_actor}
use tokactor.Executor.Replay.{replay, replay_one}
use tokactor.Executor.Replay.Runs.{Plain}
use tokactor.Executor.Replay.Supervised.{run_supervised_actor-replay}
use tokactor.Examples.Broadcast.{
  entries, remove, insert, entries-remove, entries-insert, Note, joins, says, leaves, Broadcaster,
  on_note, broadcaster,
}

abbrev listed : {Wr : Type 0} → Option Wr → List Wr
listed none = []
listed (some w) = w ∷ []

module _ {Wr : Type 0} where
  joined :
      (i j : ℕ) (o : Option Wr) (w : Wr) (l : List (ℕ × Wr))
      → entries i l ≡ listed o
      → entries i (insert j w l) ≡ listed (if i == j then some w else o)
  joined i j o w l h = elim (Bool-cases (i == j)) [
    | inl same ↦ rw same (entries-insert i j w l ∙ rw same refl)
    | inr other ↦ rw other (entries-insert i j w l ∙ rw other h)
  ]

  left :
      (i j : ℕ) (o : Option Wr) (l : List (ℕ × Wr))
      → entries i l ≡ listed o
      → entries i (remove j l) ≡ listed (if i == j then none else o)
  left i j o l h = elim (Bool-cases (i == j)) [
    | inl same ↦ rw same (entries-remove i j l ∙ rw same refl)
    | inr other ↦ rw other (entries-remove i j l ∙ rw other h)
  ]

module _ {B Wr : Type 0} where
  -- What a client should hear: everything that is said while it is there, on its latest writer.
  unfoldable pub due : ℕ → Option Wr → List (Note B Wr) → List (Wr × List B)
  due i o [] = []
  due i o (joins j w ∷ ns) =
      let there = due i (some w) ns in
      let as_before = due i o ns in if i == j then there else as_before
  due i none (says m ∷ ns) = due i none ns
  due i (some w) (says m ∷ ns) = (w, m) ∷ due i (some w) ns
  due i o (leaves j ∷ ns) =
      let gone = due i none ns in let as_before = due i o ns in if i == j then gone else as_before

  -- What it is sent by the tasks.
  abbrev to_write : ℕ → List (ℕ × Wr) × List B → List (Wr × List B)
  to_write i (l, m) = map (λ w. (w, m)) (entries i l)

  unfoldable pub received : ℕ → List (List (ℕ × Wr) × List B) → List (Wr × List B)
  received i [] = []
  received i (t ∷ ts) = to_write i t ++ received i ts

  -- The notes among the messages.
  unfoldable pub notes : List (SendMessage (Note B Wr)) → List (Note B Wr)
  notes [] = []
  notes (envelope e ∷ ms) = elim e.msg [ some n ↦ n ∷ notes ms | none ↦ notes ms ]
  notes (_ ∷ ms) = notes ms

  received-append_last :
      (i : ℕ) (ts : List (List (ℕ × Wr) × List B)) (t : List (ℕ × Wr) × List B)
      → received i (ts ++ t ∷ []) ≡ received i ts ++ to_write i t
  unfolding received
  received-append_last i [] t = append-nil (to_write i t)
  received-append_last i (u ∷ ts) t =
      ap (λ l. to_write i u ++ l) (received-append_last i ts t)
      ∙ sym (append_assoc (to_write i u) (received i ts) (to_write i t))

  said :
      (i : ℕ) (o : Option Wr) (m : List B) (ns : List (Note B Wr))
      → map (λ w. (w, m)) (listed o) ++ due i o ns ≡ due i o (says m ∷ ns)
  unfolding due
  said i none m ns = refl
  said i (some w) m ns = refl

  -- The client as it is there after a note.
  abbrev after : ℕ → Option Wr → Note B Wr → Option Wr
  after i o (joins j w) = if i == j then some w else o
  after i o (says m) = o
  after i o (leaves j) = if i == j then none else o

  due_next :
      (i : ℕ) (o : Option Wr) (n : Note B Wr) (ns : List (Note B Wr))
      → ((m : List B) → n ≡ says m → ⊥)
      → due i o (n ∷ ns) ≡ due i (after i o n) ns
  unfolding due
  due_next i o (joins j w) ns silent = elim (Bool-cases (i == j)) [
    | inl same ↦ rw same refl
    | inr other ↦ rw other refl
  ]
  due_next i o (says m) ns silent = absurd (silent m refl)
  due_next i o (leaves j) ns silent = elim (Bool-cases (i == j)) [
    | inl same ↦ rw same refl
    | inr other ↦ rw other refl
  ]

  module _ (i : ℕ) (ms : List (SendMessage (Note B Wr))) where
    -- The claim below, of the messages `ms`.
    abbrev Heard : Type 0
    Heard =
        (o : Option Wr) (b : Broadcaster B Wr)
        → entries i b.clients ≡ listed o
        → received i (replay broadcaster ms b).tasks ≡ received i b.tasks ++ due i o (notes ms)

    note_first :
        (n : Option (Note B Wr)) (o : Option Wr) (b : Broadcaster B Wr)
        → entries i b.clients ≡ listed o
        → Heard
        → received i (replay broadcaster (envelope (record { msg = n }) ∷ ms) b).tasks
          ≡ received i b.tasks ++ due i o (notes (envelope (record { msg = n }) ∷ ms))
    unfolding replay replay_one notes on_note
    note_first none o b h rest = rest o b h
    note_first (some (joins j w)) o b h rest =
        rest (if i == j then some w else o) (record b { clients = insert j w b.clients })
          (joined i j o w b.clients h)
        ∙ ap (λ l. received i b.tasks ++ l)
            (sym (due_next i o (joins j w) (notes ms) (λ m s. cc s)))
    note_first (some (says m)) o b h rest =
        rest o (record b { tasks = b.tasks ++ (b.clients, m) ∷ [] }) h
        ∙ ap (λ l. l ++ due i o (notes ms)) (received-append_last i b.tasks (b.clients, m))
        ∙ append_assoc (received i b.tasks) (to_write i (b.clients, m)) (due i o (notes ms))
        ∙ ap (λ l. received i b.tasks ++ (map (λ w. (w, m)) l ++ due i o (notes ms))) h
        ∙ ap (λ l. received i b.tasks ++ l) (said i o m (notes ms))
    note_first (some (leaves j)) o b h rest =
        rest (if i == j then none else o) (record b { clients = remove j b.clients })
          (left i j o b.clients h)
        ∙ ap (λ l. received i b.tasks ++ l) (sym (due_next i o (leaves j) (notes ms) (λ m s. cc s)))

    -- A question, which it has no handler for.
    ask_first :
        (n : Option (Note B Wr)) (tx : Option ℕ) (o : Option Wr) (b : Broadcaster B Wr)
        → received i (replay broadcaster ms b).tasks ≡ received i b.tasks ++ due i o (notes ms)
        → (received i
              (replay broadcaster
                (response (record { msg = record { msg = n }; tx = tx }) ∷ ms)
                b).tasks
            ≡ received i b.tasks ++ due i o (notes ms))
          × (received i
                (replay broadcaster
                  (async_response (record { msg = record { msg = n }; tx = tx }) ∷ ms)
                  b).tasks
              ≡ received i b.tasks ++ due i o (notes ms))
    unfolding replay replay_one
    ask_first none tx o b h = (h, h)
    ask_first (some n) tx o b h = (h, h)

  replay-received : (i : ℕ) (ms : List (SendMessage (Note B Wr))) → Heard i ms
  unfolding replay replay_one notes due
  replay-received i [] o b h = sym (append-nil (received i b.tasks))
  replay-received i (envelope e ∷ ms) o b h = note_first i ms e.msg o b h (replay-received i ms)
  replay-received i (response e ∷ ms) o b h =
      (ask_first i ms e.msg.msg e.tx o b (replay-received i ms o b h)).0
  replay-received i (async_response e ∷ ms) o b h =
      (ask_first i ms e.msg.msg e.tx o b (replay-received i ms o b h)).1
  replay-received i (shutdown_envelope e ∷ ms) o b h = replay-received i ms o b h
  replay-received i (cancelled_envelope e ∷ ms) o b h = replay-received i ms o b h

  broadcaster-Plain : Plain (broadcaster {B = B} {Wr = Wr})
  broadcaster-Plain = record {
    on_stopping = λ a b ks h. cc;
    on_stopped = λ a b ks h. cc;
    on_end = λ a b ks h. cc;
  }

module _ {B Wr Chan W S : Type 0} (tk : Tokio (SendMessage (Note B Wr)) Chan W S)
    (laws : TokioLaws tk) where
  -- The broadcaster runs as a child, with no client yet and nothing taken, among whatever other tasks.
  -- Once it has returned, then for each number: what its tasks were given to write to the client of
  -- that number is everything that was said, by the messages that its mailbox accepted, between the
  -- client's coming and its leaving, each message once, in order, on the writer it came with last.
  pub run_supervised_actor-received :
      (x y : Executor (Broadcaster B Wr) (Unit {0}) (Account tk) W S)
      (es rest : List (Event (Note B Wr))) (i : ℕ)
      → x.actor.clients ≡ []
      → x.actor.tasks ≡ []
      → x.context.mailbox.taken ≡ []
      → run_supervised_actor (recording tk laws) broadcaster x es ≡ ready y rest
      → received i y.actor.tasks ≡ due i none (notes y.context.mailbox.accepted)
  unfolding entries received
  run_supervised_actor-received x y es rest i empty idle fresh ran =
      ap (λ a. received i a.tasks)
        (run_supervised_actor-replay tk broadcaster laws x y es rest broadcaster-Plain fresh ran)
      ∙ replay-received i y.context.mailbox.accepted none x.actor (ap (entries i) empty)
      ∙ ap (λ l. received i l ++ due i none (notes y.context.mailbox.accepted)) idle

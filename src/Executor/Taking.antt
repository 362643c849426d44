-- ===== src/Executor/Taking.antt =====
-- src/executor.rs: an actor that waits for a message, is sent one and takes it.
use tokactor.Common.{◌<◌, ◌≡◌, refl, ap, ◌∙◌, false, List, [], ◌∷◌, ◌++◌, length, arith}
use tokactor.Tokio.{Tokio, TokioLaws}
use tokactor.Message.{SendMessage}
use tokactor.Executor.{Executor, process_message}
use tokactor.Executor.Awaits.{Event, delivers, wakes, drive}
use tokactor.Executor.Loops.{next, actor_turn, with_mailbox}
use tokactor.Executor.Shutdown.{taken}
use tokactor.Executor.Awaiting.{Calm, turn_wakes}
use tokactor.Actor.{Actor}

module _ {A U R Chan W S : Type 0} (tk : Tokio (SendMessage U) Chan W S) (act : Actor A U R)
    (laws : TokioLaws tk) where
  -- An actor that waits for a message, with room in its mailbox.
  pub record Waits (x : Executor A R Chan W S) : Type 0 where
    pub calm : Calm tk act laws x
    pub empty : tk.queue x.context.mailbox ≡ []
    pub open_ : tk.is_closed x.context.mailbox ≡ false
    pub room : 0 < tk.capacity x.context.mailbox

  -- The executor that was sent a message and has taken it again.
  abbrev pub sent_to : SendMessage U → Executor A R Chan W S → Executor A R Chan W S
  sent_to m x = with_mailbox tk act (tk.try_send m x.context.mailbox).1 x

  abbrev pub got_it : SendMessage U → Executor A R Chan W S → Executor A R Chan W S
  got_it m x = taken tk act laws (sent_to m x)

  pub one_message :
      (m : SendMessage U) (x : Executor A R Chan W S)
      → Waits x
      → (tk.queue (sent_to m x).context.mailbox ≡ m ∷ []) × Waits (got_it m x)
  one_message m x v =
      let c = x.context.mailbox in
      let c' = (tk.try_send m c).1 in
      let held : tk.queue c' ≡ m ∷ [] =
        laws.queue-try_send m c v.open_ (omega (arith, v.room, ap length v.empty))
        ∙ ap (λ l. l ++ m ∷ []) v.empty in
      (
        held,
        record {
          calm = record { runs = v.calm.runs; alone = v.calm.alone; settled = v.calm.settled };
          empty = laws.queue-try_recv c' m [] held;
          open_ = laws.is_closed-try_recv c' ∙ laws.is_closed-try_send m c ∙ v.open_;
          room = omega (arith, v.room, laws.capacity-try_recv c', laws.capacity-try_send m c);
        },
      )

  pub delivered :
      (m : SendMessage U) (x : Executor A R Chan W S) (es : List (Event U))
      → drive (actor_turn tk act) x (delivers m ∷ es) ≡ drive (actor_turn tk act) (sent_to m x) es
  unfolding drive actor_turn
  delivered m x es = refl

  pub woken :
      (m : SendMessage U) (x : Executor A R Chan W S)
      → Waits x
      → actor_turn tk act (sent_to m x) wakes ≡ next tk act (process_message tk act (got_it m x) m)
  woken m x v =
      turn_wakes tk act laws (sent_to m x) m []
        (record { runs = v.calm.runs; alone = v.calm.alone; settled = v.calm.settled })
        (one_message m x v).0

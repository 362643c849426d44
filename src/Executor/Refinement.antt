-- ===== src/Executor/Refinement.antt =====
-- src/executor.rs and src/address.rs: an actor that runs against the inbox that it promises.
use tokactor.Common.{
  ℕ, suc, ◌≡◌, refl, sym, ap, subst, ◌∙◌, false, List, [], ◌∷◌, ◌++◌, length, if◌then◌else◌, ltb,
  arith, Bool-cases, inl, inr,
}
use tokactor.Tokio.{Tokio, TokioLaws}
use tokactor.Message.{SendMessage, envelope, enclose}
use tokactor.Actor.{Actor}
use tokactor.Executor.{Executor}
use tokactor.Executor.Awaits.{Event, delivers, wakes, stay, drive, waits}
use tokactor.Executor.Loops.{next, on_recv, poll_recv, actor_turn, with_mailbox}
use tokactor.Executor.Schedule.{drive_stay}
use tokactor.Executor.Shutdown.{taken}
use tokactor.Executor.Quiet.{Quiet, posted, moved, process_posted}
use tokactor.Executor.Awaiting.{Calm, turn_wakes}
use tokactor.Executor.Inbox.{Inbox, Call, sends, turns, handle_next, serve}
use tokactor.Executor.Inbox

-- What happens to the executor at each call.
abbrev pub event : {U : Type 0} → Call U → Event U
event (sends u) = delivers (envelope (enclose u))
event turns = wakes

abbrev pub schedule : {U : Type 0} → List (Call U) → List (Event U)
schedule [] = []
schedule (c ∷ cs) = event c ∷ schedule cs

length-posted : {U : Type 0} (us : List U) → length (posted us) ≡ length us
length-posted [] = refl
length-posted (u ∷ us) = ap suc (length-posted us)

posted-append : {U : Type 0} (us vs : List U) → posted (us ++ vs) ≡ posted us ++ posted vs
posted-append [] vs = refl
posted-append (u ∷ us) vs = ap (λ l. envelope (enclose u) ∷ l) (posted-append us vs)

module _ {A U R Chan W S : Type 0} (tk : Tokio (SendMessage U) Chan W S) (act : Actor A U R)
    (laws : TokioLaws tk) (f : U → A → A) (q : Quiet act f) where
  -- The executor stands for the inbox.
  pub record Shows (x : Executor A R Chan W S) (b : Inbox A U) : Type 0 where
    pub calm : Calm tk act laws x
    pub open_ : tk.is_closed x.context.mailbox ≡ false
    pub holds : tk.queue x.context.mailbox ≡ posted b.waiting
    pub same : x.actor ≡ b.actor

  abbrev Sim : Executor A R Chan W S → ℕ → Event U → Inbox A U → Type 0
  Sim x cap e b =
      (y : Executor A R Chan W S) × (actor_turn tk act x e ≡ stay y)
      × Shows y b
      × (tk.capacity y.context.mailbox ≡ cap)

  nothing_yet : (c : Chan) → tk.queue c ≡ [] → tk.is_closed c ≡ false → poll_recv tk act c ≡ waits
  nothing_yet c e open_ = rw (laws.try_recv_none c e, open_)

  -- What a message does to a mailbox that holds these messages.
  queue-deliver :
      (c : Chan) (u : U) (us : List U)
      → tk.is_closed c ≡ false
      → tk.queue c ≡ posted us
      → tk.queue (tk.try_send (envelope (enclose u)) c).1
        ≡ posted (if ltb (length us) (tk.capacity c) then us ++ u ∷ [] else us)
  queue-deliver c u us open_ e =
      let m : SendMessage U = envelope (enclose u) in
      let as_many = ap length e ∙ length-posted us in
      elim (Bool-cases (ltb (length us) (tk.capacity c))) [
        | inl room ↦ rw room (
            laws.queue-try_send m c open_ (ground (arith, as_many, room))
            ∙ ap (λ l. l ++ m ∷ []) e
            ∙ sym (posted-append us (u ∷ [])))
        | inr full ↦ rw full (
            ap (λ p. tk.queue p.1) (laws.try_send_full m c open_ (ground (arith, as_many, full)))
            ∙ e)
      ]

  waiting-send :
      (cap : ℕ) (u : U) (b : Inbox A U)
      → ((Inbox.send cap f u b).waiting
          ≡ (if ltb (length b.waiting) cap then b.waiting ++ u ∷ [] else b.waiting))
        × ((Inbox.send cap f u b).actor ≡ b.actor)
  unfolding Inbox.send
  waiting-send cap u b = ground arith

  sends-Shows :
      (x : Executor A R Chan W S) (b : Inbox A U) (u : U)
      → Shows x b
      → Sim x
          (tk.capacity x.context.mailbox)
          (event (sends u))
          (Inbox.send (tk.capacity x.context.mailbox) f u b)
  unfolding actor_turn
  sends-Shows x b u v =
      let c = x.context.mailbox in
      let m : SendMessage U = envelope (enclose u) in
      let (kept, still) = waiting-send (tk.capacity c) u b in
      (
        with_mailbox tk act (tk.try_send m c).1 x,
        refl,
        record {
          calm = record { runs = v.calm.runs; alone = v.calm.alone; settled = v.calm.settled };
          open_ = laws.is_closed-try_send m c ∙ v.open_;
          holds = queue-deliver c u b.waiting v.open_ v.holds ∙ ap posted (sym kept);
          same = v.same ∙ sym still;
        },
        laws.capacity-try_send m c,
      )

  turns-Shows :
      (x : Executor A R Chan W S) (us : List U) (a : A)
      → Shows x (record { waiting = us; actor = a })
      → Sim x
          (tk.capacity x.context.mailbox)
          wakes
          (handle_next (tk.capacity x.context.mailbox) f us a)
  unfolding actor_turn
  turns-Shows x [] a v =
      (x, ap (λ p. on_recv tk act p x) (nothing_yet x.context.mailbox v.holds v.open_), v, refl)
  turns-Shows x (u ∷ us) a v =
      let c = x.context.mailbox in
      (
        moved tk act laws f q u (taken tk act laws x),
        turn_wakes tk act laws x (envelope (enclose u)) (posted us) v.calm v.holds
            ∙ ap (next tk act) (process_posted tk act laws f q u (taken tk act laws x))
            ∙ rw v.calm.runs refl,
        record {
          calm = record { runs = v.calm.runs; alone = v.calm.alone; settled = v.calm.settled };
          open_ = laws.is_closed-try_recv c ∙ v.open_;
          holds = laws.queue-try_recv c _ _ v.holds;
          same = ap (f u) v.same;
        },
        laws.capacity-try_recv c,
      )

  -- An actor handles every message without a call on its context and its callbacks do nothing; it runs with
  -- no children and no overflow of anonymous actors, and its open mailbox holds plain messages. However
  -- others' plain messages and the actor's turns interleave, it does what its inbox does: the messages that find room are handled each once, in the order in
  -- which they were sent, one at each turn, and those that do not are lost; the rest of the schedule
  -- finds the actor in the inbox's state and the mailbox with the inbox's messages.
  pub actor_turn_refines :
      (cs : List (Call U)) (x : Executor A R Chan W S) (b : Inbox A U) (es : List (Event U))
      → Shows x b
      → (y : Executor A R Chan W S) × (drive (actor_turn tk act) x (schedule cs ++ es)
          ≡ drive (actor_turn tk act) y es)
        × Shows y (serve (tk.capacity x.context.mailbox) f cs b)
  unfolding serve
  actor_turn_refines [] x b es v = (x, refl, v)
  actor_turn_refines (sends u ∷ cs) x b es v =
      let (z, moved_, w, cap) = sends-Shows x b u v in
      let (y, ran, shows) = actor_turn_refines cs z _ es w in
      (
        y,
        drive_stay (actor_turn tk act) x (event (sends u)) (schedule cs ++ es) moved_ ∙ ran,
        subst (λ n. Shows y (serve n f cs (Inbox.send (tk.capacity x.context.mailbox) f u b))) cap
            shows,
      )
  actor_turn_refines (turns ∷ cs) x b es v =
      let cap₀ = tk.capacity x.context.mailbox in
      let (z, moved_, w, cap) = turns-Shows x b.waiting b.actor v in
      let (y, ran, shows) = actor_turn_refines cs z _ es w in
      (
        y,
        drive_stay (actor_turn tk act) x wakes (schedule cs ++ es) moved_ ∙ ran,
        subst (λ n. Shows y (serve n f cs (handle_next cap₀ f b.waiting b.actor))) cap shows,
      )

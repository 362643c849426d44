-- ===== src/World/Connection/Ending.antt =====
-- src/world/mod.rs, the task of one connection: how it ends.
use tokactor.Common.{
  ℕ, ◌<◌, ◌≡◌, refl, sym, ap, ◌∙◌, true, false, Option, none, some, List, [], ◌∷◌, ◌++◌, map,
  append_assoc, append-nil, length, ok, panicked, ◌>>=◌, arith,
}
use tokactor.Tokio.{Tokio, TokioLaws}
use tokactor.Tokio.Room.{has_room}
use tokactor.Message.{SendMessage}
use tokactor.Address.{fine, async_ask, async_message}
use tokactor.Address.Results.{ask_lem, into_future_lem}
use tokactor.Address.{into_future, completed, shutdown_message}
use tokactor.World.Connection.{connection_end}
use tokactor.World.Connection.{
  ConnectionEvent, reads, takes, exits, Connection, asked_for, connection_step, connection_run,
}
use tokactor.World.Connection.Asking.{stepped}

module _ {U Chan W S : Type 0} (tk : Tokio (SendMessage U) Chan W S) where
  -- The actor of the connection waits for a message.
  pub record Waits (c : Connection U Chan) : Type 0 where
    pub reading : c.reading ≡ true
    pub open_ : tk.is_closed c.mailbox ≡ false
    pub empty : tk.queue c.mailbox ≡ []
    pub room : 0 < tk.capacity c.mailbox

module _ {U Chan W S : Type 0} (tk : Tokio (SendMessage U) Chan W S) (laws : TokioLaws tk) where
  -- What awaiting the actor adds to its mailbox.
  closing :
      {A : Type 0} (last_tx : ℕ) (final : Option A) (d : Connection U Chan)
      → tk.is_closed d.mailbox ≡ false
      → tk.queue d.mailbox ≡ []
      → 0 < tk.capacity d.mailbox
      → (z : Connection U Chan) × (connection_end tk last_tx final d ≡ ok z)
        × (tk.queue z.mailbox ≡ shutdown_message true last_tx ∷ [])
  unfolding connection_end
  closing last_tx final d open_ empty room =
      let b : SendMessage U = shutdown_message true last_tx in
      let fits : has_room tk d.mailbox ≡ true = ground (arith, room, empty) in
      let awaited : into_future tk last_tx final d.mailbox
          ≡ ok (completed tk final, (tk.try_send b d.mailbox).1) =
        (into_future_lem tk laws last_tx final d.mailbox).0 ∙ rw (open_, fits) refl in
      (
        _,
        ap (λ f. f >>= λ p. ok (record d { mailbox = p.1 })) awaited,
        laws.queue-try_send b d.mailbox open_ (omega (arith, room, ap length empty))
            ∙ ap (λ q. q ++ b ∷ []) empty,
      )

module _ {U Chan W S R E : Type 0} (tk : Tokio (SendMessage U) Chan W S) where
  -- The questions that the actor takes and answers one by one.
  abbrev pub exchange :
      List (U × ℕ × R) → List (ConnectionEvent U R E) → List (ConnectionEvent U R E)
  exchange [] es = es
  exchange ((m, tx, r) ∷ qs) es = reads (fine (some m)) tx (some r) ∷ takes ∷ exchange qs es

  module _ (laws : TokioLaws tk) where
    exchanged :
        (m : U) (tx : ℕ) (r : R) (es : List (ConnectionEvent U R E)) (c : Connection U Chan)
        → Waits tk c
        → (d : Connection U Chan) × (connection_run tk
              (reads (fine (some m)) tx (some r) ∷ takes ∷ es)
              c
            ≡ connection_run tk es d)
          × Waits tk d
          × (d.asked ≡ c.asked ++ m ∷ [])
    unfolding connection_run connection_step
    exchanged m tx r es c w =
        let b : SendMessage U = async_message m tx in
        let c₁ = (tk.try_send b c.mailbox).1 in
        let fits : has_room tk c.mailbox ≡ true = ground (arith, w.room, w.empty) in
        let small : length (tk.queue c.mailbox) < tk.capacity c.mailbox =
          omega (arith, w.room, ap length w.empty) in
        let sent : async_ask tk {R = R} m tx (some r) c.mailbox ≡ ok (fine r, c₁) =
          (ask_lem tk laws m tx (some r) c.mailbox).1 ∙ rw (w.open_, fits) refl in
        let one : tk.queue c₁ ≡ b ∷ [] =
          laws.queue-try_send b c.mailbox w.open_ small ∙ ap (λ q. q ++ b ∷ []) w.empty in
        (
          _,
          stepped tk true (fine (some m)) tx (some r) (takes ∷ es) c w.reading
              ∙ ap (λ f. (f >>= λ p. ok (asked_for tk m c p)) >>= connection_run tk (takes ∷ es))
                  sent,
          record {
            reading = w.reading;
            open_ = laws.is_closed-try_recv c₁ ∙ laws.is_closed-try_send b c.mailbox ∙ w.open_;
            empty = laws.queue-try_recv c₁ b [] one;
            room =
                omega
                  (arith, w.room, laws.capacity-try_recv c₁, laws.capacity-try_send b c.mailbox);
          },
          refl,
        )

    exchange_lem :
        (qs : List (U × ℕ × R)) (es : List (ConnectionEvent U R E)) (c : Connection U Chan)
        → Waits tk c
        → (d : Connection U Chan) × (connection_run tk (exchange qs es) c ≡ connection_run tk es d)
          × Waits tk d
          × (d.asked ≡ c.asked ++ map (λ q. q.0) qs)
    exchange_lem [] es c w = (c, refl, w, sym (append-nil c.asked))
    exchange_lem ((m, tx, r) ∷ qs) es c w =
        let (d, first, v, asked) = exchanged m tx r (exchange qs es) c w in
        let (e, later, u, more) = exchange_lem qs es d v in
        (
          e,
          first ∙ later,
          u,
          more
              ∙ ap (λ us. us ++ map (λ q. q.0) qs) asked
              ∙ append_assoc c.asked (m ∷ []) (map (λ q. q.0) qs),
        )

    -- While its actor takes and answers every question, the task of a connection goes through any
    -- number of payloads without waiting for room in the mailbox, and leaves its loop when the
    -- reader is at its end; then it asks the actor to stop, in a mailbox with nothing else in it. If
    -- the actor has ended instead, the next payload makes the task panic, whatever would come later.
    pub connection_run_lem :
        {A : Type 0} (last_tx : ℕ) (final : Option A) (qs : List (U × ℕ × R)) (m : U) (tx : ℕ)
        (o : Option R) (es : List (ConnectionEvent U R E)) (c : Connection U Chan)
        → Waits tk c
        → ((d : Connection U Chan) × (connection_run tk
                (exchange qs (reads (fine none) tx o ∷ []))
                c
              ≡ ok d)
            × (d.reading ≡ false)
            × (d.asked ≡ c.asked ++ map (λ q. q.0) qs)
            × ((z : Connection U Chan) × (connection_end tk last_tx final d ≡ ok z)
                × (tk.queue z.mailbox ≡ shutdown_message true last_tx ∷ [])))
          × (connection_run tk (exchange qs (exits ∷ reads (fine (some m)) tx o ∷ es)) c ≡ panicked)
    unfolding connection_run connection_step
    connection_run_lem last_tx final qs m tx o es c w =
        let (d, went, v, asked) = exchange_lem qs (reads (fine none) tx o ∷ []) c w in
        let (d', went', v', asked') =
          exchange_lem qs (exits ∷ reads (fine (some m)) tx o ∷ es) c w in
        let shut = tk.close d'.mailbox in
        let lost : async_ask tk {R = R} m tx o shut ≡ panicked =
          (ask_lem tk laws m tx o shut).1 ∙ rw (laws.is_closed-close d'.mailbox) refl in
        (
          (
            record d { reading = false },
            went ∙ stepped {E = E} tk true (fine none) tx o [] d v.reading,
            refl,
            asked,
            closing tk laws last_tx final (record d { reading = false }) v.open_ v.empty v.room,
          ),
          went'
              ∙ stepped tk true (fine (some m)) tx o es (record d' { mailbox = shut }) v'.reading
              ∙ ap
                  (λ f.
                    (f >>= λ p. ok (asked_for tk m (record d' { mailbox = shut }) p))
                    >>= connection_run tk es)
                  lost,
        )

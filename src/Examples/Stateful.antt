-- ===== src/Examples/Stateful.antt =====
-- examples/stateful_tcp_world.rs: the actor by which the program computes its state, which stops on its
-- only message, and what awaits it. The state is a parameter.
use tokactor.Common.{
  ℕ, suc, ◌<◌, ◌≡◌, refl, ap, ◌∙◌, true, false, Option, none, some, List, [], ◌∷◌, ◌++◌, length,
  Flow, ok, panicked, ◌>>=◌, arith,
}
use tokactor.Tokio.{Tokio, TokioLaws}
use tokactor.Message.{
  SendMessage, envelope, enclose, stopping, stopped, upon_completion, into_inner,
}
use tokactor.Actor.{Actor, defaults, stop}
use tokactor.Context.{run_commands, run_command, stop_ctx, subscribe_and_wait}
use tokactor.Address.{Reply, fine, failed, IntoFutureError, shutdown_message, wait_for_completion}
use tokactor.Address.Results.{into_future_lem}
use tokactor.Executor.{Executor, process_message, run_message, send}
use tokactor.Tokio.Room.{has_room}
use tokactor.Executor.Awaits.{Event, delivers, wakes, ready, drive}
use tokactor.Executor.Loops.{with_mailbox, with_state, actor_turn, drain, run_actor, take_sender}
use tokactor.Executor.Schedule.{drive_leave}
use tokactor.Executor.Shutdown.{taken, drain_empty, drain_first}
use tokactor.Executor.Silent.{Silent, shutdown_silent, drain_nothing}
use tokactor.Executor.Awaiting.{Calm, turn_wakes}

-- `State`, with its `Handler<()>`, on a machine of 64 bits
abbrev pub state : {St : Type 0} → Actor St (Unit {0}) (Unit {0})
state = record defaults { handle = λ u a. some (a, stop ∷ []) }

-- `output.unwrap()`
abbrev unwrapped : {St : Type 0} → Reply St IntoFutureError → Flow St
unwrapped (fine a) = ok a
unwrapped (failed e) = panicked

abbrev pub unit_message : SendMessage (Unit {0})
unit_message = envelope (enclose tt)

state-Silent : {St : Type 0} → Silent (state {St = St})
state-Silent = record {
  on_start = λ a. refl;
  pre_run = λ a. refl;
  post_run = λ a. refl;
  on_stopping = λ a. refl;
  on_stopped = λ a. refl;
  on_end = λ a. refl;
}

module _ {St Chan W S : Type 0} (tk : Tokio (SendMessage (Unit {0})) Chan W S) where
  -- `compute_state` after its first send: the mailbox is as it is by then, `tx` the oneshot channel of
  -- the wait, and the option what comes through it.
  unfoldable pub compute_state : ℕ → Option St → Chan → Flow St
  compute_state tx o c = wait_for_completion tk tx o c >>= λ p. unwrapped p.0

  module _ (laws : TokioLaws tk) where
    -- The executor that has taken the message and stops.
    abbrev halted : Executor St (Unit {0}) Chan W S → Executor St (Unit {0}) Chan W S
    halted x = with_state tk state stopping (taken tk state laws x)

    first_turn :
        (x : Executor St (Unit {0}) Chan W S) (ms : List (SendMessage (Unit {0})))
        → Calm tk state laws x
        → tk.queue x.context.mailbox ≡ unit_message ∷ ms
        → (es : List (Event (Unit {0})))
        → drive (actor_turn tk state) x (wakes ∷ es) ≡ ready (halted x) es
    unfolding process_message run_message send run_commands stop_ctx run_command
    first_turn x ms v e es =
        drive_leave (actor_turn tk state) x wakes es
          (turn_wakes tk state laws x unit_message ms v e ∙ rw v.runs refl)

    drain_wait :
        (tx : ℕ) (x : Executor St (Unit {0}) Chan W S)
        → tk.queue x.context.mailbox ≡ shutdown_message false tx ∷ []
        → (y : Executor St (Unit {0}) Chan W S) × (drain tk state
              (suc (length (tk.queue (tk.close x.context.mailbox))))
              (with_state tk state stopped (with_mailbox tk state (tk.close x.context.mailbox) x))
            ≡ ok y)
          × (y.actor ≡ x.actor)
          × (y.context.into_future_sender ≡ some (upon_completion tx))
    unfolding process_message run_message send run_commands subscribe_and_wait
    drain_wait tx x e =
        let shut = tk.close x.context.mailbox in
        let x₁ = with_state tk state stopped (with_mailbox tk state shut x) in
        let there : tk.queue shut ≡ shutdown_message false tx ∷ [] =
          laws.queue-close x.context.mailbox ∙ e in
        let x₂ = taken tk state laws x₁ in
        (
          record x₂ {
            context = record x₂.context { into_future_sender = some (upon_completion tx) };
          },
          ap (λ l. drain tk state (suc (length l)) x₁) there
              ∙ drain_first tk state laws 1 x₁ (shutdown_message false tx) [] there
              ∙ drain_empty tk state laws 0 _ (laws.queue-try_recv shut _ _ there)
                  (laws.is_closed-try_recv shut ∙ laws.is_closed-close x.context.mailbox),
          refl,
          refl,
        )

    whole_run :
        (x y : Executor St (Unit {0}) Chan W S) (ms : List (SendMessage (Unit {0})))
        (es : List (Event (Unit {0})))
        → Calm tk state laws x
        → tk.queue x.context.mailbox ≡ unit_message ∷ ms
        → drain tk state (suc (length (tk.queue (tk.close (halted x).context.mailbox)))) (
            with_state tk state stopped
              (with_mailbox tk state (tk.close (halted x).context.mailbox) (halted x)))
          ≡ ok y
        → run_actor tk state x (wakes ∷ es) ≡ ready (take_sender tk state y) es
    unfolding run_actor run_commands
    whole_run x y ms es v e drained =
        rw
          (
            first_turn x ms v e es,
            shutdown_silent tk state laws state-Silent (halted x) y es v.alone drained,
          )
          refl

    too_late :
        (tx : ℕ) (o : Option St) (c : Chan)
        → tk.is_closed c ≡ true
        → compute_state tx o c ≡ panicked
    unfolding compute_state
    too_late tx o c shut = rw ((into_future_lem tk laws tx o c).1, shut) refl

    in_time :
        (tx : ℕ) (a : St) (c : Chan)
        → tk.is_closed c ≡ false
        → has_room tk c ≡ true
        → compute_state tx (some a) c ≡ ok a
    unfolding compute_state
    in_time tx a c open_ room = rw ((into_future_lem tk laws tx (some a) c).1, open_, room) refl

    -- The actor runs, with no children, and has its only message in its open mailbox, which has room
    -- for the request to wait. If the request comes before the actor is polled, the actor is sent to
    -- the one who waits, and so `compute_state` has the state. If the actor is polled first, it ends at
    -- once and is sent to nobody, and `compute_state` panics, whatever it would have received.
    pub compute_state-races :
        (x : Executor St (Unit {0}) Chan W S) (tx : ℕ) (es : List (Event (Unit {0})))
        → Calm tk state laws x
        → tk.queue x.context.mailbox ≡ unit_message ∷ []
        → tk.is_closed x.context.mailbox ≡ false
        → 1 < tk.capacity x.context.mailbox
        → x.context.into_future_sender ≡ none
        → ((y : Executor St (Unit {0}) Chan W S) × (run_actor tk state x
                (delivers (shutdown_message false tx) ∷ wakes ∷ es)
              ≡ ready (y, some (tx, x.actor)) es)
            × (compute_state tx (some x.actor) x.context.mailbox ≡ ok x.actor))
          × ((z : Executor St (Unit {0}) Chan W S) × (run_actor tk state x (wakes ∷ es)
                ≡ ready (z, none) es)
              × ((o : Option St) → compute_state tx o z.context.mailbox ≡ panicked))
    unfolding run_actor actor_turn run_commands drive into_inner
    compute_state-races x tx es v e open_ room nobody =
        let c = x.context.mailbox in
        let fits : length (tk.queue c) < tk.capacity c = omega (arith, room, ap length e) in
        let m = shutdown_message false tx in
        let w = with_mailbox tk state (tk.try_send m c).1 x in
        let grown : tk.queue (tk.try_send m c).1 ≡ unit_message ∷ m ∷ [] =
          laws.queue-try_send m c open_ fits ∙ ap (λ l. l ++ m ∷ []) e in
        let (y, drained, same, waits) =
          drain_wait tx (halted w) (laws.queue-try_recv (tk.try_send m c).1 _ _ grown) in
        let z =
          with_state tk state stopped
            (with_mailbox tk state (tk.close (halted x).context.mailbox) (halted x)) in
        (
          (
            (take_sender tk state y).0,
            whole_run w y (m ∷ []) es
                  (record { runs = v.runs; alone = v.alone; settled = v.settled }) grown drained
                ∙ rw (waits, same) refl,
            in_time tx x.actor c open_ (ground (arith, fits)),
          ),
          (
            (take_sender tk state z).0,
            whole_run x z [] es v e (
                  drain_nothing tk state laws state-Silent (halted x) (laws.queue-try_recv c _ _ e))
                ∙ rw nobody refl,
            λ o. too_late tx o (tk.close (tk.try_recv c).1) (laws.is_closed-close _),
          ),
        )

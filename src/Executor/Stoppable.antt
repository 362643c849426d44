-- ===== src/Executor/Stoppable.antt =====
-- src/executor.rs, `run_supervised_actor`: that a child can be stopped wherever it stands.
use tokactor.Common.{
  ℕ, zero, suc, ◌≡◌, refl, sym, ap, subst, true, some, List, [], ◌∷◌, ◌++◌, Flow, ok, panicked,
  blocked, ◌>>=◌, inl, inr, ◌==◌, Bool-cases,
}
use tokactor.Tokio.{Tokio, TokioLaws, SupervisorMessage}
use tokactor.Message.{SendMessage, stopping}
use tokactor.Actor.{Actor, Prompt}
use tokactor.Executor.{Executor, react}
use tokactor.Executor.Awaits.{
  Event, child_exits, sleeps, notified, Outcome, ready, pending, panics, hangs, drive, lift,
  and_then,
}
use tokactor.Executor.Loops.{
  check, has_children, surroundings, with_mailbox, with_state, told, supervised_turn, stopping_turn,
  stopping_loop, await_children, stopped_phase, shutdown_executor, run_supervised_actor,
}
use tokactor.Executor.Schedule.{drive_crash}
use tokactor.Executor.Schedule.Resuming.{
  and_then-eq-pending, lift-ne-pending, drive-pending, drive-ready,
}
use tokactor.Executor.Terminating.{Over, panicked_}
use tokactor.Executor.Waiting.{
  children_end, children_end-Left, phase-Over, rest_of, shutdown_waits-Over,
}

-- The supervisor says to stop; then so many children end, and the timer runs out.
abbrev pub stop_signal : {U : Type 0} → ℕ → List (Event U)
stop_signal k = notified (some SupervisorMessage.shutdown) ∷ children_end k []

module _ {A U R Chan W S : Type 0} (tk : Tokio (SendMessage U) Chan W S) (act : Actor A U R)
    (laws : TokioLaws tk) (prompt : Prompt act) where
  -- At the last run of the timer, the wait for the children ends by a panic.
  last_run :
      (k n : ℕ) (x : Executor A R Chan W S)
      → (n == 10) ≡ true
      → drive (stopping_turn tk act) (n, x) (children_end k []) ≡ panics
  unfolding stopping_turn drive
  last_run zero n x late = drive_crash (stopping_turn tk act) (n, x) sleeps [] (rw late refl)
  last_run (suc k) n x late = last_run k n (surroundings tk act child_exits x) late

  -- It takes no notice of its own supervisor.
  waits_on :
      (k n : ℕ) (x : Executor A R Chan W S)
      → drive (stopping_turn tk act) (n, x) (stop_signal k)
        ≡ drive (stopping_turn tk act) (n, x) (children_end k [])
  unfolding drive stopping_turn
  waits_on k n x = refl

  abbrev rest_of_wait : Outcome U (ℕ × Executor A R Chan W S) → Outcome U (Executor A R Chan W S)
  rest_of_wait o = rest_of tk act laws (and_then o λ q later. ready q.1 later)

  -- The wait for the children, wherever it stands, and what comes after it.
  waited-Over :
      (n : ℕ) (x : Executor A R Chan W S)
      → Over tk act laws (
          rest_of_wait
            (drive (stopping_turn tk act) (n, x) (stop_signal (tk.receivers x.context.notifier))))
  waited-Over n x =
      let k = tk.receivers x.context.notifier in
      subst (λ o. Over tk act laws (rest_of_wait o)) (sym (waits_on k n x))
        (elim (Bool-cases (n == 10)) [
          | inl late ↦
              subst (λ o. Over tk act laws (rest_of_wait o)) (sym (last_run k n x late)) panicked_
          | inr early ↦
              let (q, ran, shut) = children_end-Left tk act laws k n x [] early refl in
              subst (λ o. Over tk act laws (rest_of_wait o)) (sym ran)
                (phase-Over tk act laws q.1 [] prompt shut)
        ])

  abbrev Stops : (List (Event U) → Outcome U (Executor A R Chan W S)) → Type 0
  Stops run = (k : ℕ) × Over tk act laws (run (stop_signal k))

  looped-Stops :
      (z : Executor A R Chan W S) (es : List (Event U))
      → rest_of tk act laws (stopping_loop tk act z es) ≡ pending
      → Stops (λ more. rest_of tk act laws (stopping_loop tk act z (es ++ more)))
  unfolding stopping_loop await_children
  looped-Stops z es h = elim (Bool-cases (has_children tk act z)) [
    | inl waits ↦ let (k, over) = waiting (rw waits at h) in (k, rw waits over)
    | inr alone ↦ absurd (
        lift-ne-pending (stopped_phase tk act (with_mailbox tk act (tk.close z.context.mailbox) z))
          es (rw alone at h))
  ]
    where
      waiting :
          rest_of_wait (drive (stopping_turn tk act) (0, told tk act z) es) ≡ pending
          → Stops
              (λ more. rest_of_wait (drive (stopping_turn tk act) (0, told tk act z) (es ++ more)))
      waiting h =
          elim (and_then-eq-pending (drive (stopping_turn tk act) (0, told tk act z) es)
            (λ q later. lift (stopped_phase tk act q.1) later)
            (flat (drive (stopping_turn tk act) (0, told tk act z) es) h)) [
              | inl waits ↦
                  let ((n, w), on) =
                    drive-pending (stopping_turn tk act) (0, told tk act z) es waits in
                  let k = tk.receivers w.context.notifier in
                  (
                    k,
                    subst (λ o. Over tk act laws (rest_of_wait o)) (sym (on (stop_signal k)))
                        (waited-Over n w),
                  )
              | inr (q, later, left_, more) ↦
                  absurd (lift-ne-pending (stopped_phase tk act q.1) later more)
            ]
        where
          flat :
              (o : Outcome U (ℕ × Executor A R Chan W S))
              → rest_of_wait o ≡ pending
              → and_then o (λ q later. lift (stopped_phase tk act q.1) later) ≡ pending
          flat (ready q later) h = h
          flat pending h = h
          flat panics h = cc h
          flat hangs h = cc h

  shutdown-Stops :
      (x : Executor A R Chan W S) (es : List (Event U))
      → shutdown_executor tk act x es ≡ pending
      → Stops (λ more. shutdown_executor tk act x (es ++ more))
  unfolding shutdown_executor
  shutdown-Stops x es h =
      begins (react tk act (act.on_stopping x.actor) (with_state tk act stopping x)) h
    where
      begins :
          (m : Flow (Executor A R Chan W S))
          → (and_then (lift m es) λ z later. rest_of tk act laws (stopping_loop tk act z later))
            ≡ pending
          → Stops (λ more.
            and_then
              (lift m (es ++ more))
              λ z later. rest_of tk act laws (stopping_loop tk act z later))
      begins (ok z) h = looped-Stops z es h
      begins panicked h = cc h
      begins blocked h = cc h

  -- A child that is in its loop and is told to stop.
  told-Stops :
      (x : Executor A R Chan W S)
      → Stops (λ more. and_then (drive (supervised_turn tk act) x more) (shutdown_executor tk act))
  unfolding drive supervised_turn
  told-Stops x = (
    k,
    subst (Over tk act laws) (sym (at_once k))
        (shutdown_waits-Over tk act laws k x [] prompt left_),
  )
    where
      m : Flow (Executor A R Chan W S)
      m = react tk act (act.on_stopping x.actor) (with_state tk act stopping x)

      children : Flow (Executor A R Chan W S) → ℕ
      children (ok z) = tk.receivers z.context.notifier
      children panicked = 0
      children blocked = 0

      k : ℕ
      k = children m

      left_ : (z : Executor A R Chan W S) → m ≡ ok z → tk.receivers z.context.notifier ≡ k
      left_ z ran = ap children (sym ran)

      at_once :
          (k : ℕ)
          → and_then (drive (supervised_turn tk act) x (stop_signal k)) (shutdown_executor tk act)
            ≡ shutdown_executor tk act x (children_end k [])
      at_once k = refl

  -- A child no future of whose handlers waits for good, however far it has come, along whatever schedule:
  -- if it waits in one of its loops (a wait for permits counts as over), then it can be stopped. Once its supervisor says so, so many
  -- children of its own end, and its timer runs out, it is over: it returns or panics.
  pub run_supervised_actor-Stops :
      (x : Executor A R Chan W S) (es : List (Event U))
      → run_supervised_actor tk act x es ≡ pending
      → (k : ℕ) × Over tk act laws (run_supervised_actor tk act x (es ++ stop_signal k))
  unfolding run_supervised_actor
  run_supervised_actor-Stops x es h =
      begins (react tk act (act.on_start x.actor) x >>= check tk act) h
    where
      served :
          (z : Executor A R Chan W S)
          → and_then (drive (supervised_turn tk act) z es) (shutdown_executor tk act) ≡ pending
          → Stops (λ more.
            and_then (drive (supervised_turn tk act) z (es ++ more)) (shutdown_executor tk act))
      served z h =
          elim (and_then-eq-pending (drive (supervised_turn tk act) z es) (shutdown_executor tk act)
            h) [
              | inl serving ↦
                  let (w, on) = drive-pending (supervised_turn tk act) z es serving in
                  let (k, over) = told-Stops w in
                  (
                    k,
                    subst (λ o. Over tk act laws (and_then o (shutdown_executor tk act)))
                        (sym (on (stop_signal k))) over,
                  )
              | inr (w, later, left_, more) ↦
                  let (k, over) = shutdown-Stops w later more in
                  (
                    k,
                    subst (λ o. Over tk act laws (and_then o (shutdown_executor tk act)))
                        (sym
                          (drive-ready (supervised_turn tk act) z w es later (stop_signal k) left_))
                        over,
                  )
            ]

      begins :
          (m : Flow (Executor A R Chan W S))
          → (and_then
              (lift m es)
              λ y rest. and_then (drive (supervised_turn tk act) y rest) (shutdown_executor tk act))
            ≡ pending
          → Stops (λ more.
            and_then
              (lift m (es ++ more))
              λ y rest. and_then (drive (supervised_turn tk act) y rest) (shutdown_executor tk act))
      begins (ok z) h = served z h
      begins panicked h = cc h
      begins blocked h = cc h

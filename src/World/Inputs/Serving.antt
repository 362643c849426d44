-- ===== src/World/Inputs/Serving.antt =====
-- src/world/mod.rs and src/io/tcp.rs: an input over a TCP listener, from its first connection to its
-- end.
use tokactor.Common.{
  ℕ, ◌+◌, ◌*◌, ◌≤◌, ◌≡◌, refl, ap, ◌∙◌, subst, Bool, true, false, Option, none, some, List, [], ◌∷◌,
  ◌++◌, length, length-append, Flow, ok, panicked, blocked, arith,
}
use tokactor.Tokio.{Tokio, TokioLaws}
use tokactor.Message.{SendMessage}
use tokactor.Actor.{Actor}
use tokactor.Address.{Reply, fine, failed}
use tokactor.Executor.{Executor}
use tokactor.Executor.Awaits.{Event, child_exits}
use tokactor.Executor.Loops.{surroundings}
use tokactor.Executor.Exits.{exits}
use tokactor.Io.Component.{Component}
use tokactor.Io.Tcp.{Net, TcpListener, tcp_component, accept, shutdown, departed, drop_watch}
use tokactor.Io.Accepting.{accept-Holds, newly, shutdown-exits}
use tokactor.World.Inputs.{
  Input, serving, closing, over, dead, InputEvent, accepts, told, shuts, departs, on_accepted,
  on_shut, input_step,
}

module _ {C Rd Act E D : Type 0} (k : Component C Rd Act E D) where
  -- The task of an input along a schedule; each event says whether `shutdown.recv()` is ready then.
  unfoldable pub input_run : List (Bool × InputEvent D) → Input C (Rd × Act) → Input C (Rd × Act)
  unfolding input_step
  input_run [] i = i
  input_run ((shut, e) ∷ es) i = input_run es (input_step k shut e i)

  input_run-dead :
      (es : List (Bool × InputEvent D)) (conns : List (Rd × Act))
      → input_run es (dead conns) ≡ dead conns
  unfolding input_run input_step
  input_run-dead [] conns = refl
  input_run-dead ((shut, accepts) ∷ es) conns = input_run-dead es conns
  input_run-dead ((shut, departs) ∷ es) conns = input_run-dead es conns
  input_run-dead ((shut, told) ∷ es) conns = input_run-dead es conns
  input_run-dead ((shut, shuts d) ∷ es) conns = input_run-dead es conns

  -- An error of `accept` kills the task of the input for good, with the connections that it has: it
  -- accepts nobody any more, and its component is not shut down, whatever comes later.
  pub input_run-failed :
      (c c' : C) (e : E) (conns : List (Rd × Act)) (shut : Bool) (es : List (Bool × InputEvent D))
      → k.accept c ≡ ok (some (failed e), c')
      → input_run ((shut, accepts) ∷ es) (serving c conns) ≡ dead conns
  unfolding input_run input_step
  input_run-failed c c' e conns shut es h =
      ap (λ r. input_run es (on_accepted k r c conns)) h ∙ input_run-dead es conns

-- The tasks that end at these events, while the component serves or shuts down.
abbrev pub spent : {U : Type 0} → InputEvent (List (Event U)) → ℕ
spent (shuts es) = exits es
spent departs = 1
spent _ = 0

unfoldable pub all_exits : {U : Type 0} → List (Bool × InputEvent (List (Event U))) → ℕ
all_exits [] = 0
all_exits ((b, e) ∷ evs) = spent e + all_exits evs

module _ {P U R Chan W S L Place Str Addr E Rh Wh Rc Wc : Type 0}
    (tk : Tokio (SendMessage U) Chan W S) (act : Actor P U R) (laws : TokioLaws tk)
    (net : Net L Place Str Addr E Rh Wh Rc Wc) (tcp_request : Wc → Addr → U)
    (l : TcpListener P R Chan W S L Rh Wh Rc Wc) (x : Executor P R Chan W S) where
  abbrev Listener : Type 0
  Listener = TcpListener P R Chan W S L Rh Wh Rc Wc

  -- `n` tasks have ended, and two for each of the `j` connections have ended or watch the listener's actor.
  Grown : ℕ → ℕ → Listener → Type 0
  Grown n j m =
      (y : Executor P R Chan W S) × (m.executor ≡ some y)
      × (2 * j ≤ tk.receivers y.context.notifier + n)

  -- The listener is watched by two tasks for each connection but for those that have ended; once it is
  -- over, all have.
  abbrev Balanced : ℕ → Input Listener (Rc × R) → Type 0
  Balanced n (serving m conns) = Grown n (length conns) m
  Balanced n (closing m conns) = Grown n (length conns) m
  Balanced n (over conns) = 2 * length conns ≤ n
  Balanced n (dead conns) = Unit

  grow :
      (n j i : ℕ) (m m' : Listener) (answer : Option (Reply (Rc × R) E))
      → accept tk act net tcp_request m ≡ ok (answer, m')
      → i ≡ j + newly tk act laws net tcp_request answer
      → Grown n j m
      → Grown n i m'
  unfolding Grown
  grow n j i m m' answer e count (y, here, many) =
      let (z, more) = accept-Holds tk act laws net tcp_request m m' y answer here e in
      (z, more.executor, omega (arith, many, more.receivers, count))

  later : (n k j : ℕ) (m : Listener) → Grown n j m → Grown (n + k) j m
  unfolding Grown
  later n k j m (y, here, many) = (y, here, omega (arith, many))

  departed-Grown :
      (n j : ℕ) (m : Listener) → Grown n j m → Grown (n + 1) j (departed tk act net tcp_request m)
  unfolding Grown departed
  departed-Grown n j m (y, here, many) = (
    surroundings tk act child_exits y,
    ap (λ o. (drop_watch tk act net tcp_request o m).executor) here,
    omega (arith, many, laws.receivers-drop y.context.notifier),
  )

  accepted-Balanced :
      (n : ℕ) (m : Listener) (conns : List (Rc × R))
      (r : Flow (Option (Reply (Rc × R) E) × Listener))
      → accept tk act net tcp_request m ≡ r
      → Grown n (length conns) m
      → Balanced n (on_accepted (tcp_component tk act net tcp_request) r m conns)
  unfolding newly
  accepted-Balanced n m conns (ok (none, m')) e held =
      grow n (length conns) (length conns) m m' none e (omega arith) held
  accepted-Balanced n m conns (ok (some (fine c), m')) e held =
      grow n (length conns) (length (conns ++ c ∷ [])) m m' (some (fine c)) e
        (omega (arith, length-append conns (c ∷ []))) held
  accepted-Balanced n m conns (ok (some (failed f), m')) e held = tt
  accepted-Balanced n m conns panicked e held = tt
  accepted-Balanced n m conns blocked e held = held

  shut-Balanced :
      (n : ℕ) (m : Listener) (conns : List (Rc × R)) (es : List (Event U)) (r : Flow (Unit {0}))
      → shutdown tk act net tcp_request m es ≡ r
      → Grown n (length conns) m
      → Balanced (n + exits es) (on_shut (tcp_component tk act net tcp_request) r m conns)
  unfolding Grown
  shut-Balanced n m conns es (ok tt) e (y, here, many) =
      omega (arith, many, shutdown-exits tk act laws net tcp_request m y es here e)
  shut-Balanced n m conns es panicked e held = tt
  shut-Balanced n m conns es blocked e (y, here, many) = (y, here, omega (arith, many))

  step-Balanced :
      (n : ℕ) (b : Bool) (e : InputEvent (List (Event U))) (i : Input Listener (Rc × R))
      → Balanced n i
      → Balanced (n + spent e) (input_step (tcp_component tk act net tcp_request) b e i)
  unfolding input_step
  step-Balanced n b accepts (serving m conns) h =
      accepted-Balanced (n + 0) m conns (accept tk act net tcp_request m) refl
        (later n 0 (length conns) m h)
  step-Balanced n b departs (serving m conns) h = departed-Grown n (length conns) m h
  step-Balanced n true told (serving m conns) h = later n 0 (length conns) m h
  step-Balanced n false told (serving m conns) h = later n 0 (length conns) m h
  step-Balanced n b (shuts es) (serving m conns) h = later n (exits es) (length conns) m h
  step-Balanced n b accepts (closing m conns) h = later n 0 (length conns) m h
  step-Balanced n b departs (closing m conns) h = later n 1 (length conns) m h
  step-Balanced n b told (closing m conns) h = later n 0 (length conns) m h
  step-Balanced n b (shuts es) (closing m conns) h =
      shut-Balanced n m conns es (shutdown tk act net tcp_request m es) refl h
  step-Balanced n b accepts (over conns) h = omega (arith, h)
  step-Balanced n b departs (over conns) h = omega (arith, h)
  step-Balanced n b told (over conns) h = omega (arith, h)
  step-Balanced n b (shuts es) (over conns) h = omega (arith, h)
  step-Balanced n b accepts (dead conns) h = tt
  step-Balanced n b departs (dead conns) h = tt
  step-Balanced n b told (dead conns) h = tt
  step-Balanced n b (shuts es) (dead conns) h = tt

  run-Balanced :
      (n : ℕ) (evs : List (Bool × InputEvent (List (Event U)))) (i : Input Listener (Rc × R))
      → Balanced n i
      → Balanced (n + all_exits evs) (input_run (tcp_component tk act net tcp_request) evs i)
  unfolding input_run all_exits
  run-Balanced n [] i h = subst (λ q. Balanced q i) (omega arith) h
  run-Balanced n ((b, e) ∷ evs) i h =
      let i' = input_step (tcp_component tk act net tcp_request) b e i in
      subst (λ q. Balanced q (input_run (tcp_component tk act net tcp_request) evs i'))
        (omega arith) (run-Balanced (n + spent e) evs i' (step-Balanced n b e i h))

  start : l.executor ≡ some x → Grown 0 0 l
  unfolding Grown
  start e = (x, e, omega arith)

  -- An input over a TCP listener that returns, having accepted so many connections in whatever order of
  -- events, has waited for its connections: at least two tasks that watch the listener's actor, the
  -- reader's and the writer's, ended for each connection, while the input served or while the
  -- listener shut down.
  pub input_run-exits :
      (evs : List (Bool × InputEvent (List (Event U)))) (conns : List (Rc × R))
      → l.executor ≡ some x
      → input_run (tcp_component tk act net tcp_request) evs (serving l []) ≡ over conns
      → 2 * length conns ≤ all_exits evs
  input_run-exits evs conns e h =
      omega (
        arith,
        subst (Balanced (0 + all_exits evs)) h (run-Balanced 0 evs (serving l []) (start e)),
      )

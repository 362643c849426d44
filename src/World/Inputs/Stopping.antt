-- ===== src/World/Inputs/Stopping.antt =====
-- src/world/mod.rs, `block_until_completion`: what a world waits for once Ctrl+C was pressed.
use tokactor.Common.{
  ◌≡◌, refl, ap, ◌∙◌, subst, true, List, [], ◌∷◌, ◌++◌, length, ok, append_assoc, append-nil,
}
use tokactor.Io.Component.{Component}
use tokactor.World.Inputs.{
  Input, serving, closing, over, dead, InputEvent, told, shuts, WorldEvent, ctrl_c, wakes, World,
  update, is_over, all_over, completed, on_shut, input_step, world_step, world_run,
}
use tokactor.World.Inputs.Completion.{Each, cons}

module _ {C Conn : Type 0} where
  update-append :
      (is js : List (Input C Conn)) (f : Input C Conn → Input C Conn) (i : Input C Conn)
      → update (length is) f (is ++ i ∷ js) ≡ is ++ f i ∷ js
  update-append [] js f i = refl
  update-append (k ∷ is) js f i = ap (λ l. k ∷ l) (update-append is js f i)

  all_over-append :
      (is : List (Input C Conn)) (i : Input C Conn)
      → all_over is ≡ true
      → is_over i ≡ true
      → all_over (is ++ i ∷ []) ≡ true
  all_over-append [] i h e = rw e refl
  all_over-append (over conns ∷ is) i h e = all_over-append is i h e
  all_over-append (dead conns ∷ is) i h e = all_over-append is i h e
  all_over-append (serving c conns ∷ is) i h e = cc
  all_over-append (closing c conns ∷ is) i h e = cc

module _ {C Rd Act E D : Type 0} (k : Component C Rd Act E D) where
  -- An input that is over, or whose component can shut down.
  pub data Stoppable : Input C (Rd × Act) → Type 0 where
    serves :
        {c : C} {conns : List (Rd × Act)} (d : D)
        → k.shutdown c d ≡ ok tt
        → Stoppable (serving c conns)
    closes :
        {c : C} {conns : List (Rd × Act)} (d : D)
        → k.shutdown c d ≡ ok tt
        → Stoppable (closing c conns)
    returned : {conns : List (Rd × Act)} → Stoppable (over conns)
    died : {conns : List (Rd × Act)} → Stoppable (dead conns)

  abbrev shut_world : List (Input C (Rd × Act)) → World C (Rd × Act)
  shut_world is = record { inputs = is; shut = true }

  Ends : World C (Rd × Act) → Type 0
  Ends w = (es : List (WorldEvent D)) × (completed (world_run k es w) ≡ true)

  after_event :
      (e : InputEvent D) (is js : List (Input C (Rd × Act))) (i i' : Input C (Rd × Act))
      → input_step k true e i ≡ i'
      → Ends (shut_world (is ++ i' ∷ js))
      → Ends (shut_world (is ++ i ∷ js))
  unfolding Ends world_run world_step
  after_event e is js i i' step (es, done) = (
    wakes (length is) e ∷ es,
    ap (λ l. completed (world_run k es (shut_world l)))
          (update-append is js (input_step k true e) i ∙ ap (λ z. is ++ z ∷ js) step)
        ∙ done,
  )

  moved :
      (is js : List (Input C (Rd × Act))) (i : Input C (Rd × Act))
      → Ends (shut_world ((is ++ i ∷ []) ++ js))
      → Ends (shut_world (is ++ i ∷ js))
  moved is js i = subst (λ l. Ends (shut_world l)) (append_assoc is (i ∷ []) js)

  shut_down :
      (is js : List (Input C (Rd × Act))) (c : C) (conns : List (Rd × Act)) (d : D)
      → k.shutdown c d ≡ ok tt
      → Ends (shut_world ((is ++ over conns ∷ []) ++ js))
      → Ends (shut_world (is ++ closing c conns ∷ js))
  unfolding input_step
  shut_down is js c conns d e later =
      after_event (shuts d) is js (closing c conns) (over conns) (ap (λ r. on_shut k r c conns) e)
        (moved is js (over conns) later)

  turn_off :
      (is js : List (Input C (Rd × Act)))
      → all_over is ≡ true
      → Each Stoppable js
      → Ends (shut_world (is ++ js))
  unfolding Ends completed world_run input_step
  turn_off is [] h s = ([], ap all_over (append-nil is) ∙ h)
  turn_off is (serving c conns ∷ js) h (cons (serves d e) ss) =
      after_event told is js (serving c conns) (closing c conns) refl (
        shut_down is js c conns d e
          (turn_off (is ++ over conns ∷ []) js (all_over-append is (over conns) h refl) ss))
  turn_off is (closing c conns ∷ js) h (cons (closes d e) ss) =
      shut_down is js c conns d e
        (turn_off (is ++ over conns ∷ []) js (all_over-append is (over conns) h refl) ss)
  turn_off is (over conns ∷ js) h (cons returned ss) =
      moved is js (over conns)
        (turn_off (is ++ over conns ∷ []) js (all_over-append is (over conns) h refl) ss)
  turn_off is (dead conns ∷ js) h (cons died ss) =
      moved is js (dead conns)
        (turn_off (is ++ dead conns ∷ []) js (all_over-append is (dead conns) h refl) ss)

  -- After Ctrl+C a world whose components can all shut down can complete: some further events lead to
  -- it, whatever its inputs were doing.
  pub world_run-completed :
      (w : World C (Rd × Act))
      → Each Stoppable w.inputs
      → (es : List (WorldEvent D)) × (completed (world_run k (ctrl_c ∷ es) w) ≡ true)
  unfolding Ends world_run world_step
  world_run-completed w s = turn_off [] w.inputs refl s

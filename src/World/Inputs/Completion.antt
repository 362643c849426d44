-- ===== src/World/Inputs/Completion.antt =====
-- src/world/mod.rs, `block_until_completion`: when a world comes to its end.
use tokactor.Common.{
  ℕ, zero, suc, ◌≡◌, refl, sym, subst, Bool, true, false, Option, none, some, List, [], ◌∷◌, Flow,
  ok, panicked, blocked,
}
use tokactor.Address.{Reply, fine, failed}
use tokactor.Io.Component.{Component}
use tokactor.World.Inputs.{
  Input, serving, closing, over, dead, InputEvent, accepts, departs, told, shuts, WorldEvent,
  ctrl_c, wakes, World, update, all_over, completed, on_inputs, on_accepted, input_step, world_step,
  world_run,
}

module _ {C Conn : Type 0} where
  -- Every input has this property.
  pub data Each (P : Input C Conn → Type 0) : List (Input C Conn) → Type 0 where
    nil : Each P []
    cons : {i : Input C Conn} {is : List (Input C Conn)} → P i → Each P is → Each P (i ∷ is)

  -- Some input has this property.
  pub data Some (P : Input C Conn → Type 0) : List (Input C Conn) → Type 0 where
    here : {i : Input C Conn} {is : List (Input C Conn)} → P i → Some P (i ∷ is)
    there : {i : Input C Conn} {is : List (Input C Conn)} → Some P is → Some P (i ∷ is)

  update-Each :
      {P : Input C Conn → Type 0} (n : ℕ) (f : Input C Conn → Input C Conn)
      → ((i : Input C Conn) → P i → P (f i))
      → (is : List (Input C Conn)) → Each P is
      → Each P (update n f is)
  update-Each n f keeps [] nil = nil
  update-Each zero f keeps (i ∷ is) (cons p ps) = cons (keeps i p) ps
  update-Each (suc n) f keeps (i ∷ is) (cons p ps) = cons p (update-Each n f keeps is ps)

  pub update-Some :
      {P : Input C Conn → Type 0} (n : ℕ) (f : Input C Conn → Input C Conn)
      → ((i : Input C Conn) → P i → P (f i))
      → (is : List (Input C Conn)) → Some P is
      → Some P (update n f is)
  update-Some zero f keeps [] q = elim q [ ]
  update-Some (suc n) f keeps [] q = elim q [ ]
  update-Some zero f keeps (i ∷ is) (here p) = here (keeps i p)
  update-Some zero f keeps (i ∷ is) (there q) = there q
  update-Some (suc n) f keeps (i ∷ is) (here p) = here p
  update-Some (suc n) f keeps (i ∷ is) (there q) = there (update-Some n f keeps is q)

  -- Killed by a panic.
  pub data Dead : Input C Conn → Type 0 where
    panic : {conns : List Conn} → Dead (dead conns)

  -- In its loop, or killed by a panic.
  data Untold : Input C Conn → Type 0 where
    untold : {c : C} {conns : List Conn} → Untold (serving c conns)
    killed : {conns : List Conn} → Untold (dead conns)

  all_over-Dead : (is : List (Input C Conn)) → Each Untold is → all_over is ≡ true → Each Dead is
  all_over-Dead [] nil h = nil
  all_over-Dead (dead conns ∷ is) (cons killed us) h = cons panic (all_over-Dead is us h)
  all_over-Dead (serving c conns ∷ is) us h = cc
  all_over-Dead (closing c conns ∷ is) us h = cc
  all_over-Dead (over conns ∷ is) (cons u us) h = elim u [ ]

-- Whether Ctrl+C was pressed.
unfoldable pub pressed : {D : Type 0} → List (WorldEvent D) → Bool
pressed [] = false
pressed (ctrl_c ∷ es) = true
pressed (wakes i e ∷ es) = pressed es

module _ {C Rd Act E D : Type 0} (k : Component C Rd Act E D) where
  accepted-Untold :
      (r : Flow (Option (Reply (Rd × Act) E) × C)) (c : C) (conns : List (Rd × Act))
      → Untold (on_accepted k r c conns)
  accepted-Untold (ok (none, c')) c conns = untold
  accepted-Untold (ok (some (fine conn), c')) c conns = untold
  accepted-Untold (ok (some (failed e), c')) c conns = killed
  accepted-Untold panicked c conns = killed
  accepted-Untold blocked c conns = untold

  step-Untold :
      (e : InputEvent D) (i : Input C (Rd × Act)) → Untold i → Untold (input_step k false e i)
  unfolding input_step
  step-Untold accepts (serving c conns) u = accepted-Untold (k.accept c) c conns
  step-Untold departs (serving c conns) u = untold
  step-Untold told (serving c conns) u = u
  step-Untold (shuts d) (serving c conns) u = u
  step-Untold e (closing c conns) u = elim u [ ]
  step-Untold e (over conns) u = elim u [ ]
  step-Untold accepts (dead conns) u = u
  step-Untold departs (dead conns) u = u
  step-Untold told (dead conns) u = u
  step-Untold (shuts d) (dead conns) u = u

  run-Untold :
      (es : List (WorldEvent D)) (w : World C (Rd × Act))
      → w.shut ≡ false
      → pressed es ≡ false
      → Each Untold w.inputs
      → Each Untold (world_run k es w).inputs
  unfolding world_run world_step pressed
  run-Untold [] w s p u = u
  run-Untold (ctrl_c ∷ es) w s p u = cc
  run-Untold (wakes n e ∷ es) w s p u =
      run-Untold es (record w { inputs = update n (input_step k w.shut e) w.inputs }) s p
        (update-Each n (input_step k w.shut e)
          (λ i v. subst (λ b. Untold (input_step k b e i)) (sym s) (step-Untold e i v)) w.inputs u)

  unshut : (cs : List C) → (on_inputs {Conn = Rd × Act} cs).shut ≡ false
  unfolding on_inputs
  unshut cs = refl

  start-Untold : (cs : List C) → Each Untold (on_inputs {Conn = Rd × Act} cs).inputs
  unfolding on_inputs
  start-Untold [] = nil
  start-Untold (c ∷ cs) = cons untold (start-Untold cs)

  -- A world in which Ctrl+C was not pressed completes only if every one of its inputs has died of a
  -- panic: no input is ever turned off by itself.
  pub world_run-Dead :
      (cs : List C) (es : List (WorldEvent D))
      → pressed es ≡ false
      → completed (world_run k es (on_inputs cs)) ≡ true
      → Each Dead (world_run k es (on_inputs cs)).inputs
  unfolding completed
  world_run-Dead cs es p h =
      all_over-Dead _ (run-Untold es (on_inputs cs) (unshut cs) p (start-Untold cs)) h

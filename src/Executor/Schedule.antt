-- ===== src/Executor/Schedule.antt =====
-- How a loop over a schedule (src/executor.rs) is reasoned about: an invariant rule for `drive`, and
-- the inversion of the steps that follow one another.
pub mod Resuming
use tokactor.Common.{◌≡◌, refl, List, [], ◌∷◌, Flow, ok, panicked, blocked, arith}
use tokactor.Executor.Awaits.{
  Event, Turn, stay, leave, crash, hang, Outcome, ready, pending, panics, hangs, drive, lift,
  and_then,
}

module _ {U X Y : Type 0} where
  pub and_then-eq-ready :
      (m : Outcome U X) (f : X → List (Event U) → Outcome U Y) {y : Y} {rest : List (Event U)}
      → and_then m f ≡ ready y rest
      → (x : X) × (es : List (Event U)) × (m ≡ ready x es) × (f x es ≡ ready y rest)
  and_then-eq-ready (ready x es) f h = (x, es, refl, h)
  and_then-eq-ready pending f h = cc
  and_then-eq-ready panics f h = cc
  and_then-eq-ready hangs f h = cc

pub and_then_assoc :
    {U X Y Z : Type 0} (m : Outcome U X) (f : X → List (Event U) → Outcome U Y)
    (g : Y → List (Event U) → Outcome U Z)
    → and_then (and_then m f) g ≡ and_then m λ x es. and_then (f x es) g
and_then_assoc (ready x es) f g = refl
and_then_assoc pending f g = refl
and_then_assoc panics f g = refl
and_then_assoc hangs f g = refl

module _ {U X : Type 0} where
  pub lift-eq-ready :
      (m : Flow X) (es : List (Event U)) {x : X} {rest : List (Event U)}
      → lift m es ≡ ready x rest
      → (m ≡ ok x) × (es ≡ rest)
  lift-eq-ready (ok x) es h = (ground arith, ground arith)
  lift-eq-ready panicked es h = cc
  lift-eq-ready blocked es h = cc

module _ {U X : Type 0} (turn : X → Event U → Turn X) (x : X) (e : Event U) where
  pub drive_stay :
      {y : X} (es : List (Event U)) → turn x e ≡ stay y → drive turn x (e ∷ es) ≡ drive turn y es
  unfolding drive
  drive_stay es h = rw (h, drive)

  pub drive_leave :
      {y : X} (es : List (Event U)) → turn x e ≡ leave y → drive turn x (e ∷ es) ≡ ready y es
  unfolding drive
  drive_leave es h = rw (h, drive)

  pub drive_crash : (es : List (Event U)) → turn x e ≡ crash → drive turn x (e ∷ es) ≡ panics
  unfolding drive
  drive_crash es h = rw (h, drive)

module _ {U X : Type 0} (turn : X → Event U → Turn X) (P : X → Type 0) (Q : X → Type 0)
    (stays : (x : X) (e : Event U) (y : X) → P x → turn x e ≡ stay y → P y)
    (leaves : (x : X) (e : Event U) (y : X) → P x → turn x e ≡ leave y → Q y) where
  went :
      (x : X) (e : Event U) (es : List (Event U)) (y : X) (rest : List (Event U)) (t : Turn X)
      → P x
      → ((z : X) → P z → drive turn z es ≡ ready y rest → Q y)
      → turn x e ≡ t
      → (elim t [ stay z ↦ drive turn z es | leave z ↦ ready z es | crash ↦ panics | hang ↦ hangs ])
        ≡ ready y rest
      → Q y
  went x e es y rest (stay z) p later q h = later z (stays x e z p q) h
  went x e es y rest (leave z) p later q h = leaves x e y p (ground arith)
  went x e es y rest crash p later q h = cc
  went x e es y rest hang p later q h = cc

  -- What holds at the start and is kept by every turn that stays yields what the last turn gives.
  pub drive_rule :
      (x : X) (es : List (Event U)) (y : X) (rest : List (Event U))
      → P x
      → drive turn x es ≡ ready y rest
      → Q y
  unfolding drive
  drive_rule x [] y rest p h = cc
  drive_rule x (e ∷ es) y rest p h =
      went x e es y rest (turn x e) p (λ z q. drive_rule z es y rest q) refl h

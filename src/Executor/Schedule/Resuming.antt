-- ===== src/Executor/Schedule/Resuming.antt =====
-- Loops of src/executor.rs that have used up their schedule, and what more of a schedule does to them.
use tokactor.Common.{
  ◌≡◌, refl, sym, ◌∙◌, List, [], ◌∷◌, ◌++◌, Flow, ok, panicked, blocked, ◌⊎◌, inl, inr,
}
use tokactor.Executor.Awaits.{
  Event, Turn, stay, leave, crash, hang, Outcome, ready, pending, panics, hangs, drive, lift,
  and_then,
}

module _ {U X Y : Type 0} where
  pub and_then-eq-pending :
      (m : Outcome U X) (f : X → List (Event U) → Outcome U Y)
      → and_then m f ≡ pending
      → (m ≡ pending) ⊎ ((x : X) × (es : List (Event U)) × (m ≡ ready x es) × (f x es ≡ pending))
  and_then-eq-pending (ready x es) f h = inr (x, es, refl, h)
  and_then-eq-pending pending f h = inl refl
  and_then-eq-pending panics f h = cc h
  and_then-eq-pending hangs f h = cc h

pub lift-ne-pending : {U X : Type 0} (m : Flow X) (es : List (Event U)) → lift m es ≡ pending → ⊥
lift-ne-pending (ok x) es h = cc h
lift-ne-pending panicked es h = cc h
lift-ne-pending blocked es h = cc h

module _ {U X : Type 0} (turn : X → Event U → Turn X) where
  abbrev pub follow : Turn X → List (Event U) → Outcome U X
  follow (stay y) es = drive turn y es
  follow (leave y) es = ready y es
  follow crash es = panics
  follow hang es = hangs

  pub drive-follow :
      (x : X) (e : Event U) (es : List (Event U)) → drive turn x (e ∷ es) ≡ follow (turn x e) es
  unfolding drive
  drive-follow x e es = same (turn x e)
    where
      same :
          (t : Turn X)
          → (elim t [
            | stay y ↦ drive turn y es
            | leave y ↦ ready y es
            | crash ↦ panics
            | hang ↦ hangs
          ])
            ≡ follow t es
      same (stay y) = refl
      same (leave y) = refl
      same crash = refl
      same hang = refl

  -- Where a loop stands that has used up its schedule: it goes on with more of it.
  abbrev pub On : (List (Event U) → Outcome U X) → Type 0
  On run = (y : X) × ((more : List (Event U)) → run more ≡ drive turn y more)

  pub drive-pending :
      (x : X) (es : List (Event U))
      → drive turn x es ≡ pending
      → On (λ more. drive turn x (es ++ more))
  drive-pending x [] h = (x, λ more. refl)
  drive-pending x (e ∷ es) h =
      let (y, on) = through (turn x e) (λ z. drive-pending z es) (sym (drive-follow x e es) ∙ h) in
      (y, λ more. drive-follow x e (es ++ more) ∙ on more)
    where
      through :
          (t : Turn X)
          → ((z : X) → drive turn z es ≡ pending → On (λ more. drive turn z (es ++ more)))
          → follow t es ≡ pending
          → On (λ more. follow t (es ++ more))
      through (stay z) rest h = rest z h
      through (leave z) rest h = cc h
      through crash rest h = cc h
      through hang rest h = cc h

  -- A loop that was left is left in the same place with more of a schedule.
  pub drive-ready :
      (x y : X) (es rest more : List (Event U))
      → drive turn x es ≡ ready y rest
      → drive turn x (es ++ more) ≡ ready y (rest ++ more)
  unfolding drive
  drive-ready x y [] rest more h = cc h
  drive-ready x y (e ∷ es) rest more h =
      drive-follow x e (es ++ more)
      ∙ through (turn x e) (λ z. drive-ready z y es rest more) (sym (drive-follow x e es) ∙ h)
    where
      through :
          (t : Turn X)
          → ((z : X)
              → drive turn z es ≡ ready y rest
              → drive turn z (es ++ more) ≡ ready y (rest ++ more))
          → follow t es ≡ ready y rest
          → follow t (es ++ more) ≡ ready y (rest ++ more)
      through (stay z) later h = later z h
      through (leave z) later h =
          let same : z ≡ y = cc h in
          let left_ : es ≡ rest = cc h in λ i. ready (same i) (left_ i ++ more)
      through crash later h = cc h
      through hang later h = cc h

-- ===== src/Anonymous.antt =====
-- src/anonymous.rs: an actor around one function, which it takes out and calls on its first message.
use mathlib.Core.Option
use tokactor.Common.{◌≡◌, refl, inl, inr, Option, none, some, Option-cases, List, [], ◌∷◌}
use tokactor.Actor.{Command, AskResult, reply}

-- `U` goes in and `R` comes out; a function that panics gives `none`.
pub record FnActor (U R : Type 0) : Type 0 where
  pub f : Option (U → Option R)

module _ {U R : Type 0} where
  -- `From<F>`
  unfoldable pub from : (U → Option R) → FnActor U R
  from f = record { f = some f }

  abbrev spent : FnActor U R
  spent = record { f = none }

  abbrev called : Option (U → Option R) → U → Option R
  called none u = none
  called (some f) u = f u

  -- `self.f.take().unwrap()`, and the call, which all three handlers make
  unfoldable pub call : U → FnActor U R → Option (FnActor U R × R)
  call u a = Option.map (λ r. (spent, r)) (called a.f u)

  unfoldable pub handle : U → FnActor U R → Option (FnActor U R × List Command)
  unfolding call
  handle u a = Option.map (λ p. (p.0, [])) (call u a)

  unfoldable pub ask : U → FnActor U R → Option (FnActor U R × List Command × AskResult R)
  unfolding call
  ask u a = Option.map (λ p. (p.0, [], reply p.1)) (call u a)

  abbrev next : Option (FnActor U R × List Command × AskResult R) → Option (FnActor U R × R)
  next (some (a, ks, reply r)) = some (a, r)
  next _ = none

  abbrev followed : Option (FnActor U R × R) → (FnActor U R → Option (List R)) → Option (List R)
  followed none rest = none
  followed (some (a, r)) rest = Option.map (λ rs. r ∷ rs) (rest a)

  -- The replies to questions one after another; `none` if the actor panics at one of them.
  unfoldable pub ask_all : List U → FnActor U R → Option (List R)
  ask_all [] a = some []
  ask_all (u ∷ us) a = followed (next (ask u a)) (ask_all us)

  -- An actor around a function answers one question with what the function makes of it, and
  -- panics at a second, whatever the function does.
  pub ask_all_lem :
      (f : U → Option R) (u v : U) (us : List U)
      → (ask_all (u ∷ []) (from f) ≡ Option.map (λ r. r ∷ []) (f u))
        × (ask_all (u ∷ v ∷ us) (from f) ≡ none)
  unfolding ask_all ask call from
  ask_all_lem f u v us = elim (Option-cases (f u)) [
    | inl e ↦ rw e (refl, refl)
    | inr (r, e) ↦ rw e (refl, refl)
  ]

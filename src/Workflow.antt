-- ===== src/Workflow.antt =====
-- src/utils/workflow: steps that are run one after another. A step is a function, or an address
-- that is asked; a question that is not answered is a `todo!()`, which panics.
use tokactor.Common.{◌≡◌, refl, Flow, ok, panicked, blocked, ◌>>=◌}
use tokactor.Address.{Reply, fine, failed, AskError}

abbrev pub Workflow : Type 0 → Type 0 → Type 0
Workflow A B = A → Flow B

-- `Then`, and `Chained`, which does the same
pub record Then (A B C : Type 0) : Type 0 where
  pub a : Workflow A B
  pub b : Workflow B C

unfoldable pub run_then : {A B C : Type 0} → Then A B C → Workflow A C
run_then t input = do output ← t.a input; t.b output

abbrev pub answer_of : {A R : Type 0} → Reply R (AskError A) → Flow R
answer_of (fine response) = ok response
answer_of (failed e) = panicked

-- `WorkflowBase for ActorRef`, over the outcome of `ActorRef::ask`
unfoldable pub run_ref : {A R : Type 0} → (A → Flow (Reply R (AskError A))) → Workflow A R
run_ref ask input = ask input >>= answer_of

-- A chain of three steps runs the same, whichever way its two links nest.
pub run_then_assoc :
    {A B C D : Type 0} (f : Workflow A B) (g : Workflow B C) (h : Workflow C D) (input : A)
    → run_then (record { a = run_then (record { a = f; b = g }); b = h }) input
      ≡ run_then (record { a = f; b = run_then (record { a = g; b = h }) }) input
unfolding run_then
run_then_assoc f g h input = nested (f input)
  where
    nested : (m : Flow _) → (m >>= g) >>= h ≡ (m >>= (λ y. g y >>= h))
    nested (ok y) = refl
    nested panicked = refl
    nested blocked = refl

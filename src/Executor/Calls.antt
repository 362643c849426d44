-- ===== src/Executor/Calls.antt =====
-- src/actor.rs: which methods of its context an actor calls.
use tokactor.Common.{Option, none, some, List, [], ◌∷◌}
use tokactor.Actor.{Actor, Command, AskResult}

-- The calls on the context are all of a kind.
unfoldable pub Each : (Command → Type 0) → List Command → Type 0
Each Allowed [] = Unit
Each Allowed (k ∷ ks) = Allowed k × Each Allowed ks

abbrev pub Makes : {A : Type 0} → (Command → Type 0) → Option (A × List Command) → Type 0
Makes Allowed none = Unit
Makes Allowed (some (a, ks)) = Each Allowed ks

abbrev pub MakesAsked :
    {A R : Type 0} → (Command → Type 0) → Option (A × List Command × AskResult R) → Type 0
MakesAsked Allowed none = Unit
MakesAsked Allowed (some (a, ks, r)) = Each Allowed ks

-- An actor that makes only calls of a kind, in its callbacks and its handlers.
pub record Calls {A U R : Type 0} (Allowed : Command → Type 0) (act : Actor A U R) : Type 0 where
  pub pre_run : (a : A) → Makes Allowed (act.pre_run a)
  pub post_run : (a : A) → Makes Allowed (act.post_run a)
  pub on_stopping : (a : A) → Makes Allowed (act.on_stopping a)
  pub handle : (u : U) (a : A) → Makes Allowed (act.handle u a)
  pub ask : (u : U) (a : A) → MakesAsked Allowed (act.ask u a)
  pub async_ask : (u : U) (a : A) → Makes Allowed (act.async_ask u a)

-- Every call is a call.
abbrev pub Called : Command → Type 0
Called k = Unit

any_calls : (ks : List Command) → Each Called ks
unfolding Each
any_calls [] = tt
any_calls (k ∷ ks) = (tt, any_calls ks)

module _ {A : Type 0} where
  pub any_makes : (r : Option (A × List Command)) → Makes Called r
  any_makes none = tt
  any_makes (some (a, ks)) = any_calls ks

  any_asked : {R : Type 0} (r : Option (A × List Command × AskResult R)) → MakesAsked Called r
  any_asked none = tt
  any_asked (some (a, ks, r)) = any_calls ks

  pub any_Calls : {U R : Type 0} (act : Actor A U R) → Calls Called act
  any_Calls act = record {
    pre_run = λ a. any_makes (act.pre_run a);
    post_run = λ a. any_makes (act.post_run a);
    on_stopping = λ a. any_makes (act.on_stopping a);
    handle = λ u a. any_makes (act.handle u a);
    ask = λ u a. any_asked (act.ask u a);
    async_ask = λ u a. any_makes (act.async_ask u a);
  }

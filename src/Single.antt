-- ===== src/Single.antt =====
-- src/single: an actor with typed addresses of its own, one for each kind of message that it takes.
-- `tuple.rs` nests the addresses that a builder has made so far and flattens them at the end;
-- `context.rs` is the builder. The addresses are of one type here, so a nested tuple of `n` of them
-- is a nested pair of depth `n`.
pub mod Refs
pub mod Order
use mathlib.Core.Option
use tokactor.Common.{
  ℕ, zero, suc, ◌+◌, Option, none, some, List, [], ◌∷◌, ◌++◌, Flow, ok, panicked, ◌>>=◌, ◌≤◌, arith,
}
use tokactor.Tokio.{Tokio}
use tokactor.Message.{SendMessage}
use tokactor.Actor.{Actor}
use tokactor.Context.{Task, child, rx_handle, rx_ask, rx_async, Ctx, new, spawn_task}

-- `()` and pairs: the values that `IntoNestedTuple` is implemented for.
pub data Units : Type 0 where
  unit : Units
  pair : Units → Units → Units

unfoldable pub into_tuple_list : {X : Type 0} → Units → X → X
into_tuple_list unit list = list
into_tuple_list (pair head tail) list = into_tuple_list head (into_tuple_list tail list)

abbrev pub Nested : Type 0 → ℕ → Type 0
Nested T zero = Unit {0}
Nested T (suc n) = T × Nested T n

-- The flat tuples, up to ten; there is no `Tuple` impl beyond them.
abbrev pub Flat : Type 0 → ℕ → Type 0
Flat T zero = Unit {0}
Flat T (suc zero) = T
Flat T (suc (suc zero)) = T × T
Flat T (suc (suc (suc zero))) = T × T × T
Flat T (suc (suc (suc (suc zero)))) = T × T × T × T
Flat T (suc (suc (suc (suc (suc zero))))) = T × T × T × T × T
Flat T (suc (suc (suc (suc (suc (suc zero)))))) = T × T × T × T × T × T
Flat T (suc (suc (suc (suc (suc (suc (suc zero))))))) = T × T × T × T × T × T × T
Flat T (suc (suc (suc (suc (suc (suc (suc (suc zero)))))))) = T × T × T × T × T × T × T × T
Flat T (suc (suc (suc (suc (suc (suc (suc (suc (suc zero))))))))) =
    T × T × T × T × T × T × T × T × T
Flat T (suc (suc (suc (suc (suc (suc (suc (suc (suc (suc zero)))))))))) =
    T × T × T × T × T × T × T × T × T × T
Flat T (suc (suc (suc (suc (suc (suc (suc (suc (suc (suc (suc n))))))))))) = ⊥

module _ (T : Type 0) where
  -- `Tuple::flatten`, impl by impl; `none` where there is no impl
  unfoldable pub flatten : (n : ℕ) → Nested T n → Option (Flat T n)
  flatten zero t = some tt
  flatten (suc zero) (a, _) = some a
  flatten (suc (suc zero)) (a, (b, _)) = some (b, a)
  flatten (suc (suc (suc zero))) (a, (b, (c, _))) = some (c, b, a)
  flatten (suc (suc (suc (suc zero)))) (a, (b, (c, (d, _)))) = some (d, c, b, a)
  flatten (suc (suc (suc (suc (suc zero))))) (a, (b, (c, (d, (e, _))))) = some (e, d, c, b, a)
  flatten (suc (suc (suc (suc (suc (suc zero)))))) (a, (b, (c, (d, (e, (f, _)))))) =
      some (f, e, d, c, b, a)
  flatten (suc (suc (suc (suc (suc (suc (suc zero))))))) (a, (b, (c, (d, (e, (f, (g, _))))))) =
      some (g, f, e, d, c, b, a)
  flatten (suc (suc (suc (suc (suc (suc (suc (suc zero))))))))
        (a, (b, (c, (d, (e, (f, (g, (i, _)))))))) =
      some (i, g, f, e, d, c, b, a)
  flatten (suc (suc (suc (suc (suc (suc (suc (suc (suc zero)))))))))
        (a, (b, (c, (d, (e, (f, (g, (i, (j, _))))))))) =
      some (j, i, g, f, e, d, c, b, a)
  flatten (suc (suc (suc (suc (suc (suc (suc (suc (suc (suc zero))))))))))
        (a, (b, (c, (d, (e, (f, (g, (i, (j, (k, _)))))))))) =
      some (k, j, i, g, f, e, d, c, b, a)
  flatten (suc (suc (suc (suc (suc (suc (suc (suc (suc (suc (suc n))))))))))) t = none

  -- The parts of a flat tuple, from the left.
  abbrev pub flat_list : (n : ℕ) → Flat T n → List T
  flat_list zero t = []
  flat_list (suc zero) a = a ∷ []
  flat_list (suc (suc zero)) (a, b) = a ∷ b ∷ []
  flat_list (suc (suc (suc zero))) (a, b, c) = a ∷ b ∷ c ∷ []
  flat_list (suc (suc (suc (suc zero)))) (a, b, c, d) = a ∷ b ∷ c ∷ d ∷ []
  flat_list (suc (suc (suc (suc (suc zero))))) (a, b, c, d, e) = a ∷ b ∷ c ∷ d ∷ e ∷ []
  flat_list (suc (suc (suc (suc (suc (suc zero)))))) (a, b, c, d, e, f) = a ∷ b ∷ c ∷ d ∷ e ∷ f ∷ []
  flat_list (suc (suc (suc (suc (suc (suc (suc zero))))))) (a, b, c, d, e, f, g) =
      a ∷ b ∷ c ∷ d ∷ e ∷ f ∷ g ∷ []
  flat_list (suc (suc (suc (suc (suc (suc (suc (suc zero)))))))) (a, b, c, d, e, f, g, i) =
      a ∷ b ∷ c ∷ d ∷ e ∷ f ∷ g ∷ i ∷ []
  flat_list (suc (suc (suc (suc (suc (suc (suc (suc (suc zero))))))))) (a, b, c, d, e, f, g, i, j) =
      a ∷ b ∷ c ∷ d ∷ e ∷ f ∷ g ∷ i ∷ j ∷ []
  flat_list (suc (suc (suc (suc (suc (suc (suc (suc (suc (suc zero))))))))))
        (a, b, c, d, e, f, g, i, j, k) =
      a ∷ b ∷ c ∷ d ∷ e ∷ f ∷ g ∷ i ∷ j ∷ k ∷ []
  flat_list (suc (suc (suc (suc (suc (suc (suc (suc (suc (suc (suc n))))))))))) t = elim t [ ]

-- The kinds of addresses, with the mailbox that each sends to.
pub data Ref (Q : Type 0) : Type 0 where
  send_ref : Q → Ref Q
  ask_ref : Q → Ref Q
  async_ask_ref : Q → Ref Q

pub data Kind : Type 0 where
  sender asker ask_asyncer : Kind

unfoldable pub task_of : Kind → Task
task_of sender = rx_handle
task_of asker = rx_ask
task_of ask_asyncer = rx_async

unfoldable pub ref_of : {Q : Type 0} → Kind → Q → Ref Q
ref_of sender q = send_ref q
ref_of asker q = ask_ref q
ref_of ask_asyncer q = async_ask_ref q

pub record CtxBuilder (A R Chan W S Q : Type 0) (n : ℕ) : Type 0 where
  pub actor : A
  pub context : Ctx R Chan W S
  pub senders : Nested (Ref Q) n

-- `channel` makes the channel of an address, which holds that many messages of the address's type.
module _ {A U R Chan W S Q : Type 0} (tk : Tokio (SendMessage U) Chan W S) (act : Actor A U R)
    (channel : ℕ → Q) where
  unfoldable pub builder : A → CtxBuilder A R Chan W S Q 0
  builder a = record { actor = a; context = new tk act; senders = tt }

  -- The builder with one more address, and the context whose task serves it.
  abbrev pub joined :
      {n : ℕ}
      → Kind
      → CtxBuilder A R Chan W S Q n
      → Ctx R Chan W S
      → CtxBuilder A R Chan W S Q (suc n)
  joined k b c = record {
    actor = b.actor;
    context = c;
    senders = (ref_of k (channel act.mailbox_size), b.senders);
  }

  -- `CtxBuilder::sender`, `asker` and `ask_asyncer`
  unfoldable pub register :
      {n : ℕ} → Kind → CtxBuilder A R Chan W S Q n → Flow (CtxBuilder A R Chan W S Q (suc n))
  register k b = spawn_task tk (task_of k) b.context >>= λ c. ok (joined k b c)

  -- One call of the builder for each kind, one after another.
  unfoldable pub register_all :
      List Kind
      → ((n : ℕ) × CtxBuilder A R Chan W S Q n)
      → Flow ((n : ℕ) × CtxBuilder A R Chan W S Q n)
  register_all [] p = ok p
  register_all (k ∷ ks) (n, b) = register k b >>= λ b'. register_all ks (suc n, b')

  -- `CtxBuilder::run`: the actor and the context that are run, and the addresses.
  unfoldable pub run :
      ((n : ℕ) × CtxBuilder A R Chan W S Q n) → A × Ctx R Chan W S × Option (List (Ref Q))
  run (n, b) = (b.actor, b.context, Option.map (flat_list (Ref Q) n) (flatten (Ref Q) n b.senders))

  -- `CtxBuilder::spawn`: the same, with the task started by another context.
  unfoldable pub spawn :
      {R' : Type 0}
      → ((n : ℕ) × CtxBuilder A R Chan W S Q n)
      → Ctx R' Chan W S
      → Flow (Ctx R' Chan W S × Option (List (Ref Q)))
  unfolding run
  spawn p parent = spawn_task tk child parent >>= λ c. ok (c, (run p).2)

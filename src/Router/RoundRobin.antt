-- ===== src/Router/RoundRobin.antt =====
-- src/utils/router.rs: which actor a question goes to.
use tokactor.Common.{
  ℕ, zero, suc, ◌+◌, ◌%◌, ◌<◌, ◌≡◌, ◌∙◌, Option, none, List, [], ◌∷◌, ◌++◌, get_elem?, length,
  length-append, Flow, ok, ◌>>=◌, if◌then◌else◌, ltb, arith,
}
use tokactor.Router.{RouterBuilder, Router, new, spawn_rounds, on_start, route}

module _ {Addr : Type 0} where
  -- A router that has started with at least one actor.
  pub record IsValid (r : Router Addr) : Type 0 where
    pub started : length r.actors ≡ r.max_actors
    pub in_range : r.index < r.max_actors

  length-spawn_rounds :
      (spawn : ℕ → Addr) (k n : ℕ) (actors : List Addr)
      → length (spawn_rounds spawn k n actors) ≡ length actors + n
  unfolding spawn_rounds
  length-spawn_rounds spawn k zero actors = omega arith
  length-spawn_rounds spawn k (suc n) actors = omega (
    arith,
    length-spawn_rounds spawn (suc k) n (actors ++ spawn k ∷ []),
    length-append actors (spawn k ∷ []),
  )

  -- A new router with room for an actor is ready for questions once it has started.
  pub on_start-IsValid :
      (spawn : ℕ → Addr) (b : RouterBuilder) → 0 < b.max_actors → IsValid (on_start spawn (new b))
  unfolding on_start new
  on_start-IsValid spawn b h = record {
    started = length-spawn_rounds spawn 0 b.max_actors [] ∙ omega arith;
    in_range = h;
  }

  -- So many questions, one after another: the actors that they go to, and the router after them.
  pub routes : ℕ → Router Addr → Flow (List Addr × Router Addr)
  routes zero r = ok ([], r)
  routes (suc n) r = route r >>= λ p. routes n p.1 >>= λ q. ok (p.0 ∷ q.0, q.1)

  -- What question number `i` of `n` gets.
  abbrev turn : ℕ → Router Addr → ℕ → Option Addr
  turn n r i = if ltb i n then get_elem? r.actors ((r.index + i) % r.max_actors) else none

-- ===== src/Router.antt =====
-- src/utils/router.rs: a router that spreads questions over its actors in turn.
pub mod RoundRobin
pub mod Retry
use tokactor.Common.{
  ℕ, zero, suc, ◌+◌, ◌%◌, Option, none, some, List, [], ◌∷◌, ◌++◌, get_elem?, Flow, ok, panicked,
  blocked, ◌>>=◌, if◌then◌else◌, ◌==◌,
}
use tokactor.Message.{ActorState}
use tokactor.Context.{Ctx, stop_ctx}
use tokactor.Address.{Reply, fine, failed, AskError, dropped}

pub record RouterBuilder : Type 0 where
  pub max_retry : ℕ
  pub max_actors : ℕ

-- `RouterBuilder::new` and its setters; the only strategy is `RoundRobin`.
unfoldable pub builder : ℕ → RouterBuilder
builder n = record { max_retry = 0; max_actors = n }

unfoldable pub with_max_retry : ℕ → RouterBuilder → RouterBuilder
with_max_retry n b = record b { max_retry = n }

pub record ProxyFail : Type 0 where
  pub actor_index : ℕ

-- `index` is that of `RouterStrategy::RoundRobin`.
pub record Router (Addr : Type 0) : Type 0 where
  pub max_retry : ℕ
  pub max_actors : ℕ
  pub actors : List Addr
  pub index : ℕ

module _ {Addr : Type 0} where
  unfoldable pub new : RouterBuilder → Router Addr
  new b = record { max_retry = b.max_retry; max_actors = b.max_actors; actors = []; index = 0 }

  -- `for _ in 0..n`, where the actor that is spawned in round `k` gets the address `spawn k`.
  unfoldable pub spawn_rounds : (ℕ → Addr) → ℕ → ℕ → List Addr → List Addr
  spawn_rounds spawn k zero actors = actors
  spawn_rounds spawn k (suc n) actors = spawn_rounds spawn (suc k) n (actors ++ spawn k ∷ [])

  unfoldable pub on_start : (ℕ → Addr) → Router Addr → Router Addr
  unfolding spawn_rounds
  on_start spawn r = record r { actors = spawn_rounds spawn 0 r.max_actors r.actors }

  abbrev pub index_actor : Option Addr → Flow Addr
  index_actor none = panicked
  index_actor (some a) = ok a

  -- The part of `AsyncAsk::handle` before its future: the actor that is asked, and the next index.
  unfoldable pub route : Router Addr → Flow (Addr × Router Addr)
  route r = do
    address ← index_actor (get_elem? r.actors r.index)
    if r.max_actors == 0
        then panicked
        else ok (address, record r { index = (r.index + 1) % r.max_actors })

-- The future: `call k` is the `k`-th `address.async_ask`. What is left as `todo!()` panics.
module _ {U R : Type 0} (call : ℕ → U → Flow (Reply R (AskError U))) where
  abbrev pub retried : Reply R (AskError U) → (U → Flow R) → Flow R
  retried (fine result) again = ok result
  retried (failed (AskError.closed m)) again = again m
  retried (failed dropped) again = panicked

  unfoldable pub retry : ℕ → ℕ → U → Flow R
  retry zero k m = panicked
  retry (suc n) k m = call k m >>= λ r. retried r (retry n (suc k))

  unfoldable pub forward : ℕ → U → Flow R
  unfolding retry
  forward max_retry m =
      call 0 m >>= λ r. retried r (λ m'. if max_retry == 0 then panicked else retry max_retry 1 m')

-- `Handler<ProxyFail>`
unfoldable pub on_proxy_fail : {R Chan W S : Type 0} → ProxyFail → Ctx R Chan W S → Ctx R Chan W S
on_proxy_fail m c = stop_ctx c

-- `Handler<DeadActorResult<A>>`: a child that did not end by itself is `todo!()`.
unfoldable pub on_dead_actor : {A E : Type 0} → Reply A E → Flow (Unit {0})
on_dead_actor (fine _) = ok tt
on_dead_actor (failed _) = panicked

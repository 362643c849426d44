-- ===== src/Tests.antt =====
-- Actors and mailboxes to run the definitions on, and in the children the theorems at examples.
pub mod Running
pub mod Ending
pub mod Serving
pub mod Addresses
pub mod Systems
pub mod Lives
pub mod Raising
pub mod Worlds
pub mod Clients
pub mod Echoing
pub mod Framed
pub mod Broadcasting
pub mod Families
use tokactor.Common.{ℕ, ◌+◌, Bool, true, false, Option, none, some, List, [], ◌∷◌}
use tokactor.Tokio.{Tokio}
use tokactor.Tokio.Simple.{Queue, simple}
use tokactor.Message.{SendMessage, envelope, enclose, ActorState, running, blocking, non_blocking}
use tokactor.Actor.{Actor, defaults, reply}
use tokactor.Actor
use tokactor.Context.{Ctx}
use tokactor.Executor.{Executor}
use tokactor.Address.{shutdown_message}

abbrev pub Box : Type 0
Box = Queue (SendMessage ℕ)

abbrev pub tk : Tokio (SendMessage ℕ) Box ℕ ℕ
tk = simple

-- An actor that adds up what it is sent, and answers a question with the sum so far.
abbrev pub counter : Actor ℕ ℕ ℕ
counter = record defaults {
  max_anonymous_actors = 2;
  mailbox_size = 4;
  handle = λ u a. some (a + u, []);
  ask = λ u a. some (a + u, [], reply (a + u));
  async_ask = λ u a. some (a + u, []);
  async_future = λ u a. some (a, Actor.response a);
}

abbrev pub box : Bool → List (SendMessage ℕ) → Box
box shut ms = record { items = ms; limit = 4; shut = shut }

abbrev pub ctx : ActorState → Box → ℕ → Ctx ℕ Box ℕ ℕ
ctx s b children = record {
  mailbox = b;
  notifier = children;
  state = s;
  max_anonymous_actors = 2;
  overflow_anonymous_actors = 0;
  into_future_sender = none;
  effects = [];
}

abbrev pub exec : ℕ → Ctx ℕ Box ℕ ℕ → Executor ℕ ℕ Box ℕ ℕ
exec a c = record { actor = a; context = c; receiver = none }

abbrev pub add : ℕ → SendMessage ℕ
add n = envelope (enclose n)

abbrev pub await_it : ℕ → SendMessage ℕ
await_it tx = shutdown_message true tx

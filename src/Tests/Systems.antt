-- ===== src/Tests/Systems.antt =====
-- Examples for the theorems on the router, the world builder, the builder of single actors, the
-- actors around a socket and workflows.
use tokactor.Common.{
  true, false, ℕ, zero, suc, ◌+◌, ◌≡◌, ◌⊎◌, refl, Option, none, some, List, [], ◌∷◌, ok, arith,
}
use tokactor.Tokio.Simple.{simple_laws}
use tokactor.Router.{RouterBuilder, Router, forward}
use tokactor.Router.Retry.{asks, forward-async_ask}
use tokactor.Single.{send_ref, ask_ref, sender, asker, builder, register_all, run, task_of, ref_of}
use tokactor.Single.Order.{nested_list, flatten-reverse, run-register_all}
use tokactor.Single.Order
use tokactor.Context.{starts, rx_handle, rx_ask}
use tokactor.Io.{
  completes, ReaderEvent, ReaderState, left, awaits_request, idle, reader_run, reader_step,
  supervisor,
}
use tokactor.Io.Reading.{Leaves, Any, reader_run-left}
use tokactor.Tests.{tk, counter, Box, box}

abbrev two_actors : RouterBuilder
two_actors = record { max_actors = 2; max_retry = 1 }

abbrev router : Router ℕ
router = record { max_retry = 1; max_actors = 2; actors = 10 ∷ 11 ∷ []; index = 0 }

-- A router that may ask its actor five times, of a mailbox with room and of one that is closed later.
abbrev mailboxes : ℕ → Box
mailboxes zero = box false []
mailboxes (suc k) = box true []

forward-async_ask_example :
    forward {R = ℕ} (asks tk simple_laws (λ k. k) (λ k. some 6) mailboxes) 5 4 ≡ ok 6
forward-async_ask_example = forward-async_ask tk simple_laws (λ k. k) (λ k. some 6) mailboxes 5 4

run-register_all_example :
    (p : Order.Builder tk counter (λ n. n) simple_laws) × (register_all tk counter
        (λ n. n)
        (sender ∷ asker ∷ [])
        (0, builder tk counter (λ n. n) 7)
      ≡ ok p)
    × ((run tk counter (λ n. n) p).2 ≡ some (send_ref 4 ∷ ask_ref 4 ∷ []))
    × ((run tk counter (λ n. n) p).1.effects ≡ starts rx_handle ∷ starts rx_ask ∷ [])
unfolding task_of ref_of
run-register_all_example =
    run-register_all tk counter (λ n. n) simple_laws 7 (sender ∷ asker ∷ []) (omega arith)

-- A payload that adds up its frames, and is a request once there are two of them.
abbrev pairs : Option ℕ → ℕ → Option ℕ × Option ℕ
pairs none f = (some f, none)
pairs (some p) f = (none, some (p + f))

abbrev nobody_asks : List (ReaderEvent ℕ ℕ)
nobody_asks = awaits_request (completes none) ∷ []

reader_run-left_example : (◌≡◌ {A = ReaderState (Option ℕ)} idle left) ⊎ Any Leaves nobody_asks
unfolding reader_run reader_step supervisor
reader_run-left_example = reader_run-left none pairs nobody_asks idle refl

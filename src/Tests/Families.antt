-- ===== src/Tests/Families.antt =====
-- Examples for the theorems on an actor and its children.
use mathlib.Core.List.{Perm}
use tokactor.Common.{ℕ, ◌≡◌, refl, List, [], ◌∷◌, Sublist, Flow, ok}
use tokactor.Tokio.Simple.{simple_laws}
use tokactor.Tokio.Recording.{Account, recording}
use tokactor.Context.{run_commands, subscribe_and_stop, stop_ctx}
use tokactor.Executor.{
  Executor, check_anonymous_actors, process_message, run_message, send, scheduler,
}
use tokactor.Executor.Awaits.{Event, ready, delivers, child_exits, wakes}
use tokactor.Executor.Loops.{run_actor, actor_turn, stopped_phase, stop, drain, take_sender}
use tokactor.Family.FanIn.{
  Nursery, Phase, serving, over, parent, begin_shutdown, advance, acts, tells, leaves, unwinds,
  comes_late, History, done, then_, first,
}
use tokactor.Executor.Calls.{Each, Calls}
use tokactor.Family.FanIn.Faithful.{NotAbort, History-hears_all}
use tokactor.Tests.{tk, counter, add, await_it}
use tokactor.Tests.Lives.{rtk, kept}

-- An actor with two children, one which is to report `add 5`, and one that panics, whose report `add 7`
-- comes after its receiver is gone.
abbrev mother : Executor ℕ ℕ (Account tk) ℕ ℕ
mother = record kept { context = record kept.context { notifier = 2 } }

abbrev events : List (Event ℕ)
events =
    delivers (add 5)
    ∷ child_exits
    ∷ child_exits
    ∷ delivers (add 7)
    ∷ delivers (await_it 9)
    ∷ wakes
    ∷ wakes
    ∷ wakes
    ∷ []

abbrev landed : Flow (Phase ℕ ℕ (Account tk) ℕ ℕ) → Phase ℕ ℕ (Account tk) ℕ ℕ
landed (ok q) = q
landed _ = serving mother

abbrev through : List (Event ℕ) → Phase ℕ ℕ (Account tk) ℕ ℕ → Phase ℕ ℕ (Account tk) ℕ ℕ
through [] q = q
through (e ∷ es) q = through es (landed (advance rtk counter q e))

abbrev mother_end : Executor ℕ ℕ (Account tk) ℕ ℕ
mother_end = parent (through events (serving mother))

abbrev all_heard : Nursery ℕ ℕ ℕ (Account tk) ℕ ℕ
all_heard = record {
  phase = over mother_end;
  unsaid = [];
  silent = 0;
  late = [];
  born = add 5 ∷ [];
  heard = add 5 ∷ [];
  lost = [];
}

life : History rtk counter (first rtk counter mother (add 5 ∷ []) 1) events all_heard
unfolding advance begin_shutdown actor_turn stopped_phase stop drain process_message run_message
    send scheduler run_commands subscribe_and_stop stop_ctx check_anonymous_actors recording
life = then_ (tells [] [] (add 5) _ refl refl refl refl) (
    then_ (leaves 1 _ refl refl) (
      then_ (unwinds (add 7) 0 _ refl refl) (
        then_ (comes_late [] [] (add 7) _ refl refl refl refl) (
          then_ (acts (delivers (await_it 9)) _ [] 0 refl refl refl tt) (
            then_ (acts wakes _ [] 0 refl refl refl tt) (
              then_ (acts wakes _ [] 0 refl refl refl tt)
                (then_ (acts wakes (over mother_end) [] 0 refl refl refl refl) done)))))))

counter-Calls : Calls NotAbort counter
unfolding Each
counter-Calls = record {
  pre_run = λ a. tt;
  post_run = λ a. tt;
  on_stopping = λ a. tt;
  handle = λ u a. tt;
  ask = λ u a. tt;
  async_ask = λ u a. tt;
}

History-hears_all_example :
    (run_actor rtk counter mother events ≡ ready (take_sender rtk counter mother_end) [])
    × Sublist (add 5 ∷ []) mother_end.context.mailbox.taken
    × Perm (add 5 ∷ []) (add 5 ∷ [])
unfolding run_commands recording
History-hears_all_example =
    History-hears_all tk counter simple_laws mother mother mother_end (add 5 ∷ []) 1 events
      all_heard counter-Calls refl refl refl life refl

-- ===== src/Examples/PingPong.antt =====
-- examples/ping-pong.rs: an actor that answers a ping by a pong and counts, and the program that asks it
-- with each of its answers. The prints are left out.
pub mod Playing
use tokactor.Common.{
  ℕ, zero, suc, ◌+◌, ◌<◌, ◌≤◌, ◌≡◌, refl, sym, ap, ◌∙◌, Bool, true, false, Option, none, some, List,
  [], ◌∷◌, ◌++◌, append_assoc, append-nil, length, ok, panicked, arith, ltb, if◌then◌else◌, ◌⊎◌,
  inl, inr, Bool-cases,
}
use tokactor.Tokio.{Tokio, TokioLaws}
use tokactor.Message.{SendMessage, running, now, into_inner}
use tokactor.Actor.{Actor, defaults, Command, AskResult, reply}
use tokactor.Context.{replies, emit, run_commands}
use tokactor.Address.{ask_message, shutdown_message}
use tokactor.Executor.{Executor, continue, break, process_message, run_message, send, scheduler}
use tokactor.Executor.Answers.{answers_in, answers_in-append}
use tokactor.Executor.Answering.{answered}
use tokactor.Executor.Awaits.{Event, delivers, wakes, Outcome, ready, panics, drive, and_then}
use tokactor.Executor.Loops.{
  next, actor_turn, with_mailbox, run_actor, shutdown_executor, take_sender,
}
use tokactor.Executor.Loops
use tokactor.Executor.Schedule.{drive_stay, drive_leave, drive_crash}
use tokactor.Executor.Shutdown.{taken}
use tokactor.Executor.Silent.{
  Silent, asked, process_await, to_drain, shutdown_silent, drain_nothing,
}
use tokactor.Executor.Awaiting.{Calm, turn_wakes}

pub data Msg : Type 0 where
  ping pong : Msg

abbrev pub next_of : Msg → Msg
next_of ping = pong
next_of pong = ping

-- `Ask<Msg>`, with `self.counter += 1` of a `u8`
unfoldable pub on_ask : Msg → ℕ → Option (ℕ × List Command × AskResult Msg)
on_ask message counter =
    if ltb (counter + 1) 256 then some (counter + 1, [], reply (next_of message)) else none

abbrev pub ping_pong : Actor ℕ Msg Msg
ping_pong = record defaults { ask = on_ask }

pub ping_pong-Silent : Silent ping_pong
ping_pong-Silent = record {
  on_start = λ a. refl;
  pre_run = λ a. refl;
  post_run = λ a. refl;
  on_stopping = λ a. refl;
  on_stopped = λ a. refl;
  on_end = λ a. refl;
}

-- `message = handle.ask(message).await`, so many times, each time with the answer of the last; the channel
-- of the first answer is given. Then the actor is awaited.
unfoldable pub program : ℕ → Msg → ℕ → List (Event Msg)
program zero message tx = delivers (shutdown_message true tx) ∷ wakes ∷ []
program (suc n) message tx =
    delivers (ask_message message tx) ∷ wakes ∷ program n (next_of message) (suc tx)

-- The answers, and the channel by which the actor comes back.
unfoldable pub answers : ℕ → Msg → ℕ → List (ℕ × Msg)
answers zero message tx = []
answers (suc n) message tx = (tx, next_of message) ∷ answers n (next_of message) (suc tx)

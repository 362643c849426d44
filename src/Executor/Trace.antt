-- ===== src/Executor/Trace.antt =====
-- src/actor.rs and src/executor.rs: the life cycle as an automaton, and an actor that notes the calls of
-- its callbacks and handlers.
use tokactor.Common.{ℕ, ◌≡◌, refl, sym, ap, ◌∙◌, Option, none, some, List, [], ◌∷◌, ◌⊎◌, inl, inr}
use tokactor.Tokio.{Tokio}
use tokactor.Message.{SendMessage}
use tokactor.Actor.{Actor, Command, AskResult, Raced}
use tokactor.Executor.{Executor}
use tokactor.Executor.Awaits.{Event, ready}
use tokactor.Executor.Loops.{run_actor, run_supervised_actor}
use tokactor.Executor.Stages.{Stage, serving, stopping, stopped, Stages}
use tokactor.Executor.Lifecycle.{run_actor-Over, run_supervised_actor-Over}

pub data Callback : Type 0 where
  on_start pre_run handler post_run on_stopping on_stopped on_end : Callback

pub data Phase : Type 0 where
  fresh : Phase
  idle : Stage → Phase
  busy : Stage → Phase
  done : Stage → Phase
  over : Phase

-- The life cycle that `Actor` documents.
unfoldable pub advance : Callback → Phase → Option Phase
advance on_start fresh = some (idle serving)
advance pre_run (idle s) = some (busy s)
advance handler (busy s) = some (done s)
advance post_run (busy s) = some (idle s)
advance post_run (done s) = some (idle s)
advance on_stopping (idle serving) = some (idle stopping)
advance on_stopped (idle stopping) = some (idle stopped)
advance on_end (idle stopped) = some over
advance c p = none

abbrev advanced : Callback → Option Phase → Option Phase
advanced c none = none
advanced c (some p) = advance c p

-- Where these calls lead, the last of them first.
unfoldable pub walked : List Callback → Option Phase
walked [] = some fresh
walked (c ∷ cs) = advanced c (walked cs)

walked-advance :
    (c : Callback) (cs : List Callback) (p q : Phase)
    → walked cs ≡ some p
    → advance c p ≡ some q
    → walked (c ∷ cs) ≡ some q
unfolding walked
walked-advance c cs p q e h = ap (advanced c) e ∙ h

module _ {A U R : Type 0} (act : Actor A U R) where
  abbrev pub Noting : Type 0
  Noting = A × List Callback

  abbrev noted :
      Callback → List Callback → Option (A × List Command) → Option (Noting × List Command)
  noted c cs none = none
  noted c cs (some (a, ks)) = some ((a, c ∷ cs), ks)

  abbrev noted_ask :
      List Callback
      → Option (A × List Command × AskResult R)
      → Option (Noting × List Command × AskResult R)
  noted_ask cs none = none
  noted_ask cs (some (a, ks, r)) = some ((a, handler ∷ cs), ks, r)

  abbrev noted_future : List Callback → Option (A × Raced R) → Option (Noting × Raced R)
  noted_future cs none = none
  noted_future cs (some (a, r)) = some ((a, cs), r)

  -- The actor, which notes each call.
  abbrev pub noting : Actor Noting U R
  noting = record {
    max_anonymous_actors = act.max_anonymous_actors;
    mailbox_size = act.mailbox_size;
    on_start = λ p. noted on_start p.1 (act.on_start p.0);
    pre_run = λ p. noted pre_run p.1 (act.pre_run p.0);
    post_run = λ p. noted post_run p.1 (act.post_run p.0);
    on_stopping = λ p. noted on_stopping p.1 (act.on_stopping p.0);
    on_stopped = λ p. noted on_stopped p.1 (act.on_stopped p.0);
    on_end = λ p. noted on_end p.1 (act.on_end p.0);
    handle = λ u p. noted handler p.1 (act.handle u p.0);
    ask = λ u p. noted_ask p.1 (act.ask u p.0);
    async_ask = λ u p. noted handler p.1 (act.async_ask u p.0);
    async_future = λ u p. noted_future p.1 (act.async_future u p.0);
    handler_scheduler = act.handler_scheduler;
    ask_scheduler = act.ask_scheduler;
    async_ask_scheduler = act.async_ask_scheduler;
  }

  -- The calls so far lead to this phase.
  abbrev In : Phase → Noting → Type 0
  In p a = walked a.1 ≡ some p

  noted-In :
      (c : Callback) (cs : List Callback) (r : Option (A × List Command)) (p q : Phase) (b : Noting)
      (ks : List Command)
      → walked cs ≡ some p
      → advance c p ≡ some q
      → noted c cs r ≡ some (b, ks)
      → In q b
  noted-In c cs none p q b ks e h n = cc
  noted-In c cs (some (a, k)) p q b ks e h n =
      let same : (a, c ∷ cs) ≡ b = cc n in
      ap (λ w. walked w.1) (sym same) ∙ walked-advance c cs p q e h

  noted_ask-In :
      (cs : List Callback) (r : Option (A × List Command × AskResult R)) (s : Stage) (b : Noting)
      (ks : List Command) (t : AskResult R)
      → walked cs ≡ some (busy s)
      → noted_ask cs r ≡ some (b, ks, t)
      → In (done s) b
  unfolding advance
  noted_ask-In cs none s b ks t e n = cc
  noted_ask-In cs (some (a, k, u)) s b ks t e n =
      let same : (a, handler ∷ cs) ≡ b = cc n in
      ap (λ w. walked w.1) (sym same) ∙ walked-advance handler cs (busy s) (done s) e refl

  noted_future-In :
      (cs : List Callback) (r : Option (A × Raced R)) (s : Stage) (b : Noting) (t : Raced R)
      → walked cs ≡ some (done s)
      → noted_future cs r ≡ some (b, t)
      → In (done s) b
  noted_future-In cs none s b t e n = cc
  noted_future-In cs (some (a, u)) s b t e n =
      let same : (a, cs) ≡ b = cc n in ap (λ w. walked w.1) (sym same) ∙ e

  noting-Stages :
      Stages noting (In fresh) (λ s. In (idle s)) (λ s. In (busy s)) (λ s. In (done s)) (In over)
  unfolding advance
  noting-Stages = record {
    on_start = λ a b ks e n. noted-In on_start a.1 _ fresh (idle serving) b ks e refl n;
    pre_run = λ s a b ks e n. noted-In pre_run a.1 _ (idle s) (busy s) b ks e refl n;
    handle = λ s u a b ks e n. noted-In handler a.1 _ (busy s) (done s) b ks e refl n;
    ask = λ s u a b ks r e n. noted_ask-In a.1 (act.ask u a.0) s b ks r e n;
    async_ask = λ s u a b ks e n. noted-In handler a.1 _ (busy s) (done s) b ks e refl n;
    async_future = λ s u a b r e n. noted_future-In a.1 (act.async_future u a.0) s b r e n;
    post_run = λ s a b ks e n. after_handler s a b ks e n;
    on_stopping =
        λ a b ks e n. noted-In on_stopping a.1 _ (idle serving) (idle stopping) b ks e refl n;
    on_stopped =
        λ a b ks e n. noted-In on_stopped a.1 _ (idle stopping) (idle stopped) b ks e refl n;
    on_end = λ a b ks e n. noted-In on_end a.1 _ (idle stopped) over b ks e refl n;
  }
    where
      after_handler :
          (s : Stage) (a b : Noting) (ks : List Command)
          → In (busy s) a ⊎ In (done s) a
          → noted post_run a.1 (act.post_run a.0) ≡ some (b, ks)
          → In (idle s) b
      after_handler s a b ks (inl e) n = noted-In post_run a.1 _ (busy s) (idle s) b ks e refl n
      after_handler s a b ks (inr e) n = noted-In post_run a.1 _ (done s) (idle s) b ks e refl n

module _ {A U R Chan W S : Type 0} (tk : Tokio (SendMessage U) Chan W S) (act : Actor A U R) where
  -- Whatever an actor does and whatever happens around it: when its run returns, the calls of its
  -- callbacks and handlers, noted from the start of the run on, are a word that the automaton of the
  -- life cycle accepts.
  pub run_actor-walked :
      (x y : Executor (Noting act) R Chan W S) (es rest : List (Event U))
      (sent : Option (ℕ × Noting act))
      → x.actor.1 ≡ []
      → run_actor tk (noting act) x es ≡ ready (y, sent) rest
      → walked y.actor.1 ≡ some over
  unfolding walked
  run_actor-walked x y es rest sent e h =
      run_actor-Over tk (noting act) _ _ _ _ _ (noting-Stages act) x es y sent rest (ap walked e) h

  -- Whatever a supervised actor does, its supervisor tells it and happens around it: when its run
  -- returns, the calls of its callbacks and handlers, noted from the start of the run on, are a word
  -- that the automaton of the life cycle accepts.
  pub run_supervised_actor-walked :
      (x y : Executor (Noting act) R Chan W S) (es rest : List (Event U))
      → x.actor.1 ≡ []
      → run_supervised_actor tk (noting act) x es ≡ ready y rest
      → walked y.actor.1 ≡ some over
  unfolding walked
  run_supervised_actor-walked x y es rest e h =
      run_supervised_actor-Over tk (noting act) _ _ _ _ _ (noting-Stages act) x es y rest
        (ap walked e) h

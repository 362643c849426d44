-- ===== src/Family/Counting.antt =====
-- src/context.rs and src/executor.rs: the notifier and the semaphore count the tasks that live.
use tokactor.Common.{
  ℕ, ◌+◌, ◌^◌, ◌≡◌, ◌≢◌, ◌↔◌, ◌≤◌, ◌<◌, refl, ap, sym, ◌∙◌, Bool, true, false, List, [], ◌∷◌, ◌++◌,
  length, length-append, ok, panicked, arith, if◌then◌else◌, ◌==◌,
}
use tokactor.Tokio.{Tokio, TokioLaws}
use tokactor.Message.{SendMessage}
use tokactor.Actor.{Actor, Command}
use tokactor.Context.{
  Ctx, Task, new, run_command, acquire_anonymous_permit, stop_ctx, abort_ctx, spawn_task,
  anonymous_ctx,
}
use tokactor.Executor.{check_anonymous_actors}
use tokactor.Executor.Anonymous.{asked, settle, running_tasks, check_anonymous_actors-settle}
use tokactor.Family.{
  Family, holds_permit, started, gives_back, unwatched, let_go, Step, calls, unwatches, returns,
  settles, Reach, start, next,
}

-- The permits that these tasks hold.
abbrev pub held : List Task → ℕ
held [] = 0
held (t ∷ ts) = (if holds_permit t then 1 else 0) + held ts

held-append : (ts us : List Task) → held (ts ++ us) ≡ held ts + held us
held-append [] us = omega arith
held-append (t ∷ ts) us = omega (arith, held-append ts us)

module _ {A U R Chan W S : Type 0} (tk : Tokio (SendMessage U) Chan W S) (act : Actor A U R)
    (laws : TokioLaws tk) where
  pub record Counted (f : Family R Chan W S) : Type 0 where
    pub receivers : tk.receivers f.context.notifier ≡ length f.watching
    pub permits :
        tk.available_permits f.context.max_anonymous_actors + held f.permitted
        ≡ act.max_anonymous_actors

  -- What a call does to the two counts.
  calls-counts :
      (k : Command) (c d : Ctx R Chan W S)
      → run_command tk k c ≡ ok d
      → (tk.receivers d.notifier ≡ tk.receivers c.notifier + length (started tk act k c))
        × (tk.available_permits d.max_anonymous_actors + held (started tk act k c)
            ≡ tk.available_permits c.max_anonymous_actors)
  unfolding run_command stop_ctx abort_ctx spawn_task anonymous_ctx acquire_anonymous_permit started
  calls-counts k c d h = ground (
    arith,
    laws.receivers-subscribe c.notifier,
    laws.try_acquire_none c.max_anonymous_actors,
    laws.try_acquire_some c.max_anonymous_actors,
    laws.permits-try_acquire c.max_anonymous_actors,
  )

  released :
      (holds : Bool) (s : S) (rest : ℕ)
      → tk.available_permits s + ((if holds then 1 else 0) + rest) ≡ act.max_anonymous_actors
      → tk.available_permits (let_go tk act holds s) + rest ≡ act.max_anonymous_actors
  released true s rest h = omega (arith, h, laws.permits-release s)
  released false s rest h = omega (arith, h)

  unwatches-Counted :
      (f : Family R Chan W S) (before after : List Task) (t : Task)
      → f.watching ≡ before ++ t ∷ after
      → Counted f
      → Counted (record f { context = unwatched tk act f.context; watching = before ++ after })
  unfolding unwatched
  unwatches-Counted f before after t e v =
      let many = ap length e ∙ length-append before (t ∷ after) in
      record {
        receivers = omega (
          arith,
          v.receivers,
          many,
          length-append before after,
          laws.receivers-drop f.context.notifier,
        );
        permits = v.permits;
      }

  returns-Counted :
      (f : Family R Chan W S) (before after : List Task) (t : Task)
      → f.permitted ≡ before ++ t ∷ after
      → Counted f
      → Counted (record f { context = gives_back tk act t f.context; permitted = before ++ after })
  unfolding gives_back
  returns-Counted f before after t e v =
      let with_it = ap held e ∙ held-append before (t ∷ after) in
      record {
        receivers = v.receivers;
        permits =
            ap
              (λ n.
                tk.available_permits (let_go tk act (holds_permit t) f.context.max_anonymous_actors)
                + n)
              (held-append before after)
            ∙ released (holds_permit t) f.context.max_anonymous_actors (held before + held after)
                (omega (arith, v.permits, with_it));
      }

  check-counts :
      (c d : Ctx R Chan W S)
      → asked tk act c ≤ tk.available_permits c.max_anonymous_actors
      → check_anonymous_actors tk act c ≡ ok d
      → tk.available_permits c.max_anonymous_actors ≤ act.max_anonymous_actors
      → running_tasks tk act c < 2 ^ 32
      → (tk.receivers d.notifier ≡ tk.receivers c.notifier)
        × (tk.available_permits d.max_anonymous_actors
            ≡ tk.available_permits c.max_anonymous_actors)
  check-counts c d now h few small =
      let settled = sym (check_anonymous_actors-settle tk act c few small) ∙ h in
      counts (c.overflow_anonymous_actors == 0) settled
    where
      counts :
          (b : Bool)
          → ok (if b then c else settle tk act c) ≡ ok d
          → (tk.receivers d.notifier ≡ tk.receivers c.notifier)
            × (tk.available_permits d.max_anonymous_actors
                ≡ tk.available_permits c.max_anonymous_actors)
      counts true e = ground (arith, e)
      counts false e =
          let same : settle tk act c ≡ d = cc e in
          (
            ap (λ x. tk.receivers x.notifier) (sym same),
            ap (λ x. tk.available_permits x.max_anonymous_actors) (sym same)
                ∙ laws.permits-acquire_many_now (asked tk act c) c.max_anonymous_actors now,
          )

  Step-Counted : {f g : Family R Chan W S} → Step tk act f g → Counted f → Counted g
  Step-Counted {f} (calls k d h) v =
      let (more, less) = calls-counts k f.context d h in
      record {
        receivers =
            omega (arith, v.receivers, more, length-append f.watching (started tk act k f.context));
        permits =
            omega (arith, v.permits, less, held-append f.permitted (started tk act k f.context));
      }
  Step-Counted {f} (unwatches before after t e) v = unwatches-Counted f before after t e v
  Step-Counted {f} (returns before after t e) v = returns-Counted f before after t e v
  Step-Counted {f} (settles d now small h) v =
      let few : tk.available_permits f.context.max_anonymous_actors ≤ act.max_anonymous_actors =
        omega (arith, v.permits) in
      let (same, kept) = check-counts f.context d now h few small in
      record { receivers = same ∙ v.receivers; permits = omega (arith, v.permits, kept) }

  Reach-Counted : {f : Family R Chan W S} → Reach tk act f → Counted f
  unfolding new
  Reach-Counted start = record {
    receivers = laws.receivers-watch;
    permits = omega (arith, laws.permits-semaphore act.max_anonymous_actors);
  }
  Reach-Counted (next r s) = Step-Counted s (Reach-Counted r)

  check-ne-panicked :
      (c : Ctx R Chan W S)
      → tk.available_permits c.max_anonymous_actors ≤ act.max_anonymous_actors
      → check_anonymous_actors tk act c ≢ panicked
  unfolding check_anonymous_actors
  check-ne-panicked c few = ground arith

  none_or_some : (ts : List Task) → (length ts ≡ 0) ↔ (ts ≡ [])
  none_or_some [] = (λ e. refl, λ e. refl)
  none_or_some (t ∷ ts) = (λ e. absurd (omega (arith, e)), λ e. cc)

  -- However an actor's calls, what its tasks let go of and its waits for permits follow one another, where
  -- a task may drop its receiver and its permit at different moments and in either order: the
  -- receivers of its notifier are as many as the tasks that have not dropped theirs, and the permits
  -- that are left and those that tasks hold make up `max_anonymous_actors`. So the check of its
  -- anonymous actors does not panic, and the actor has no children in the sense of its shutdown
  -- exactly when each task that it started has dropped its receiver; it may still hold its permit.
  pub Reach-safe :
      {f : Family R Chan W S}
      → Reach tk act f
      → Counted f
        × (check_anonymous_actors tk act f.context ≢ panicked)
        × ((tk.receivers f.context.notifier ≡ 0) ↔ (f.watching ≡ []))
  Reach-safe {f} r =
      let v = Reach-Counted r in
      let (there, back) = none_or_some f.watching in
      (
        v,
        check-ne-panicked f.context (omega (arith, v.permits)),
        (λ e. there (sym v.receivers ∙ e), λ e. v.receivers ∙ back e),
      )

-- ===== src/Family/FanIn/Parent.antt =====
-- src/executor.rs: the phases of an actor beside its children are those of `run_actor`, and it reaches
-- its end only when no task watches it.
use tokactor.Common.{ℕ, ◌≡◌, refl, ap, ◌∙◌, List, [], ◌∷◌, ok, >>=-eq-ok, inl, inr, Bool-cases}
use tokactor.Tokio.{Tokio, TokioLaws}
use tokactor.Message.{SendMessage, stopping}
use tokactor.Actor.{Actor}
use tokactor.Executor.{Executor, react}
use tokactor.Executor.Awaits.{
  Event, delivers, child_exits, Turn, stay, leave, crash, hang, Outcome, ready, drive, lift,
  and_then,
}
use tokactor.Executor.Loops.{
  actor_turn, stopping_turn, with_mailbox, with_state, has_children, told, stopped_phase,
  stopping_loop, await_children, shutdown_executor,
}
use tokactor.Executor.Schedule.{and_then_assoc, drive_stay, drive_leave}
use tokactor.Family.FanIn.{
  Phase, serving, awaiting, over, finish, linger, begin_shutdown, after_turn, after_wait, advance,
  Nursery, Step, acts, tells, fails, leaves, unwinds, comes_late, History, done, then_,
}

module _ {A U R Chan W S : Type 0} (tk : Tokio (SendMessage U) Chan W S) (act : Actor A U R)
    (laws : TokioLaws tk) where
  -- What the code comes to from a phase on, along a schedule.
  abbrev pub rest_of : Phase A R Chan W S → List (Event U) → Outcome U (Executor A R Chan W S)
  rest_of (serving x) es = and_then (drive (actor_turn tk act) x es) (shutdown_executor tk act)
  rest_of (awaiting p) es =
      and_then (drive (stopping_turn tk act) p es) λ q rest. lift (stopped_phase tk act q.1) rest
  rest_of (over x) es = ready x es

  finished :
      (w : Executor A R Chan W S) (es : List (Event U)) (q : Phase A R Chan W S)
      → finish tk act w ≡ ok q
      → lift (stopped_phase tk act w) es ≡ rest_of q es
  finished w es q h =
      let (y, ran, made) = >>=-eq-ok (stopped_phase tk act w) _ h in
      let same : over y ≡ q = cc made in rw ran (ap (λ p. rest_of p es) same)

  lingered :
      (z : Executor A R Chan W S) (es : List (Event U)) (q : Phase A R Chan W S)
      → linger tk act z ≡ ok q
      → and_then (stopping_loop tk act z es) (λ w later. lift (stopped_phase tk act w) later)
        ≡ rest_of q es
  unfolding stopping_loop await_children
  lingered z es q h = elim (Bool-cases (has_children tk act z)) [
    | inl waits_ ↦
        let same : awaiting (0, told tk act z) ≡ q = cc (rw waits_ at h) in
        rw waits_ (
          and_then_assoc (drive (stopping_turn tk act) (0, told tk act z) es)
            (λ p rest. ready p.1 rest) (λ w later. lift (stopped_phase tk act w) later))
        ∙ ap (λ p. rest_of p es) same
    | inr alone ↦
        rw alone
          (finished (with_mailbox tk act (tk.close z.context.mailbox) z) es q (rw alone at h))
  ]

  begun :
      (x : Executor A R Chan W S) (es : List (Event U)) (q : Phase A R Chan W S)
      → begin_shutdown tk act x ≡ ok q
      → shutdown_executor tk act x es ≡ rest_of q es
  unfolding begin_shutdown shutdown_executor
  begun x es q h =
      let y = with_state tk act stopping x in
      let (z, ran, made) = >>=-eq-ok (react tk act (act.on_stopping y.actor) y) _ h in
      rw ran (lingered z es q made)

  -- One event of a phase is one event of the code.
  follows :
      (p q : Phase A R Chan W S) (e : Event U) (es : List (Event U))
      → advance tk act p e ≡ ok q
      → rest_of p (e ∷ es) ≡ rest_of q es
  unfolding advance
  follows (serving x) q e es h = turned (actor_turn tk act x e) refl h
    where
      turned :
          (t : Turn (Executor A R Chan W S))
          → actor_turn tk act x e ≡ t
          → after_turn tk act t ≡ ok q
          → rest_of (serving x) (e ∷ es) ≡ rest_of q es
      turned (stay y) g h =
          let same : serving y ≡ q = cc h in
          ap (λ o. and_then o (shutdown_executor tk act)) (drive_stay (actor_turn tk act) x e es g)
          ∙ ap (λ p. rest_of p es) same
      turned (leave y) g h =
          ap (λ o. and_then o (shutdown_executor tk act)) (drive_leave (actor_turn tk act) x e es g)
          ∙ begun y es q h
      turned crash g h = cc h
      turned hang g h = cc h
  follows (awaiting p) q e es h = turned (stopping_turn tk act p e) refl h
    where
      turned :
          (t : Turn (ℕ × Executor A R Chan W S))
          → stopping_turn tk act p e ≡ t
          → after_wait tk act t ≡ ok q
          → rest_of (awaiting p) (e ∷ es) ≡ rest_of q es
      turned (stay y) g h =
          let same : awaiting y ≡ q = cc h in
          ap (λ o. and_then o λ r rest. lift (stopped_phase tk act r.1) rest)
            (drive_stay (stopping_turn tk act) p e es g)
          ∙ ap (λ r. rest_of r es) same
      turned (leave (n, y)) g h =
          ap (λ o. and_then o λ r rest. lift (stopped_phase tk act r.1) rest)
            (drive_leave (stopping_turn tk act) p e es g)
          ∙ finished y es q h
      turned crash g h = cc h
      turned hang g h = cc h
  follows (over x) q e es h = cc h

  abbrev Tended : Type 0
  Tended = Nursery A U R Chan W S

  Step-follows :
      {f g : Tended} {e : Event U}
      → Step tk act f e g
      → (es : List (Event U)) → rest_of f.phase (e ∷ es) ≡ rest_of g.phase es
  Step-follows {f} (acts e q ms k own went grown rears) es = follows f.phase q e es went
  Step-follows {f} (tells before after m q e open_ room went) es =
      follows f.phase q (delivers m) es went
  Step-follows {f} (fails before after m q e shut went) es = follows f.phase q child_exits es went
  Step-follows {f} (leaves k q e went) es = follows f.phase q child_exits es went
  Step-follows {f} (unwinds m k q e went) es = follows f.phase q child_exits es went
  Step-follows {f} (comes_late before after m q e open_ room went) es =
      follows f.phase q (delivers m) es went

  -- Along every path of the whole, the actor's code does what its phases say.
  pub History-follows :
      {f g : Tended} {es : List (Event U)}
      → History tk act f es g
      → rest_of f.phase es ≡ rest_of g.phase []
  History-follows done = refl
  History-follows (then_ {es = es} s p) = Step-follows s es ∙ History-follows p

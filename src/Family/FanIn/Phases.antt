-- ===== src/Family/FanIn/Phases.antt =====
-- src/executor.rs: what the steps of the loops keep up, every event keeps up in every phase.
use tokactor.Common.{ℕ, ◌≡◌, subst, ok, >>=-eq-ok, inl, inr, Bool-cases}
use tokactor.Tokio.{Tokio}
use tokactor.Message.{SendMessage, stopping}
use tokactor.Actor.{Actor}
use tokactor.Executor.{Executor, react}
use tokactor.Executor.Awaits.{Event, Turn, stay, leave, crash, hang}
use tokactor.Executor.Loops.{
  actor_turn, stopping_turn, with_mailbox, with_state, has_children, told, stopped_phase,
}
use tokactor.Executor.Turns.{To}
use tokactor.Executor.Throughout.{Steps, Goes, actor_turn-P, stopping_turn-Goes}
use tokactor.Executor.Throughout.Life.{stopped_phase-P}
use tokactor.Family.FanIn.{
  Phase, serving, awaiting, over, parent, finish, begin_shutdown, after_turn, after_wait, advance,
}

module _ {A U R Chan W S : Type 0} (tk : Tokio (SendMessage U) Chan W S) (act : Actor A U R)
    (P : Executor A R Chan W S → Type 0) (st : Steps tk act P) where
  abbrev ParentP : Phase A R Chan W S → Type 0
  ParentP q = P (parent q)

  finish-P :
      (x : Executor A R Chan W S) (q : Phase A R Chan W S)
      → P x
      → finish tk act x ≡ ok q
      → ParentP q
  finish-P x q p h =
      let (y, ran, made) = >>=-eq-ok (stopped_phase tk act x) (λ y. ok (over y)) h in
      let same : over y ≡ q = cc made in subst ParentP same (stopped_phase-P tk act P st x y p ran)

  begin-P :
      (x : Executor A R Chan W S) (q : Phase A R Chan W S)
      → P x
      → begin_shutdown tk act x ≡ ok q
      → ParentP q
  unfolding begin_shutdown
  begin-P x q p h =
      let y = with_state tk act stopping x in
      let (z, ran, made) = >>=-eq-ok (react tk act (act.on_stopping y.actor) y) _ h in
      let r = st.on_stopping y z (st.sets x stopping p) ran in
      elim (Bool-cases (has_children tk act z)) [
        | inl some_left ↦
            let same : awaiting (0, told tk act z) ≡ q = cc (rw some_left at made) in
            subst ParentP same (st.tells z r)
        | inr alone ↦
            finish-P (with_mailbox tk act (tk.close z.context.mailbox) z) q (st.closes z r)
              (rw alone at made)
      ]

  pub advance-P :
      (p q : Phase A R Chan W S) (e : Event U)
      → P (parent p)
      → advance tk act p e ≡ ok q
      → P (parent q)
  unfolding advance
  advance-P (serving x) q e p h =
      turned (actor_turn tk act x e) (actor_turn-P tk act P st.rounds x e p) h
    where
      turned : (t : Turn (Executor A R Chan W S)) → To P t → after_turn tk act t ≡ ok q → ParentP q
      turned (stay y) p h = let same : serving y ≡ q = cc h in subst ParentP same p
      turned (leave y) p h = begin-P y q p h
      turned crash p h = cc h
      turned hang p h = cc h
  advance-P (awaiting (n, x)) q e p h =
      turned (stopping_turn tk act (n, x) e)
        (stopping_turn-Goes tk act P P st.rounds st.closes n x e p) h
    where
      turned :
          (t : Turn (ℕ × Executor A R Chan W S))
          → Goes tk act P P st.rounds st.closes t
          → after_wait tk act t ≡ ok q
          → ParentP q
      turned (stay r) p h = let same : awaiting r ≡ q = cc h in subst ParentP same p
      turned (leave (m, y)) p h = finish-P y q p h
      turned crash p h = cc h
      turned hang p h = cc h
  advance-P (over x) q e p h = cc h

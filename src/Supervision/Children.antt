-- ===== src/Supervision/Children.antt =====
-- src/context.rs, `spawn_with`: the task around a child as a whole, the child's run included.
pub mod Replayed
use tokactor.Common.{
  ℕ, ◌≡◌, ◌≢◌, ◌<◌, refl, ◌∙◌, Bool, true, false, Option, none, some, List, [], ◌∷◌, ◌++◌, length,
  Flow, ok, blocked, ◌>>=◌, arith, ◌⊎◌, inl, inr,
}
use tokactor.Tokio.{Tokio, TokioLaws}
use tokactor.Tokio.Room.{has_room}
use tokactor.Message.{SendMessage, envelope, enclose, ChildError, IntoFutureSender, into_inner}
use tokactor.Address.{Reply, fine, failed}
use tokactor.Actor.{Actor}
use tokactor.Executor.{Executor}
use tokactor.Executor.Awaits.{Event, Outcome, ready, pending, panics, hangs}
use tokactor.Executor.Loops.{run_supervised_actor}
use tokactor.Executor.Ending.{Ended}
use tokactor.Executor.Supervised.{run_supervised_actor-Ended}
use tokactor.Supervision.{JoinResult, completed, join_paniced, DeadActor, dead, supervise}
use tokactor.Supervision.Reports.{enqueue, told, outcome, reached, news, supervise_lem}

module _ {A V R Chan W S U Box X T E : Type 0} (tkc : Tokio (SendMessage V) Chan W S)
    (act : Actor A V R) (tk : Tokio (SendMessage U) Box X T)
    (wrap : Reply (DeadActor A R Chan W S) (ChildError E) → U) where
  -- What joining the inner task gives; `e` is what it panics with.
  abbrev join_of : E → Outcome V (Executor A R Chan W S) → Flow (JoinResult A R Chan W S E)
  join_of e (ready y rest) = ok (completed y)
  join_of e panics = ok (join_paniced e)
  join_of e pending = blocked
  join_of e hangs = blocked

  -- The task that `spawn_with` starts; `c` is the supervisor's mailbox when it reports.
  unfoldable pub child_task :
      Bool → E → Executor A R Chan W S → List (Event V) → Box → Flow (Option (ℕ × A) × Box)
  unfolding run_supervised_actor supervise
  child_task alive e x es c =
      join_of e (run_supervised_actor tkc act x es) >>= λ j. supervise tk wrap alive j c

  -- What becomes of the news of a child's end, by what its run came to and by whether the one who awaits
  -- it, if anybody does, is there; `P` holds of the executor of a child that ended properly.
  pub data Told (P : Executor A R Chan W S → Type 0) (alive : Bool) (e : E) (c : Box)
      : Outcome V (Executor A R Chan W S) → Option (ℕ × A) × Box → Type 0 where
    handed :
        (y : Executor A R Chan W S) (rest : List (Event V)) (tx : IntoFutureSender)
        → P y
        → alive ≡ true
        → y.context.into_future_sender ≡ some tx
        → Told P alive e c (ready y rest) (some (into_inner tx, y.actor), c)
    reported :
        (y : Executor A R Chan W S) (rest : List (Event V)) (d : Box)
        → P y
        → (alive ≡ false) ⊎ (y.context.into_future_sender ≡ none)
        → tk.queue d ≡ tk.queue c ++ envelope (enclose (wrap (fine (dead tk wrap y)))) ∷ []
        → Told P alive e c (ready y rest) (none, d)
    paniced :
        (d : Box)
        → tk.queue d ≡ tk.queue c ++ envelope (enclose (wrap (failed (ChildError.panic e)))) ∷ []
        → Told P alive e c panics (none, d)

  module _ (laws : TokioLaws tk) where
    heard :
        (j : JoinResult A R Chan W S E) (c : Box)
        → tk.is_closed c ≡ false
        → length (tk.queue c) < tk.capacity c
        → told tk wrap laws j c ≡ ok (none, enqueue tk wrap laws (wrap (news tk wrap laws j)) c)
    heard j c open_ room = let fits : has_room tk c ≡ true = ground arith in rw (open_, fits) refl

    module _ (P : Executor A R Chan W S → Type 0) where
      reported-Told :
          (alive : Bool) (e : E) (y : Executor A R Chan W S) (rest : List (Event V)) (c : Box)
          → tk.is_closed c ≡ false
          → length (tk.queue c) < tk.capacity c
          → P y
          → (alive ≡ false) ⊎ (y.context.into_future_sender ≡ none)
          → (p : Option (ℕ × A) × Box) × (told tk wrap laws (completed y) c ≡ ok p)
            × Told P alive e c (ready y rest) p
      reported-Told alive e y rest c open_ room v nobody = (
        _,
        heard (completed y) c open_ room,
        reported y rest _ v nobody (laws.queue-try_send _ c open_ room),
      )

      completed-Told :
          (alive : Bool) (e : E) (y : Executor A R Chan W S) (rest : List (Event V)) (c : Box)
          (s : Option IntoFutureSender)
          → y.context.into_future_sender ≡ s
          → tk.is_closed c ≡ false
          → length (tk.queue c) < tk.capacity c
          → P y
          → (p : Option (ℕ × A) × Box) × (outcome tk wrap laws
                (reached tk wrap laws s alive y.actor)
                (completed y)
                c
              ≡ ok p)
            × Told P alive e c (ready y rest) p
      completed-Told alive e y rest c none w open_ room v =
          reported-Told alive e y rest c open_ room v (inr w)
      completed-Told true e y rest c (some tx) w open_ room v = (_, refl, handed y rest tx v refl w)
      completed-Told false e y rest c (some tx) w open_ room v =
          reported-Told false e y rest c open_ room v (inl refl)

      pub ended-Told :
          (alive : Bool) (e : E) (x : Executor A R Chan W S) (es : List (Event V)) (c : Box)
          (o : Outcome V (Executor A R Chan W S))
          → ((y : Executor A R Chan W S) (rest : List (Event V))
              → run_supervised_actor tkc act x es ≡ ready y rest
              → P y)
          → run_supervised_actor tkc act x es ≡ o
          → o ≢ pending
          → o ≢ hangs
          → tk.is_closed c ≡ false
          → length (tk.queue c) < tk.capacity c
          → (p : Option (ℕ × A) × Box) × ((join_of e o >>= λ j. supervise tk wrap alive j c) ≡ ok p)
            × Told P alive e c o p
      ended-Told alive e x es c (ready y rest) holds ran over there open_ room =
          let v = holds y rest ran in
          let (p, went, t) =
            completed-Told alive e y rest c y.context.into_future_sender refl open_ room v in
          (p, supervise_lem tk wrap laws alive (completed y) c ∙ went, t)
      ended-Told alive e x es c panics holds ran over there open_ room = (
        _,
        supervise_lem tk wrap laws alive (join_paniced e) c ∙ heard (join_paniced e) c open_ room,
        paniced _ (laws.queue-try_send _ c open_ room),
      )
      ended-Told alive e x es c pending holds ran over there open_ room = absurd (over refl)
      ended-Told alive e x es c hangs holds ran over there open_ room = absurd (there refl)

    -- Whatever happens to a child while it runs: once its task is over, and if its supervisor's mailbox
    -- is open and has room, its end is told exactly once. If the child's run returned, the child
    -- has ended properly, and the actor of that run goes to the one who awaits it if there is one who is
    -- still there, and otherwise with its context as a `DeadActor` to the end of the supervisor's
    -- mailbox; if the run panicked, the panic goes there.
    pub child_task-Told :
        (lawsc : TokioLaws tkc) (alive : Bool) (e : E) (x : Executor A R Chan W S)
        (es : List (Event V)) (c : Box)
        → run_supervised_actor tkc act x es ≢ pending
        → run_supervised_actor tkc act x es ≢ hangs
        → tk.is_closed c ≡ false
        → length (tk.queue c) < tk.capacity c
        → (p : Option (ℕ × A) × Box) × (child_task alive e x es c ≡ ok p)
          × Told (λ y. Ended tkc y.context) alive e c (run_supervised_actor tkc act x es) p
    unfolding child_task
    child_task-Told lawsc alive e x es c over there open_ room =
        ended-Told (λ y. Ended tkc y.context) alive e x es c (run_supervised_actor tkc act x es)
          (λ y rest ran. run_supervised_actor-Ended tkc act lawsc x es y rest ran) refl over there
          open_ room

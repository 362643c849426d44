-- ===== src/Tokio/Recording/Accepted.antt =====
-- What the operations of a mailbox do to the account of what it accepted.
use tokactor.Common.{◌≡◌, refl, sym, ap, ◌∙◌, some, subst, Bool, true, false, List, [], ◌∷◌, ◌++◌}
use tokactor.Tokio.{Tokio, TokioLaws}
use tokactor.Tokio.Room.{has_room}
use tokactor.Tokio.Recording.{Account, put, pull, entered, left, recording}

module _ {M Chan W S : Type 0} (t : Tokio M Chan W S) (laws : TokioLaws t) where
  put-entered :
      (m : M) (a : Account t) (b r : Bool) (e : t.is_closed a.chan ≡ b) (f : has_room t a.chan ≡ r)
      → b ≡ false
      → r ≡ true
      → (put t laws m a b r e f).1.accepted ≡ a.accepted ++ m ∷ []
  unfolding put entered
  put-entered m a true r e f h k = cc
  put-entered m a false false e f h k = cc
  put-entered m a false true e f h k = refl

  put-accepted :
      (Q : List M → Type 0) (m : M) (a : Account t) (b r : Bool) (e : t.is_closed a.chan ≡ b)
      (f : has_room t a.chan ≡ r)
      → ((ms : List M) → Q ms → Q (ms ++ m ∷ []))
      → Q a.accepted
      → Q (put t laws m a b r e f).1.accepted
  unfolding put entered
  put-accepted Q m a true r e f k q = q
  put-accepted Q m a false false e f k q = q
  put-accepted Q m a false true e f k q = k a.accepted q

  pull-accepted :
      (a : Account t) (q : List M) (e : t.queue a.chan ≡ q)
      → (pull t laws a q e).1.accepted ≡ a.accepted
  unfolding pull left
  pull-accepted a [] e = refl
  pull-accepted a (m ∷ ms) e = refl

  -- A message that is sent to an open mailbox with room is accepted last.
  pub accepted-try_send :
      (m : M) (a : Account t)
      → t.is_closed a.chan ≡ false
      → has_room t a.chan ≡ true
      → ((recording t laws).try_send m a).1.accepted ≡ a.accepted ++ m ∷ []
  unfolding recording
  accepted-try_send m a h k = put-entered m a _ _ refl refl h k

  pub accepted-try_recv : (a : Account t) → ((recording t laws).try_recv a).1.accepted ≡ a.accepted
  unfolding recording
  accepted-try_recv a = pull-accepted a _ refl

  pub accepted-close : (a : Account t) → ((recording t laws).close a).accepted ≡ a.accepted
  unfolding recording
  accepted-close a = refl

  -- What appending keeps up of the accepted messages, every operation does.
  module _ (Q : List M → Type 0) (grows : (m : M) (ms : List M) → Q ms → Q (ms ++ m ∷ [])) where
    pub try_send-accepted :
        (m : M) (a : Account t) → Q a.accepted → Q ((recording t laws).try_send m a).1.accepted
    unfolding recording
    try_send-accepted m a q = put-accepted Q m a _ _ refl refl (grows m) q

    pub try_recv-accepted :
        (a : Account t) → Q a.accepted → Q ((recording t laws).try_recv a).1.accepted
    unfolding recording
    try_recv-accepted a q = subst Q (sym (pull-accepted a _ refl)) q

    pub close-accepted : (a : Account t) → Q a.accepted → Q ((recording t laws).close a).accepted
    unfolding recording
    close-accepted a q = q

  put-taken :
      (m : M) (a : Account t) (b r : Bool) (e : t.is_closed a.chan ≡ b) (f : has_room t a.chan ≡ r)
      → (put t laws m a b r e f).1.taken ≡ a.taken
  unfolding put entered
  put-taken m a true r e f = refl
  put-taken m a false false e f = refl
  put-taken m a false true e f = refl

  pull-taken :
      (a : Account t) (q : List M) (e : t.queue a.chan ≡ q) (m : M) (c : Account t)
      → pull t laws a q e ≡ (some m, c)
      → c.taken ≡ a.taken ++ m ∷ []
  unfolding pull left
  pull-taken a [] e m c h = cc h
  pull-taken a (n ∷ ns) e m c h =
      let first : n ≡ m = cc (ap (λ p. p.0) h) in
      let second : left t laws n ns a e ≡ c = ap (λ p. p.1) h in
      ap (λ (d : Account t). d.taken) (sym second) ∙ ap (λ k. a.taken ++ k ∷ []) first

  pub try_send-taken : (m : M) (a : Account t) → ((recording t laws).try_send m a).1.taken ≡ a.taken
  unfolding recording
  try_send-taken m a = put-taken m a _ _ refl refl

  pub close-taken : (a : Account t) → ((recording t laws).close a).taken ≡ a.taken
  unfolding recording
  close-taken a = refl

  pub try_recv-taken :
      (a : Account t) (m : M) (c : Account t)
      → (recording t laws).try_recv a ≡ (some m, c)
      → c.taken ≡ a.taken ++ m ∷ []
  unfolding recording
  try_recv-taken a m c h = pull-taken a _ refl m c h

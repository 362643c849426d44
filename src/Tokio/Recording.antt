-- ===== src/Tokio/Recording.antt =====
-- A mailbox that keeps account of what it accepted and what was taken out of it. It wraps any value of
-- the tokio interface that meets the laws, and meets them itself.
pub mod Accepted
use tokactor.Common.{
  ℕ, ◌≡◌, ◌<◌, refl, sym, ap, ◌∙◌, Bool, true, false, Option, none, some, List, [], ◌∷◌, ◌++◌,
  append_assoc, length, arith,
}
use tokactor.Tokio.Room.{has_room}
use tokactor.Tokio.{TrySend, sent, full, closed, Tokio, TokioLaws}

module _ {M Chan W S : Type 0} (t : Tokio M Chan W S) where
  pub record Account : Type 0 where
    pub chan : Chan
    pub accepted : List M
    pub taken : List M
    pub balance : accepted ≡ taken ++ t.queue chan

module _ {M Chan W S : Type 0} (t : Tokio M Chan W S) (laws : TokioLaws t) where
  abbrev opened : ℕ → Account t
  opened n = record {
    chan = t.channel n;
    accepted = [];
    taken = [];
    balance = sym (laws.queue-channel n);
  }

  pub has_room-lt : (c : Chan) → has_room t c ≡ true → length (t.queue c) < t.capacity c
  has_room-lt c e = ground arith

  -- The account after a message was accepted, and after one was taken.
  entered :
      (m : M) (a : Account t) → t.is_closed a.chan ≡ false → has_room t a.chan ≡ true → Account t
  entered m a e r = record {
    chan = (t.try_send m a.chan).1;
    accepted = a.accepted ++ m ∷ [];
    taken = a.taken;
    balance =
        ap (λ l. l ++ m ∷ []) a.balance
        ∙ append_assoc a.taken (t.queue a.chan) (m ∷ [])
        ∙ ap (λ q. a.taken ++ q) (sym (laws.queue-try_send m a.chan e (has_room-lt a.chan r)));
  }

  left : (m : M) (ms : List M) (a : Account t) → t.queue a.chan ≡ m ∷ ms → Account t
  left m ms a e = record {
    chan = (t.try_recv a.chan).1;
    accepted = a.accepted;
    taken = a.taken ++ m ∷ [];
    balance =
        a.balance
        ∙ ap (λ q. a.taken ++ q) e
        ∙ sym (append_assoc a.taken (m ∷ []) ms)
        ∙ ap (λ q. (a.taken ++ m ∷ []) ++ q) (sym (laws.queue-try_recv a.chan m ms e));
  }

  put :
      (m : M) (a : Account t) (b r : Bool)
      → t.is_closed a.chan ≡ b
      → has_room t a.chan ≡ r
      → TrySend M × Account t
  put m a true r e f = (closed m, a)
  put m a false false e f = (full m, a)
  put m a false true e f = (sent, entered m a e f)

  pull : (a : Account t) (q : List M) → t.queue a.chan ≡ q → Option M × Account t
  pull a [] e = (none, a)
  pull a (m ∷ ms) e = (some m, left m ms a e)

  abbrev shut : Account t → Account t
  shut a = record {
    chan = t.close a.chan;
    accepted = a.accepted;
    taken = a.taken;
    balance = a.balance ∙ ap (λ q. a.taken ++ q) (sym (laws.queue-close a.chan));
  }

  unfoldable pub recording : Tokio M (Account t) W S
  unfolding put pull entered left
  recording = record {
    channel = opened;
    queue = λ a. t.queue a.chan;
    capacity = λ a. t.capacity a.chan;
    is_closed = λ a. t.is_closed a.chan;
    try_send = λ m a. put m a (t.is_closed a.chan) (has_room t a.chan) refl refl;
    try_recv = λ a. pull a (t.queue a.chan) refl;
    close = shut;
    watch = t.watch;
    receivers = t.receivers;
    subscribe = t.subscribe;
    drop_receiver = t.drop_receiver;
    notify = t.notify;
    semaphore = t.semaphore;
    available_permits = t.available_permits;
    try_acquire = t.try_acquire;
    release = t.release;
    acquire_many = t.acquire_many;
  }

  put-closed :
      (m : M) (a : Account t) (b r : Bool) (e : t.is_closed a.chan ≡ b) (f : has_room t a.chan ≡ r)
      → b ≡ true
      → put m a b r e f ≡ (closed m, a)
  unfolding put
  put-closed m a true r e f h = refl
  put-closed m a false r e f h = cc

  put-full :
      (m : M) (a : Account t) (b r : Bool) (e : t.is_closed a.chan ≡ b) (f : has_room t a.chan ≡ r)
      → b ≡ false
      → r ≡ false
      → put m a b r e f ≡ (full m, a)
  unfolding put
  put-full m a true r e f h k = cc
  put-full m a false false e f h k = refl
  put-full m a false true e f h k = cc

  put-sent :
      (m : M) (a : Account t) (b r : Bool) (e : t.is_closed a.chan ≡ b) (f : has_room t a.chan ≡ r)
      → b ≡ false
      → r ≡ true
      → ((put m a b r e f).0 ≡ sent) × ((put m a b r e f).1.chan ≡ (t.try_send m a.chan).1)
  unfolding put entered
  put-sent m a true r e f h k = cc
  put-sent m a false false e f h k = cc
  put-sent m a false true e f h k = (refl, refl)

  put_keeps :
      (m : M) (a : Account t) (b r : Bool) (e : t.is_closed a.chan ≡ b) (f : has_room t a.chan ≡ r)
      → (t.capacity (put m a b r e f).1.chan ≡ t.capacity a.chan)
        × (t.is_closed (put m a b r e f).1.chan ≡ t.is_closed a.chan)
  unfolding put entered
  put_keeps m a true r e f = (refl, refl)
  put_keeps m a false false e f = (refl, refl)
  put_keeps m a false true e f = (laws.capacity-try_send m a.chan, laws.is_closed-try_send m a.chan)

  pull-none :
      (a : Account t) (q : List M) (e : t.queue a.chan ≡ q) → q ≡ [] → pull a q e ≡ (none, a)
  unfolding pull
  pull-none a [] e h = refl
  pull-none a (m ∷ ms) e h = cc

  pull-some :
      (a : Account t) (q : List M) (e : t.queue a.chan ≡ q) (m : M) (ms : List M)
      → q ≡ m ∷ ms
      → ((pull a q e).0 ≡ some m) × (t.queue (pull a q e).1.chan ≡ ms)
  unfolding pull left
  pull-some a [] e m ms h = cc
  pull-some a (n ∷ ns) e m ms h =
      let first : n ≡ m = cc in
      let rest : ns ≡ ms = cc in (ap some first, laws.queue-try_recv a.chan n ns e ∙ rest)

  pull_keeps :
      (a : Account t) (q : List M) (e : t.queue a.chan ≡ q)
      → (t.capacity (pull a q e).1.chan ≡ t.capacity a.chan)
        × (t.is_closed (pull a q e).1.chan ≡ t.is_closed a.chan)
  unfolding pull left
  pull_keeps a [] e = (refl, refl)
  pull_keeps a (m ∷ ms) e = (laws.capacity-try_recv a.chan, laws.is_closed-try_recv a.chan)

  pub recording_laws : TokioLaws recording
  unfolding recording
  recording_laws = record {
    queue-channel = λ n. laws.queue-channel n;
    capacity-channel = λ n. laws.capacity-channel n;
    is_closed-channel = λ n. laws.is_closed-channel n;
    try_send_closed = λ m a h. put-closed m a _ _ refl refl h;
    try_send_full = λ m a h k. put-full m a _ _ refl refl h (ground (arith, k));
    try_send_sent = λ m a h k. (put-sent m a _ _ refl refl h (ground (arith, k))).0;
    queue-try_send = λ m a h k.
        ap t.queue (put-sent m a _ _ refl refl h (ground (arith, k))).1
        ∙ laws.queue-try_send m a.chan h k;
    capacity-try_send = λ m a. (put_keeps m a _ _ refl refl).0;
    is_closed-try_send = λ m a. (put_keeps m a _ _ refl refl).1;
    try_recv_none = λ a h. pull-none a _ refl h;
    try_recv_some = λ a m ms h. (pull-some a _ refl m ms h).0;
    queue-try_recv = λ a m ms h. (pull-some a _ refl m ms h).1;
    is_closed-try_recv = λ a. (pull_keeps a _ refl).1;
    capacity-try_recv = λ a. (pull_keeps a _ refl).0;
    queue-close = λ a. laws.queue-close a.chan;
    is_closed-close = λ a. laws.is_closed-close a.chan;
    receivers-watch = laws.receivers-watch;
    receivers-subscribe = laws.receivers-subscribe;
    receivers-drop = laws.receivers-drop;
    receivers-notify = laws.receivers-notify;
    permits-semaphore = laws.permits-semaphore;
    try_acquire_none = laws.try_acquire_none;
    try_acquire_some = laws.try_acquire_some;
    permits-try_acquire = laws.permits-try_acquire;
    permits-release = laws.permits-release;
    permits-acquire_many = laws.permits-acquire_many;
    permits-acquire_many_now = laws.permits-acquire_many_now;
  }

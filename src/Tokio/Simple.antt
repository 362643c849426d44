-- ===== src/Tokio/Simple.antt =====
-- A value of the tokio interface that meets its laws: a queue as a list, a watch channel as the
-- number of its receivers, a semaphore as the number of its permits. It serves the examples.
use tokactor.Common.{
  ℕ, suc, ◌-◌, ◌≡◌, refl, ap, Bool, true, false, Option, none, some, List, [], ◌∷◌, ◌++◌, length,
  arith, ltb, ◌==◌, if◌then◌else◌,
}
use tokactor.Tokio.{TrySend, sent, full, closed, Tokio, TokioLaws}

pub record Queue (M : Type 0) : Type 0 where
  pub items : List M
  pub limit : ℕ
  pub shut : Bool

module _ {M : Type 0} where
  abbrev push : M → Queue M → TrySend M × Queue M
  push m q =
      if q.shut
      then (closed m, q)
      else if ltb (length q.items) q.limit
      then (sent, record q { items = q.items ++ m ∷ [] })
      else (full m, q)

  abbrev pull : List M → Queue M → Option M × Queue M
  pull [] q = (none, q)
  pull (m ∷ ms) q = (some m, record q { items = ms })

  abbrev pub simple : Tokio M (Queue M) ℕ ℕ
  simple = record {
    channel = λ n. record { items = []; limit = n; shut = false };
    queue = λ q. q.items;
    capacity = λ q. q.limit;
    is_closed = λ q. q.shut;
    try_send = push;
    try_recv = λ q. pull q.items q;
    close = λ q. record q { shut = true };
    watch = 0;
    receivers = λ w. w;
    subscribe = λ w. suc w;
    drop_receiver = λ w. w - 1;
    notify = λ m w. w;
    semaphore = λ n. n;
    available_permits = λ s. s;
    try_acquire = λ s. if s == 0 then (false, s) else (true, s - 1);
    release = λ s. suc s;
    acquire_many = λ n s. if ltb s n then n else s;
  }

  pull-some :
      (q : Queue M) (m : M) (ms : List M)
      → q.items ≡ m ∷ ms
      → pull q.items q ≡ (some m, record q { items = ms })
  pull-some q m ms h = ground arith

  pull-none : (q : Queue M) → q.items ≡ [] → pull q.items q ≡ (none, q)
  pull-none q h = ground arith

  pull_keeps :
      (l : List M) (q : Queue M)
      → record { shut : (pull l q).1.shut ≡ q.shut; limit : (pull l q).1.limit ≡ q.limit }
  pull_keeps [] q = record { shut = refl; limit = refl }
  pull_keeps (m ∷ ms) q = record { shut = refl; limit = refl }

  pub simple_laws : TokioLaws (simple)
  simple_laws = record {
    queue-channel = λ n. refl;
    capacity-channel = λ n. refl;
    is_closed-channel = λ n. refl;
    try_send_closed = λ m c h. ground arith;
    try_send_full = λ m c h k. ground arith;
    try_send_sent = λ m c h k. ground arith;
    queue-try_send = λ m c h k. ground arith;
    capacity-try_send = λ m c. ground arith;
    is_closed-try_send = λ m c. ground arith;
    try_recv_none = λ c h. pull-none c h;
    try_recv_some = λ c m ms h. ap (λ p. p.0) (pull-some c m ms h);
    queue-try_recv = λ c m ms h. ap (λ p. p.1.items) (pull-some c m ms h);
    is_closed-try_recv = λ c. (pull_keeps c.items c).shut;
    capacity-try_recv = λ c. (pull_keeps c.items c).limit;
    queue-close = λ c. refl;
    is_closed-close = λ c. refl;
    receivers-watch = refl;
    receivers-subscribe = λ w. refl;
    receivers-drop = λ w. refl;
    receivers-notify = λ m w. refl;
    permits-semaphore = λ n. refl;
    try_acquire_none = λ s h. ground arith;
    try_acquire_some = λ s h. ground arith;
    permits-try_acquire = λ s. ground arith;
    permits-release = λ s. refl;
    permits-acquire_many = λ n s. ground arith;
    permits-acquire_many_now = λ n s h. ground (arith, h);
  }

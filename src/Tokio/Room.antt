-- ===== src/Tokio/Room.antt =====
-- The three states of a mailbox, and what `Sender::try_send` of tokio does in each.
use tokactor.Common.{◌≡◌, Bool, length, if◌then◌else◌, ltb, arith, inl, inr, Bool-cases}
use tokactor.Tokio.{Tokio, TokioLaws, TrySend, sent}

module _ {M Chan W S : Type 0} (tk : Tokio M Chan W S) where
  abbrev pub has_room : Chan → Bool
  has_room c = ltb (length (tk.queue c)) (tk.capacity c)

  -- A value for each of the three states of a mailbox: closed, with room, full.
  abbrev pub by_room {ℓ} : {X : Type ℓ} → Chan → X → X → X → X
  by_room c when_closed when_room when_full =
      if tk.is_closed c then when_closed else if has_room c then when_room else when_full

  pub push_through {ℓ κ} :
      {X : Type ℓ} {Y : Type κ} (f : X → Y) (c : Chan) (x y z : X)
      → f (by_room c x y z) ≡ by_room c (f x) (f y) (f z)
  push_through f c x y z = elim (Bool-cases (tk.is_closed c)) [
    | inl shut ↦ rw shut
    | inr open_ ↦ elim (Bool-cases (has_room c)) [
      | inl room ↦ rw (open_, room)
      | inr no_room ↦ rw (open_, no_room)
    ]
  ]

module _ {M Chan W S : Type 0} (tk : Tokio M Chan W S) (laws : TokioLaws tk) where
  pub try_send_lem :
      (b : M) (c : Chan)
      → tk.try_send b c
        ≡ by_room tk c (TrySend.closed b, c) (sent, (tk.try_send b c).1) (TrySend.full b, c)
  try_send_lem b c = elim (Bool-cases (tk.is_closed c)) [
    | inl shut ↦ rw shut (laws.try_send_closed b c shut)
    | inr open_ ↦ elim (Bool-cases (has_room tk c)) [
      | inl room ↦
          rw (open_, room)
            (λ i. (laws.try_send_sent b c open_ (ground arith) i, (tk.try_send b c).1))
      | inr no_room ↦ rw (open_, no_room) (laws.try_send_full b c open_ (ground arith))
    ]
  ]

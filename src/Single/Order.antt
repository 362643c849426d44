-- ===== src/Single/Order.antt =====
-- src/single: the order in which the addresses come out.
use mathlib.Core.List.{reverse, reverse-reverse, reverse-append, map-append, append-nil}
use tokactor.Common.{
  ℕ, zero, suc, ◌≤◌, ◌≡◌, refl, sym, ap, ◌∙◌, subst, some, List, [], ◌∷◌, ◌++◌, map, append_assoc,
  length, length-append, ok, arith,
}
use tokactor.Tokio.{Tokio, TokioLaws}
use tokactor.Message.{SendMessage, running}
use tokactor.Actor.{Actor}
use tokactor.Context.{Effect, starts, new, spawn_task, start}
use tokactor.Single.{
  Nested, Flat, flatten, flat_list, register_all, run, Ref, Kind, task_of, ref_of, CtxBuilder,
  builder, joined, register,
}

module _ (T : Type 0) where
  abbrev pub nested_list : (n : ℕ) → Nested T n → List T
  nested_list zero t = []
  nested_list (suc n) (a, t) = a ∷ nested_list n t

  -- Each flat tuple of up to ten parts lists those of the nested tuple in the reverse order.
  pub flatten-reverse :
      (n : ℕ) (t : Nested T n)
      → n ≤ 10
      → (f : Flat T n) × (flatten T n t ≡ some f) × (flat_list T n f ≡ reverse (nested_list n t))
  unfolding flatten
  flatten-reverse zero t h = (tt, refl, refl)
  flatten-reverse (suc zero) (a, _) h = (_, refl, refl)
  flatten-reverse (suc (suc zero)) (a, (b, _)) h = (_, refl, refl)
  flatten-reverse (suc (suc (suc zero))) (a, (b, (c, _))) h = (_, refl, refl)
  flatten-reverse (suc (suc (suc (suc zero)))) (a, (b, (c, (d, _)))) h = (_, refl, refl)
  flatten-reverse (suc (suc (suc (suc (suc zero))))) (a, (b, (c, (d, (e, _))))) h = (_, refl, refl)
  flatten-reverse (suc (suc (suc (suc (suc (suc zero)))))) (a, (b, (c, (d, (e, (f, _)))))) h =
      (_, refl, refl)
  flatten-reverse (suc (suc (suc (suc (suc (suc (suc zero)))))))
        (a, (b, (c, (d, (e, (f, (g, _))))))) h =
      (_, refl, refl)
  flatten-reverse (suc (suc (suc (suc (suc (suc (suc (suc zero))))))))
        (a, (b, (c, (d, (e, (f, (g, (i, _)))))))) h =
      (_, refl, refl)
  flatten-reverse (suc (suc (suc (suc (suc (suc (suc (suc (suc zero)))))))))
        (a, (b, (c, (d, (e, (f, (g, (i, (j, _))))))))) h =
      (_, refl, refl)
  flatten-reverse (suc (suc (suc (suc (suc (suc (suc (suc (suc (suc zero))))))))))
        (a, (b, (c, (d, (e, (f, (g, (i, (j, (k, _)))))))))) h =
      (_, refl, refl)
  flatten-reverse (suc (suc (suc (suc (suc (suc (suc (suc (suc (suc (suc n))))))))))) t h =
      absurd (omega arith)

module _ {A U R Chan W S Q : Type 0} (tk : Tokio (SendMessage U) Chan W S) (act : Actor A U R)
    (channel : ℕ → Q) (laws : TokioLaws tk) where
  abbrev pub Builder : Type 0
  Builder = (n : ℕ) × CtxBuilder A R Chan W S Q n

  abbrev pub refs : List Kind → List (Ref Q)
  refs ks = map (λ k. ref_of k (channel act.mailbox_size)) ks

  abbrev pub tasks : List Kind → List (Effect R)
  tasks ks = map (λ k. starts (task_of k)) ks

  -- A builder on which these kinds were registered, the first first.
  record Registered (ks : List Kind) (p : Builder) : Type 0 where
    count : p.0 ≡ length ks
    nested : nested_list (Ref Q) p.0 p.1.senders ≡ reverse (refs ks)
    started : p.1.context.effects ≡ tasks ks
    running_ : p.1.context.state ≡ running

  register-Registered :
      (done : List Kind) (k : Kind) (n : ℕ) (b : CtxBuilder A R Chan W S Q n)
      → Registered done (n, b)
      → (b' : CtxBuilder A R Chan W S Q (suc n)) × (register tk act channel k b ≡ ok b')
        × Registered (done ++ k ∷ []) (suc n, b')
  unfolding register spawn_task
  register-Registered done k n b v = (
    joined tk act channel k b (start tk (task_of k) b.context),
    rw v.running_,
    record {
      count = omega (arith, length-append done (k ∷ []), v.count);
      nested =
          ap (λ l. ref_of k (channel act.mailbox_size) ∷ l) v.nested
          ∙ sym (reverse-append (refs done) (refs (k ∷ [])))
          ∙ ap reverse (sym (map-append (λ j. ref_of j (channel act.mailbox_size)) done (k ∷ [])));
      started =
          ap (λ l. l ++ tasks (k ∷ [])) v.started
          ∙ sym (map-append (λ j. starts (task_of j)) done (k ∷ []));
      running_ = v.running_;
    },
  )

  register_all-Registered :
      (done ks : List Kind) (n : ℕ) (b : CtxBuilder A R Chan W S Q n)
      → Registered done (n, b)
      → (p : Builder) × (register_all tk act channel ks (n, b) ≡ ok p) × Registered (done ++ ks) p
  unfolding register_all
  register_all-Registered done [] n b v =
      ((n, b), refl, subst (λ l. Registered l (n, b)) (sym (append-nil done)) v)
  register_all-Registered done (k ∷ ks) n b v =
      let (b', one, v') = register-Registered done k n b v in
      let (p, rest, w) = register_all-Registered (done ++ k ∷ []) ks (suc n) b' v' in
      (p, rw one rest, subst (λ l. Registered l p) (append_assoc done (k ∷ []) ks) w)

  builder-Registered : (a : A) → Registered [] (0, builder tk act channel a)
  unfolding builder new
  builder-Registered a = record { count = refl; nested = refl; started = refl; running_ = refl }

  -- An actor that registers up to ten addresses, of any kinds, panics at none of them; it gets the
  -- addresses in the order of the calls, each to a channel of the actor's mailbox size; and for
  -- each the task that serves it is started, in that order.
  pub run-register_all :
      (a : A) (ks : List Kind)
      → length ks ≤ 10
      → (p : Builder) × (register_all tk act channel ks (0, builder tk act channel a) ≡ ok p)
        × ((run tk act channel p).2 ≡ some (refs ks))
        × ((run tk act channel p).1.effects ≡ tasks ks)
  unfolding run
  run-register_all a ks h =
      let start = builder-Registered a in
      let (p, done, v) = register_all-Registered [] ks 0 (builder tk act channel a) start in
      let (f, flat, listed) = flatten-reverse (Ref Q) p.0 p.1.senders (omega (arith, v.count)) in
      (
        p,
        done,
        rw flat (ap some (listed ∙ ap reverse v.nested ∙ reverse-reverse (refs ks))),
        v.started,
      )

-- ===== src/Family/FanIn/Tending.antt =====
-- src/context.rs and src/executor.rs: what holds of an actor and its children all along.
use tokactor.Common.{
  ℕ, suc, ◌+◌, ◌-◌, ◌≤◌, ◌≡◌, sym, ap, ◌∙◌, subst, true, false, List, [], ◌∷◌, ◌++◌, length,
  length-append, ok, arith, Sublist, Sublist-grows, Sublist-append_last,
}
use mathlib.Core.List.{Perm}
use tokactor.Tokio.{Tokio, TokioLaws}
use tokactor.Tokio.Room.{has_room}
use tokactor.Tokio.Recording.{Account, recording, recording_laws}
use tokactor.Tokio.Recording.Accepted.{
  accepted-try_send, try_send-accepted, try_recv-accepted, close-accepted,
}
use tokactor.Message.{SendMessage}
use tokactor.Actor.{Actor}
use tokactor.Executor.Awaits.{Event, delivers, child_exits}
use tokactor.Family.FanIn.{
  Phase, serving, awaiting, over, advance, Nursery, Rears, Step, acts, tells, fails, leaves,
  unwinds, comes_late, History, done, then_, watchers, mailbox,
}
use tokactor.Family.FanIn.Perms.{born_more, sent_one, lost_one}
use tokactor.Family.FanIn.Watching.{Ends, own-Ends, Watched, exit-Watched, tell-Watched}
use tokactor.Executor.Mailbox.Messages.{mailbox-Steps}
use tokactor.Family.FanIn.Phases.{advance-P}

module _ {A U R Chan W S : Type 0} (tk : Tokio (SendMessage U) Chan W S) (act : Actor A U R)
    (laws : TokioLaws tk) where
  abbrev pub kept_tk : Tokio (SendMessage U) (Account tk) W S
  kept_tk = recording tk laws

  abbrev pub Whole : Type 0
  Whole = Nursery A U R (Account tk) W S

  -- The receivers of the notifier are those of the tasks that are left; at the end, nobody is left
  -- who has something to say.
  abbrev pub Counted : Phase A R (Account tk) W S → List (SendMessage U) → ℕ → Type 0
  Counted (serving x) us k = tk.receivers x.context.notifier ≡ length us + k
  Counted (awaiting (n, x)) us k = tk.receivers x.context.notifier ≡ length us + k
  Counted (over x) us k = us ≡ []

  pub record Sound (f : Whole) : Type 0 where
    pub counted : Counted f.phase f.unsaid f.silent
    pub all : Perm f.born (f.unsaid ++ (f.heard ++ f.lost))
    pub kept : Sublist f.heard (mailbox kept_tk act f.phase).accepted

  accepted-kept :
      (hs : List (SendMessage U)) (p q : Phase A R (Account tk) W S) (e : Event U)
      → Sublist hs (mailbox kept_tk act p).accepted
      → advance kept_tk act p e ≡ ok q
      → Sublist hs (mailbox kept_tk act q).accepted
  accepted-kept hs =
      advance-P kept_tk act (λ x. Sublist hs x.context.mailbox.accepted)
        (mailbox-Steps kept_tk act (λ a. Sublist hs a.accepted)
          (λ m a s. try_send-accepted tk laws (Sublist hs) grows m a s)
          (λ a s. close-accepted tk laws (Sublist hs) grows a s)
          (λ a s. try_recv-accepted tk laws (Sublist hs) grows a s))
    where
      grows :
          (m : SendMessage U) (ms : List (SendMessage U))
          → Sublist hs ms
          → Sublist hs (ms ++ m ∷ [])
      grows m ms s = Sublist-grows m hs ms s

  no_more : (us ms : List (SendMessage U)) (k : ℕ) → length us + k ≤ 0 → ms ≡ [] → us ++ ms ≡ []
  no_more [] ms k h e = e
  no_more (u ∷ us) ms k h e = absurd (omega (arith, h))

  count_now :
      (p q : Phase A R (Account tk) W S) (e : Event U) (us : List (SendMessage U)) (k : ℕ)
      → advance kept_tk act p e ≡ ok q
      → Counted p us k
      → watchers kept_tk act p ≡ length us + k
  unfolding recording advance
  count_now (serving x) q e us k h c = c
  count_now (awaiting (n, x)) q e us k h c = c
  count_now (over x) q e us k h c = cc h

  own-Counted :
      (w : ℕ) (q : Phase A R (Account tk) W S) (us ms : List (SendMessage U)) (k l : ℕ)
      → w ≡ length us + k
      → Ends kept_tk act (recording_laws tk laws) w q
      → watchers kept_tk act q ≡ w + (length ms + l)
      → Rears ms q
      → Counted q (us ++ ms) (k + l)
  unfolding recording
  own-Counted w (serving x) us ms k l c ends grown rears =
      omega (arith, c, grown, length-append us ms)
  own-Counted w (awaiting (n, x)) us ms k l c ends grown rears =
      omega (arith, c, grown, length-append us ms)
  own-Counted w (over x) us ms k l c ends grown rears =
      no_more us ms k (omega (arith, c, ends)) rears

  Watched-Counted :
      (n : ℕ) (q : Phase A R (Account tk) W S) (us : List (SendMessage U)) (k : ℕ)
      → Watched kept_tk act (recording_laws tk laws) n q
      → n ≡ length us + k
      → Counted q us k
  unfolding recording
  Watched-Counted n (serving x) us k w e = w ∙ e
  Watched-Counted n (awaiting (m, x)) us k w e = w ∙ e
  Watched-Counted n (over x) us k w e = absurd w

  last_accepted :
      (m : SendMessage U) (a : Account tk)
      → kept_tk.is_closed a ≡ false
      → has_room kept_tk a ≡ true
      → (kept_tk.try_send m a).1.accepted ≡ a.accepted ++ m ∷ []
  unfolding recording
  last_accepted m a open_ room = accepted-try_send tk laws m a open_ room

  one_less :
      (before after us : List (SendMessage U)) (m : SendMessage U)
      → us ≡ before ++ m ∷ after
      → length us ≡ suc (length (before ++ after))
  one_less before after us m e =
      omega (arith, ap length e, length-append before (m ∷ after), length-append before after)

  -- A task that has nothing to say lets go of its receiver.
  exit-Sound :
      (f : Whole) (ls : List (SendMessage U)) (k : ℕ) (q : Phase A R (Account tk) W S)
      → f.silent ≡ suc k
      → advance kept_tk act f.phase child_exits ≡ ok q
      → Sound f
      → Sound (record f { phase = q; silent = k; late = ls })
  exit-Sound f ls k q e went v =
      let n = count_now f.phase q child_exits f.unsaid f.silent went v.counted in
      let (w, box) = exit-Watched kept_tk act (recording_laws tk laws) f.phase q went in
      record {
        counted =
            Watched-Counted (watchers kept_tk act f.phase - 1) q f.unsaid k w (omega (arith, n, e));
        all = v.all;
        kept = accepted-kept f.heard f.phase q child_exits v.kept went;
      }

  Step-Sound : {f g : Whole} {e : Event U} → Step kept_tk act f e g → Sound f → Sound g
  Step-Sound {f} (acts e q ms k own went grown rears) v =
      let n = count_now f.phase q e f.unsaid f.silent went v.counted in
      record {
        counted =
            own-Counted (watchers kept_tk act f.phase) q f.unsaid ms f.silent k n
              (own-Ends kept_tk act (recording_laws tk laws) f.phase q e own went) grown rears;
        all = born_more f.born f.unsaid (f.heard ++ f.lost) ms v.all;
        kept = accepted-kept f.heard f.phase q e v.kept went;
      }
  Step-Sound {f} (tells before after m q e open_ room went) v =
      let n = count_now f.phase q (delivers m) f.unsaid f.silent went v.counted in
      let (w, box) = tell-Watched kept_tk act (recording_laws tk laws) f.phase q m went in
      record {
        counted =
            Watched-Counted (watchers kept_tk act f.phase) q (before ++ after) (suc f.silent) w
              (omega (arith, n, one_less before after f.unsaid m e));
        all =
            sent_one f.born before after f.heard f.lost m
              (subst (λ l. Perm f.born (l ++ (f.heard ++ f.lost))) e v.all);
        kept =
            subst (Sublist (f.heard ++ m ∷ []))
              (sym (
                ap (λ (a : Account tk). a.accepted) box
                ∙ last_accepted m (mailbox kept_tk act f.phase) open_ room))
              (Sublist-append_last m f.heard (mailbox kept_tk act f.phase).accepted v.kept);
      }
  Step-Sound {f} (fails before after m q e shut went) v =
      let n = count_now f.phase q child_exits f.unsaid f.silent went v.counted in
      let (w, box) = exit-Watched kept_tk act (recording_laws tk laws) f.phase q went in
      record {
        counted =
            Watched-Counted (watchers kept_tk act f.phase - 1) q (before ++ after) f.silent w
              (omega (arith, n, one_less before after f.unsaid m e));
        all =
            lost_one f.born before after f.heard f.lost m
              (subst (λ l. Perm f.born (l ++ (f.heard ++ f.lost))) e v.all);
        kept = accepted-kept f.heard f.phase q child_exits v.kept went;
      }
  Step-Sound {f} (leaves k q e went) v = exit-Sound f f.late k q e went v
  Step-Sound {f} (unwinds m k q e went) v = exit-Sound f (f.late ++ m ∷ []) k q e went v
  Step-Sound {f} (comes_late before after m q e open_ room went) v =
      let n = count_now f.phase q (delivers m) f.unsaid f.silent went v.counted in
      let (w, box) = tell-Watched kept_tk act (recording_laws tk laws) f.phase q m went in
      record {
        counted = Watched-Counted (watchers kept_tk act f.phase) q f.unsaid f.silent w n;
        all = v.all;
        kept = accepted-kept f.heard f.phase q (delivers m) v.kept went;
      }

  pub History-Sound :
      {f g : Whole} {es : List (Event U)} → History kept_tk act f es g → Sound f → Sound g
  History-Sound done v = v
  History-Sound (then_ s p) v = History-Sound p (Step-Sound s v)

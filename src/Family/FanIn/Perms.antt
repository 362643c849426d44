-- ===== src/Family/FanIn/Perms.antt =====
-- What becomes of the reports of children, as lists up to order.
use tokactor.Common.{sym, subst, List, [], ◌∷◌, ◌++◌, append_assoc}
use mathlib.Core.List.Perm
use mathlib.Core.List.{Perm, perm_append_comm, perm_append_singleton, perm_middle}

module _ {M : Type 0} where
  -- Where a report goes, and where new ones come in.
  pub born_more :
      (born unsaid rest ms : List M)
      → Perm born (unsaid ++ rest)
      → Perm (born ++ ms) ((unsaid ++ ms) ++ rest)
  born_more born unsaid rest ms p = Perm.trans (Perm.append_right ms p) (
      subst (λ l. Perm l ((unsaid ++ ms) ++ rest)) (sym (append_assoc unsaid rest ms))
        (subst (λ l. Perm (unsaid ++ (rest ++ ms)) l) (sym (append_assoc unsaid ms rest))
          (Perm.append_left unsaid (perm_append_comm rest ms))))

  taken_out :
      (before after rest : List M) (m : M)
      → Perm ((before ++ m ∷ after) ++ rest) (m ∷ ((before ++ after) ++ rest))
  taken_out before after rest m = Perm.append_right rest (perm_middle before after)

  put_in :
      (front rest new : List M) (m : M)
      → Perm new (m ∷ rest)
      → Perm (front ++ new) (m ∷ (front ++ rest))
  put_in front rest new m p = Perm.trans (Perm.append_left front p) (perm_middle front rest)

  -- A report that is taken out of those to send joins those that were sent, or those that were lost.
  pub sent_one :
      (born before after heard lost : List M) (m : M)
      → Perm born ((before ++ m ∷ after) ++ (heard ++ lost))
      → Perm born ((before ++ after) ++ ((heard ++ m ∷ []) ++ lost))
  sent_one born before after heard lost m p = Perm.trans p (
      Perm.trans (taken_out before after (heard ++ lost) m) (
        Perm.symm (
          put_in (before ++ after) (heard ++ lost) ((heard ++ m ∷ []) ++ lost) m
            (Perm.append_right lost (perm_append_singleton m heard)))))

  pub lost_one :
      (born before after heard lost : List M) (m : M)
      → Perm born ((before ++ m ∷ after) ++ (heard ++ lost))
      → Perm born ((before ++ after) ++ (heard ++ (lost ++ m ∷ [])))
  lost_one born before after heard lost m p = Perm.trans p (
      Perm.trans (taken_out before after (heard ++ lost) m) (
        Perm.symm (
          put_in (before ++ after) (heard ++ lost) (heard ++ (lost ++ m ∷ [])) m
            (put_in heard lost (lost ++ m ∷ []) m (perm_append_singleton m lost)))))

-- ===== src/Router/Retry.antt =====
-- src/utils/router.rs: how often a question is asked again.
use tokactor.Common.{
  ℕ, zero, suc, ◌≡◌, ◌↔◌, refl, sym, ap, ◌∙◌, Flow, ok, panicked, ◌>>=◌, >>=-eq-ok, if◌then◌else◌,
  ◌==◌, false, arith, Option, some, none, blocked,
}
use tokactor.Tokio.{Tokio, TokioLaws}
use tokactor.Tokio.Room.{by_room, push_through}
use tokactor.Message.{SendMessage}
use tokactor.Address.{Reply, fine, failed, AskError, dropped, answered, async_ask}
use tokactor.Address.Results.{ask_lem}
use tokactor.Router.{retried, retry, forward}

module _ {U R : Type 0} (call : ℕ → U → Flow (Reply R (AskError U))) where
  -- The calls from number `k` on hand the message back until one answers, at most `n` of them.
  pub data Answers (result : R) : ℕ → ℕ → U → Type 0 where
    at_once : {n k : ℕ} {m : U} → call k m ≡ ok (fine result) → Answers result (suc n) k m
    later :
        {n k : ℕ} {m : U} (m' : U)
        → call k m ≡ ok (failed (AskError.closed m'))
        → Answers result n (suc k) m'
        → Answers result (suc n) k m

  Answers-retry :
      {result : R} {n k : ℕ} {m : U} → Answers result n k m → retry call n k m ≡ ok result
  unfolding retry
  Answers-retry (at_once e) = rw e
  Answers-retry (later m' e rest) = rw e (Answers-retry rest)

  answer :
      (n k : ℕ) (m : U) (result : R) (r : Reply R (AskError U))
      → ((m' : U) → retry call n (suc k) m' ≡ ok result → Answers result n (suc k) m')
      → call k m ≡ ok r
      → retried call r (retry call n (suc k)) ≡ ok result
      → Answers result (suc n) k m
  answer n k m result (fine x) again called next =
      let same : x ≡ result = cc next in at_once (called ∙ ap (λ y. ok (fine y)) same)
  answer n k m result (failed (AskError.closed m')) again called next =
      later m' called (again m' next)
  answer n k m result (failed dropped) again called next = cc

  retry-Answers :
      (n k : ℕ) (m : U) (result : R) → retry call n k m ≡ ok result → Answers result n k m
  unfolding retry
  retry-Answers zero k m result h = cc
  retry-Answers (suc n) k m result h =
      let (r, called, next) = >>=-eq-ok (call k m) (λ r. retried call r (retry call n (suc k))) h in
      answer n k m result r (λ m'. retry-Answers n (suc k) m' result) called next

  forward-retry : (n : ℕ) (m : U) → forward call n m ≡ retry call (suc n) 0 m
  unfolding forward
  forward-retry zero m = refl
  forward-retry (suc n) m =
      let some_left : (suc n == 0) ≡ false = ground arith in
      ap
        (λ t.
          call 0 m >>= λ r. retried call r λ m'. if t then panicked else retry call (suc n) 1 m')
        some_left

  -- A question is answered exactly if one of `max_retry + 1` calls answers it and every call before
  -- that one hands the message back; the answer is that call's, and what is asked again is the
  -- message that came back. In no other case is there an answer.
  pub forward_iff :
      (max_retry : ℕ) (m : U) (result : R)
      → (forward call max_retry m ≡ ok result) ↔ Answers result (suc max_retry) 0 m
  forward_iff n m result = (
    λ h. retry-Answers (suc n) 0 m result (sym (forward-retry n m) ∙ h),
    λ a. forward-retry n m ∙ Answers-retry a,
  )

-- What the router has of the answer to one question.
abbrev pub given : {R : Type 0} → Option R → Flow R
given (some r) = ok r
given none = panicked

module _ {U R Chan W S : Type 0} (tk : Tokio (SendMessage U) Chan W S) (laws : TokioLaws tk)
    (tx : ℕ → ℕ) (o : ℕ → Option R) (c : ℕ → Chan) where
  -- `address.async_ask(message).await`, the `k`-th time: with what answer there is then, of a mailbox as
  -- it is then.
  abbrev pub asks : ℕ → U → Flow (Reply R (AskError U))
  asks k m = async_ask tk m (tx k) (o k) (c k) >>= λ p. ok p.0

  -- What the router makes of the call, if it asks again in this way.
  abbrev then_asks : (U → Flow R) → Flow (Reply R (AskError U) × Chan) → Flow R
  then_asks again r = (r >>= λ p. ok p.0) >>= λ a. retried asks a again

  given_lem : (a : Option R) (again : U → Flow R) → retried asks (answered tk a) again ≡ given a
  given_lem (some r) again = refl
  given_lem none again = refl

  -- The router's question, for whatever number of retries and whatever becomes of the mailbox of the
  -- actor and of the answers later: the router asks once. If the mailbox is closed then, the router
  -- panics; if it is full, the router waits; and if it has room, the router answers what the actor
  -- answers, or panics if the actor drops the question. It never asks again.
  pub forward-async_ask :
      (max_retry : ℕ) (m : U)
      → forward asks max_retry m ≡ by_room tk (c 0) panicked (given (o 0)) blocked
  unfolding forward
  forward-async_ask n m =
      let again : U → Flow R = λ m'. if n == 0 then panicked else retry asks n 1 m' in
      ap (then_asks again) (ask_lem tk laws m (tx 0) (o 0) (c 0)).1
      ∙ push_through tk (then_asks again) (c 0) _ _ _
      ∙ ap (λ g. by_room tk (c 0) panicked g blocked) (given_lem (o 0) again)

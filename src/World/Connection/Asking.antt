-- ===== src/World/Connection/Asking.antt =====
-- src/world/mod.rs, the task of one connection: which payloads it asks its actor for, and how it ends.
use tokactor.Common.{
  ℕ, ◌≡◌, refl, sym, ap, ◌∙◌, Bool, true, false, Option, none, some, List, [], ◌∷◌, ◌++◌,
  append_assoc, append-nil, ok, ◌>>=◌, >>=-eq-ok, if◌then◌else◌,
}
use tokactor.Tokio.{Tokio}
use tokactor.Message.{SendMessage}
use tokactor.Address.{Reply, fine, failed, async_ask}
use tokactor.World.Connection.{
  ConnectionEvent, reads, takes, exits, Connection, asked_for, on_read, connection_step,
  connection_run,
}

-- The payloads that a schedule brings before the first end or error of the reader.
unfoldable pub payloads : {U R E : Type 0} → List (ConnectionEvent U R E) → List U
payloads [] = []
payloads (reads (fine (some m)) tx o ∷ es) = m ∷ payloads es
payloads (reads (fine none) tx o ∷ es) = []
payloads (reads (failed e) tx o ∷ es) = []
payloads (takes ∷ es) = payloads es
payloads (exits ∷ es) = payloads es

-- Whether the reader comes to no end on it.
unfoldable pub goes_on : {U R E : Type 0} → List (ConnectionEvent U R E) → Bool
goes_on [] = true
goes_on (reads (fine (some m)) tx o ∷ es) = goes_on es
goes_on (reads (fine none) tx o ∷ es) = false
goes_on (reads (failed e) tx o ∷ es) = false
goes_on (takes ∷ es) = goes_on es
goes_on (exits ∷ es) = goes_on es

module _ {U Chan W S R E : Type 0} (tk : Tokio (SendMessage U) Chan W S) where
  pub stepped :
      (b : Bool) (r : Reply (Option U) E) (tx : ℕ) (o : Option R)
      (es : List (ConnectionEvent U R E)) (c : Connection U Chan)
      → c.reading ≡ b
      → connection_run tk (reads r tx o ∷ es) c
        ≡ ((if b then on_read tk r tx o c else ok c) >>= connection_run tk es)
  unfolding connection_run connection_step
  stepped b r tx o es c e =
      ap (λ b'. (if b' then on_read tk r tx o c else ok c) >>= connection_run tk es) e

  after_end :
      (es : List (ConnectionEvent U R E)) (c d : Connection U Chan)
      → c.reading ≡ false
      → connection_run tk es c ≡ ok d
      → (d.asked ≡ c.asked) × (d.reading ≡ false)
  unfolding connection_run connection_step
  after_end [] c d e h =
      let same : c ≡ d = cc h in (ap (λ z. z.asked) (sym same), ap (λ z. z.reading) (sym same) ∙ e)
  after_end (reads r tx o ∷ es) c d e h = after_end es c d e (sym (stepped false r tx o es c e) ∙ h)
  after_end (takes ∷ es) c d e h =
      after_end es (record c { mailbox = (tk.try_recv c.mailbox).1 }) d e h
  after_end (exits ∷ es) c d e h = after_end es (record c { mailbox = tk.close c.mailbox }) d e h

  ended :
      (es : List (ConnectionEvent U R E)) (c d : Connection U Chan)
      → connection_run tk es (record c { reading = false }) ≡ ok d
      → (d.asked ≡ c.asked ++ []) × (d.reading ≡ false)
  ended es c d h =
      let (asked, reading) = after_end es (record c { reading = false }) d refl h in
      (asked ∙ sym (append-nil c.asked), reading)

  -- Over any schedule that it comes through: the task of a connection has asked its actor for exactly
  -- the payloads that the reader gave before its first `Ok(None)` or error, in their order, and it
  -- still reads just if there was none.
  pub connection_run-payloads :
      (es : List (ConnectionEvent U R E)) (c d : Connection U Chan)
      → c.reading ≡ true
      → connection_run tk es c ≡ ok d
      → (d.asked ≡ c.asked ++ payloads es) × (d.reading ≡ goes_on es)
  unfolding connection_run connection_step payloads goes_on
  connection_run-payloads [] c d e h =
      let same : c ≡ d = cc h in
      (ap (λ z. z.asked) (sym same) ∙ sym (append-nil c.asked), ap (λ z. z.reading) (sym same) ∙ e)
  connection_run-payloads (reads (fine (some m)) tx o ∷ es) c d e h =
      let (c', first, later) =
        >>=-eq-ok (on_read tk {E = E} (fine (some m)) tx o c) _
          (sym (stepped true (fine (some m)) tx o es c e) ∙ h) in
      let (p, sent, made) = >>=-eq-ok (async_ask tk m tx o c.mailbox) _ first in
      let same : asked_for tk m c p ≡ c' = cc made in
      let (asked, reading) =
        connection_run-payloads es c' d (ap (λ z. z.reading) (sym same) ∙ e) later in
      (
        asked
            ∙ ap (λ z. z.asked ++ payloads es) (sym same)
            ∙ append_assoc c.asked (m ∷ []) (payloads es),
        reading,
      )
  connection_run-payloads (reads (fine none) tx o ∷ es) c d e h =
      ended es c d (sym (stepped true (fine none) tx o es c e) ∙ h)
  connection_run-payloads (reads (failed f) tx o ∷ es) c d e h =
      ended es c d (sym (stepped true (failed f) tx o es c e) ∙ h)
  connection_run-payloads (takes ∷ es) c d e h =
      connection_run-payloads es (record c { mailbox = (tk.try_recv c.mailbox).1 }) d e h
  connection_run-payloads (exits ∷ es) c d e h =
      connection_run-payloads es (record c { mailbox = tk.close c.mailbox }) d e h

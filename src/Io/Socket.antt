-- ===== src/Io/Socket.antt =====
-- The reading half of a TCP socket of tokio (`OwnedReadHalf`), as a parameter: what it does with the
-- bytes that have arrived. `SocketLaws` states what the documentation of `poll_peek` and `try_read`
-- promises.
use tokactor.Common.{ℕ, ◌≡◌, ◌≢◌, refl, Bool, true, false, Option, some, List, [], ◌∷◌, take, drop}

-- `Poll<io::Result<usize>>` of `poll_peek`, with the bytes that it puts into the buffer.
pub data Peek (B E : Type 0) : Type 0 where
  waits : Peek B E
  peeked : List B → Peek B E
  fails : E → Peek B E

pub record Socket (B E S : Type 0) : Type 0 where
  -- the bytes that have arrived and were not read, and whether none will follow
  pub bytes : S → List B
  pub ended : S → Bool
  pub poll_peek : ℕ → S → Peek B E
  pub try_read : ℕ → S → Option (List B) × S

pub record SocketLaws {B E S : Type 0} (k : Socket B E S) : Type 0 where
  -- as many bytes as there are and as fit, and no bytes at the end only
  pub poll_peek_bytes :
      (n : ℕ) (s : S) → k.bytes s ≢ [] → k.poll_peek n s ≡ peeked (take n (k.bytes s))
  pub poll_peek_ended :
      (n : ℕ) (s : S) → k.bytes s ≡ [] → k.ended s ≡ true → k.poll_peek n s ≡ peeked []
  pub poll_peek_waits :
      (n : ℕ) (s : S) → k.bytes s ≡ [] → k.ended s ≡ false → k.poll_peek n s ≡ waits
  -- the same bytes, which are then read
  pub try_read_bytes :
      (n : ℕ) (s : S) → k.bytes s ≢ [] → (k.try_read n s).0 ≡ some (take n (k.bytes s))
  pub bytes-try_read :
      (n : ℕ) (s : S) → k.bytes s ≢ [] → k.bytes (k.try_read n s).1 ≡ drop n (k.bytes s)
  pub ended-try_read : (n : ℕ) (s : S) → k.ended (k.try_read n s).1 ≡ k.ended s

-- A socket that is the list of its bytes and a mark at their end.
module _ {B : Type 0} where
  abbrev peek_at : Bool → ℕ → List B → Peek B (Unit {0})
  peek_at true n [] = peeked []
  peek_at false n [] = waits
  peek_at _ n (b ∷ bs) = peeked (take n (b ∷ bs))

  abbrev pub plain : Socket B (Unit {0}) (List B × Bool)
  plain = record {
    bytes = λ s. s.0;
    ended = λ s. s.1;
    poll_peek = λ n s. peek_at s.1 n s.0;
    try_read = λ n s. (some (take n s.0), (drop n s.0, s.1));
  }

  peek_some : (e : Bool) (n : ℕ) (bs : List B) → bs ≢ [] → peek_at e n bs ≡ peeked (take n bs)
  peek_some e n [] h = absurd (h refl)
  peek_some true n (b ∷ bs) h = refl
  peek_some false n (b ∷ bs) h = refl

  pub plain_laws : SocketLaws (plain)
  plain_laws = record {
    poll_peek_bytes = λ n s h. peek_some s.1 n s.0 h;
    poll_peek_ended = λ n s h e. rw (h, e) refl;
    poll_peek_waits = λ n s h e. rw (h, e) refl;
    try_read_bytes = λ n s h. refl;
    bytes-try_read = λ n s h. refl;
    ended-try_read = λ n s. refl;
  }

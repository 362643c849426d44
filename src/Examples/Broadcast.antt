-- ===== src/Examples/Broadcast.antt =====
-- examples/multi_tcp_world.rs: the actor that hands what one client says on to every client. What its
-- anonymous tasks have to write is kept in the actor, a task for each message, with the writers that the
-- task was given, under their numbers; the type of the writers is a parameter, as is the byte.
pub mod Delivered
use tokactor.Common.{
  ℕ, ◌≡◌, refl, sym, ap, ◌∙◌, Bool, true, false, Option, none, some, List, [], ◌∷◌, ◌++◌,
  append_assoc, append-nil, map, if◌then◌else◌, ◌==◌, inl, inr, Bool-cases, arith,
}
use tokactor.Message.{SendMessage, envelope, enclose, non_blocking}
use tokactor.Actor.{Actor, defaults, Command, anonymous_task}

-- `HashMap<usize, Writer>`, an entry for each key
module _ {Wr : Type 0} where
  unfoldable pub entries : ℕ → List (ℕ × Wr) → List Wr
  entries i [] = []
  entries i ((j, w) ∷ l) = let rest = entries i l in if i == j then w ∷ rest else rest

  unfoldable pub remove : ℕ → List (ℕ × Wr) → List (ℕ × Wr)
  remove i [] = []
  remove i ((j, w) ∷ l) = let rest = remove i l in if i == j then rest else (j, w) ∷ rest

  unfoldable pub insert : ℕ → Wr → List (ℕ × Wr) → List (ℕ × Wr)
  insert i w l = remove i l ++ (i, w) ∷ []

  entries-append : (i : ℕ) (k l : List (ℕ × Wr)) → entries i (k ++ l) ≡ entries i k ++ entries i l
  unfolding entries
  entries-append i [] l = refl
  entries-append i ((j, w) ∷ k) l = elim (Bool-cases (i == j)) [
    | inl same ↦ rw same (ap (λ r. w ∷ r) (entries-append i k l))
    | inr other ↦ rw other (entries-append i k l)
  ]

  pub entries-remove :
      (i j : ℕ) (l : List (ℕ × Wr)) → entries i (remove j l) ≡ (if i == j then [] else entries i l)
  unfolding entries remove
  entries-remove i j [] = ground arith
  entries-remove i j ((k, w) ∷ l) = grind (arith, entries-remove i j l)

  pub entries-insert :
      (i j : ℕ) (w : Wr) (l : List (ℕ × Wr))
      → entries i (insert j w l) ≡ (if i == j then w ∷ [] else entries i l)
  unfolding insert entries
  entries-insert i j w l =
      entries-append i (remove j l) ((j, w) ∷ [])
      ∙ ap (λ r. r ++ entries i ((j, w) ∷ [])) (entries-remove i j l)
      ∙ last
    where
      last :
          (if i == j then [] else entries i l) ++ entries i ((j, w) ∷ [])
          ≡ (if i == j then w ∷ [] else entries i l)
      last = elim (Bool-cases (i == j)) [
        | inl same ↦ rw same refl
        | inr other ↦ rw other (append-nil (entries i l))
      ]

-- `(usize, Writer)`, `Vec<u8>` and `usize`
pub data Note (B Wr : Type 0) : Type 0 where
  joins : ℕ → Wr → Note B Wr
  says : List B → Note B Wr
  leaves : ℕ → Note B Wr

pub record Broadcaster (B Wr : Type 0) : Type 0 where
  pub clients : List (ℕ × Wr)
  -- what the anonymous tasks were given to write, and to whom, oldest first
  pub tasks : List (List (ℕ × Wr) × List B)

module _ {B Wr : Type 0} where
  -- The three handlers
  unfoldable pub on_note : Note B Wr → Broadcaster B Wr → Option (Broadcaster B Wr × List Command)
  on_note (joins i w) b = some (record b { clients = insert i w b.clients }, [])
  on_note (says m) b =
      some (record b { tasks = b.tasks ++ (b.clients, m) ∷ [] }, anonymous_task ∷ [])
  on_note (leaves i) b = some (record b { clients = remove i b.clients }, [])

  -- `Broadcaster`, which leaves the rest of `Actor` as it is, on a machine of 64 bits
  abbrev pub broadcaster : Actor (Broadcaster B Wr) (Note B Wr) (Unit {0})
  broadcaster = record defaults { handle = on_note }

-- ===== src/Common.antt =====
-- Names that every module shares: the libraries', passed on, the Boolean tests on native numbers,
-- lists measured by native numbers, and the results of code that can panic or block for good.
pub use Prim.Native.Nat.{ℕ, zero, suc, ◌+◌, ◌-◌, ◌*◌, ◌/◌, ◌%◌, ◌^◌, ◌≤◌, ◌<◌, min}
pub use mathlib.Core.Path.{◌≡◌, refl, sym, ap, subst, ◌∙◌}
pub use mathlib.Core.Logic.{◌≢◌, ◌↔◌, ◌⊎◌, inl, inr}
pub use mathlib.Core.Bool.{Bool, true, false, not, ◌&&◌, ◌||◌}
pub use mathlib.Core.Option.{Option, none, some}
pub use mathlib.Core.List.{List, [], ◌∷◌, ◌++◌, map, append_assoc, append-nil}
pub use native.Mathlib.Omega.{arith}
use Prim.Native.Nat.{compare, Ordering}

abbrev pub ltb : ℕ → ℕ → Bool
ltb a b = elim (compare a b) [ Ordering.lt ↦ true | _ ↦ false ]

infix 50 ◌==◌
abbrev pub ◌==◌ : ℕ → ℕ → Bool
a == b = elim (compare a b) [ Ordering.eq ↦ true | _ ↦ false ]

infix 1 if◌then◌else◌
abbrev pub if◌then◌else◌ {ℓ} : {A : Type ℓ} → Bool → A → A → A
if true then x else y = x
if false then x else y = y

pub Bool-cases : (b : Bool) → (b ≡ true) ⊎ (b ≡ false)
Bool-cases true = inl refl
Bool-cases false = inr refl

module _ {ℓ} {A : Type ℓ} where
  abbrev pub length : List A → ℕ
  length [] = 0
  length (x ∷ xs) = suc (length xs)

  abbrev pub get_elem? : List A → ℕ → Option A
  get_elem? [] i = none
  get_elem? (x ∷ xs) zero = some x
  get_elem? (x ∷ xs) (suc i) = get_elem? xs i

  abbrev pub take : ℕ → List A → List A
  take zero xs = []
  take (suc n) [] = []
  take (suc n) (x ∷ xs) = x ∷ take n xs

  abbrev pub drop : ℕ → List A → List A
  drop zero xs = xs
  drop (suc n) [] = []
  drop (suc n) (x ∷ xs) = drop n xs

  abbrev pub replicate : ℕ → A → List A
  replicate zero a = []
  replicate (suc n) a = a ∷ replicate n a

  pub length-append : (xs ys : List A) → length (xs ++ ys) ≡ length xs + length ys
  length-append [] ys = omega arith
  length-append (x ∷ xs) ys = omega (arith, length-append xs ys)

  pub take-append-drop : (n : ℕ) (xs : List A) → take n xs ++ drop n xs ≡ xs
  take-append-drop zero xs = refl
  take-append-drop (suc n) [] = refl
  take-append-drop (suc n) (x ∷ xs) = ap (λ l. x ∷ l) (take-append-drop n xs)

  pub length-take : (n : ℕ) (xs : List A) → length (take n xs) ≡ min n (length xs)
  length-take zero xs = omega arith
  length-take (suc n) [] = omega arith
  length-take (suc n) (x ∷ xs) = omega (arith, length-take n xs)

  pub length-drop : (n : ℕ) (xs : List A) → length (drop n xs) ≡ length xs - n
  length-drop zero xs = omega arith
  length-drop (suc n) [] = omega arith
  length-drop (suc n) (x ∷ xs) = omega (arith, length-drop n xs)

  pub take_nil : (n : ℕ) → take n [] ≡ []
  take_nil zero = refl
  take_nil (suc n) = refl

  pub take-length_append : (xs ys : List A) → take (length xs) (xs ++ ys) ≡ xs
  take-length_append [] ys = refl
  take-length_append (x ∷ xs) ys = ap (λ l. x ∷ l) (take-length_append xs ys)

  pub take-length-take : (n : ℕ) (xs : List A) → take (length (take n xs)) xs ≡ take n xs
  take-length-take zero xs = refl
  take-length-take (suc n) [] = refl
  take-length-take (suc n) (x ∷ xs) = ap (λ l. x ∷ l) (take-length-take n xs)

  pub drop-length-take : (n : ℕ) (xs : List A) → drop (length (take n xs)) xs ≡ drop n xs
  drop-length-take zero xs = refl
  drop-length-take (suc n) [] = refl
  drop-length-take (suc n) (x ∷ xs) = drop-length-take n xs

  pub length-ne-zero : (xs : List A) → xs ≢ [] → 0 < length xs
  length-ne-zero [] h = absurd (h refl)
  length-ne-zero (x ∷ xs) h = omega arith

  pub length-replicate : (n : ℕ) (a : A) → length (replicate n a) ≡ n
  length-replicate zero a = refl
  length-replicate (suc n) a = ap suc (length-replicate n a)

  pub Nil-cases : (xs : List A) → (xs ≡ []) ⊎ (xs ≢ [])
  Nil-cases [] = inl refl
  Nil-cases (x ∷ xs) = inr (λ e. cc)

  pub Option-cases : (o : Option A) → (o ≡ none) ⊎ ((a : A) × (o ≡ some a))
  Option-cases none = inl refl
  Option-cases (some a) = inr (a, refl)

-- The elements of the first list stand in the second, in the same order.
pub data Sublist {ℓ} {A : Type ℓ} : List A → List A → Type ℓ where
  done : Sublist [] []
  skip : {y : A} {xs ys : List A} → Sublist xs ys → Sublist xs (y ∷ ys)
  keep : {y : A} {xs ys : List A} → Sublist xs ys → Sublist (y ∷ xs) (y ∷ ys)

module _ {ℓ} {A : Type ℓ} where
  pub Sublist-grows : (y : A) (xs ys : List A) → Sublist xs ys → Sublist xs (ys ++ y ∷ [])
  Sublist-grows y [] [] done = skip done
  Sublist-grows y (x ∷ xs) [] s = elim s [ ]
  Sublist-grows y xs (z ∷ ys) (skip s) = skip (Sublist-grows y xs ys s)
  Sublist-grows y (x ∷ xs) (z ∷ ys) (keep s) = keep (Sublist-grows y xs ys s)

  pub Sublist-append_last :
      (y : A) (xs ys : List A) → Sublist xs ys → Sublist (xs ++ y ∷ []) (ys ++ y ∷ [])
  Sublist-append_last y [] [] done = keep done
  Sublist-append_last y (x ∷ xs) [] s = elim s [ ]
  Sublist-append_last y xs (z ∷ ys) (skip s) = skip (Sublist-append_last y xs ys s)
  Sublist-append_last y (x ∷ xs) (z ∷ ys) (keep s) = keep (Sublist-append_last y xs ys s)

  pub Sublist-nil : (ys : List A) → Sublist [] ys
  Sublist-nil [] = done
  Sublist-nil (y ∷ ys) = skip (Sublist-nil ys)

-- What a piece of code comes to: a value, a panic, or an await that cannot end as things stand.
pub data Flow {ℓ} (A : Type ℓ) : Type ℓ where
  ok : A → Flow A
  panicked : Flow A
  blocked : Flow A

module _ {ℓ κ} {X : Type ℓ} {Y : Type κ} where
  -- The rest of the code runs on a value only.
  infixl 5 ◌>>=◌
  abbrev pub ◌>>=◌ : Flow X → (X → Flow Y) → Flow Y
  panicked >>= rest = panicked
  blocked >>= rest = blocked
  ok x >>= rest = rest x

  pub >>=-eq-ok :
      (code : Flow X) (rest : X → Flow Y) {y : Y}
      → code >>= rest ≡ ok y
      → (x : X) × (code ≡ ok x) × (rest x ≡ ok y)
  >>=-eq-ok panicked rest came = cc
  >>=-eq-ok blocked rest came = cc
  >>=-eq-ok (ok x) rest came = (x, refl, came)

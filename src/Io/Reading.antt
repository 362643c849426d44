-- ===== src/Io/Reading.antt =====
-- What the reader actor of src/io/mod.rs answers over a schedule of its awaits.
use tokactor.Common.{
  ℕ, ◌≡◌, refl, ◌⊎◌, inl, inr, Option, none, some, List, [], ◌∷◌, ◌++◌, map, Sublist, done, skip,
  keep,
}
use tokactor.Tokio.{shutdown}
use tokactor.Address.{fine, failed}
use tokactor.Io.{
  notified, supervisor_gone, told_to_stop, completes, supervisor, after_recv, ReaderEvent,
  awaits_request, awaits_frame, ReaderState, idle, reading, left, reader_step, reader_run,
}

-- The channels of the requests that a schedule brings.
abbrev pub requested : {F E : Type 0} → List (ReaderEvent F E) → List ℕ
requested [] = []
requested (awaits_request (completes (some (frame, tx))) ∷ es) = tx ∷ requested es
requested (e ∷ es) = requested es

-- The channels that wait for an answer in a state.
abbrev pub unanswered : {P : Type 0} → ReaderState P → List ℕ
unanswered (reading p tx) = tx ∷ []
unanswered idle = []
unanswered left = []

-- An await of a request that makes the reader leave.
pub data Leaves {F E : Type 0} : ReaderEvent F E → Type 0 where
  closed : Leaves (awaits_request (completes none))
  stopped : Leaves (awaits_request (notified (some shutdown)))
  gone : Leaves (awaits_request supervisor_gone)
  told : Leaves (awaits_request told_to_stop)

pub data Any {A : Type 0} (Q : A → Type 0) : List A → Type 0 where
  here : {x : A} {xs : List A} → Q x → Any Q (x ∷ xs)
  there : {x : A} {xs : List A} → Any Q xs → Any Q (x ∷ xs)

-- A request is made of the frames, by the last of them and not before.
pub data Assembles {F P Q : Type 0} (recv : P → F → P × Option Q) : P → List F → Q → Type 0 where
  last : {p p' : P} {f : F} {q : Q} → recv p f ≡ (p', some q) → Assembles recv p (f ∷ []) q
  more :
      {p p' : P} {f : F} {fs : List F} {q : Q}
      → recv p f ≡ (p', none)
      → Assembles recv p' fs q
      → Assembles recv p (f ∷ fs) q

abbrev pub arriving : {F E : Type 0} → List F → List (ReaderEvent F E)
arriving [] = []
arriving (f ∷ fs) = awaits_frame (completes (fine (some f))) ∷ arriving fs

abbrev pub channels : {Q : Type 0} → List (ℕ × Q) → List ℕ
channels = map (λ r. r.0)

skip_request :
    {F E : Type 0} (e : ReaderEvent F E) (es : List (ReaderEvent F E)) {xs : List ℕ}
    → Sublist xs (requested es)
    → Sublist xs (requested (e ∷ es))
skip_request (awaits_frame a) es h = h
skip_request (awaits_request (completes (some (frame, tx)))) es h = skip h
skip_request (awaits_request (completes none)) es h = h
skip_request (awaits_request (notified n)) es h = h
skip_request (awaits_request supervisor_gone) es h = h
skip_request (awaits_request told_to_stop) es h = h

skip_request_in :
    {F E : Type 0} (tx : ℕ) (e : ReaderEvent F E) (es : List (ReaderEvent F E)) {xs : List ℕ}
    → Sublist xs (tx ∷ requested es)
    → Sublist xs (tx ∷ requested (e ∷ es))
skip_request_in tx e es (skip h) = skip (skip_request e es h)
skip_request_in tx e es (keep h) = keep (skip_request e es h)

module _ {F E P Q : Type 0} (start : P) (recv : P → F → P × Option Q) where
  abbrev pub run : ReaderState P → List (ReaderEvent F E) → List (ℕ × Q) × ReaderState P
  run = reader_run start recv

  frames_lem :
      (p : P) (tx : ℕ) (fs : List F) (q : Q) (es : List (ReaderEvent F E))
      → Assembles recv p fs q
      → run (reading p tx) (arriving fs ++ es) ≡ ((tx, q) ∷ (run idle es).0, (run idle es).1)
  unfolding reader_run reader_step supervisor
  frames_lem p tx [] q es x = elim x [ ]
  frames_lem p tx (f ∷ []) q es (last h) = simp h
  frames_lem p tx (f ∷ fs) q es (more {p' = p'} h a) = simp (h, frames_lem p' tx fs q es a)

  -- A request whose frames arrive one after another is answered, once and on its own channel, with
  -- what its payload makes of them, and the reader goes on with the rest of the schedule.
  pub reader_run_lem :
      (frame : F) (tx : ℕ) (fs : List F) (q : Q) (es : List (ReaderEvent F E))
      → Assembles recv start fs q
      → run idle (awaits_request (completes (some (frame, tx))) ∷ arriving fs ++ es)
        ≡ ((tx, q) ∷ (run idle es).0, (run idle es).1)
  unfolding reader_run reader_step supervisor
  reader_run_lem frame tx fs q es a = frames_lem start tx fs q es a

  step-Sublist :
      (s : ReaderState P) (e : ReaderEvent F E) (es : List (ReaderEvent F E)) (rest : List (ℕ × Q))
      → Sublist (channels rest) (unanswered (reader_step start recv s e).0 ++ requested es)
      → Sublist
          (channels ((reader_step start recv s e).1 ++ rest))
          (unanswered s ++ requested (e ∷ es))
  unfolding reader_step supervisor
  step-Sublist left e es rest h = skip_request e es h
  step-Sublist idle (awaits_frame a) es rest h = h
  step-Sublist idle (awaits_request (completes (some (frame, tx)))) es rest h = h
  step-Sublist idle (awaits_request (completes none)) es rest h = h
  step-Sublist idle (awaits_request (notified none)) es rest h = h
  step-Sublist idle (awaits_request (notified (some shutdown))) es rest h = h
  step-Sublist idle (awaits_request supervisor_gone) es rest h = h
  step-Sublist idle (awaits_request told_to_stop) es rest h = h
  step-Sublist (reading p tx) (awaits_request a) es rest h =
      skip_request_in tx (awaits_request a) es h
  step-Sublist (reading p tx) (awaits_frame (completes (fine none))) es rest h = skip h
  step-Sublist (reading p tx) (awaits_frame (completes (failed e))) es rest h = skip h
  step-Sublist (reading p tx) (awaits_frame (notified none)) es rest h = h
  step-Sublist (reading p tx) (awaits_frame (notified (some shutdown))) es rest h = skip h
  step-Sublist (reading p tx) (awaits_frame supervisor_gone) es rest h = skip h
  step-Sublist (reading p tx) (awaits_frame told_to_stop) es rest h = skip h
  step-Sublist (reading p tx) (awaits_frame (completes (fine (some f)))) es rest h =
      after (recv p f) h
    where
      after :
          (r : P × Option Q)
          → Sublist (channels rest) (unanswered (after_recv tx r).0 ++ requested es)
          → Sublist (channels ((after_recv tx r).1 ++ rest)) (tx ∷ requested es)
      after (p', none) h = h
      after (p', some q) h = keep h

  abbrev the_frame : F → ReaderEvent F E
  the_frame f = awaits_frame (completes (fine (some f)))

  step-left :
      (s : ReaderState P) (e : ReaderEvent F E)
      → (reader_step start recv s e).0 ≡ left
      → (s ≡ left) ⊎ Leaves e
  unfolding reader_step supervisor
  step-left left e h = inl refl
  step-left idle (awaits_frame a) h = inl h
  step-left idle (awaits_request (completes (some (frame, tx)))) h = cc
  step-left idle (awaits_request (completes none)) h = inr closed
  step-left idle (awaits_request (notified none)) h = inl h
  step-left idle (awaits_request (notified (some shutdown))) h = inr stopped
  step-left idle (awaits_request supervisor_gone) h = inr gone
  step-left idle (awaits_request told_to_stop) h = inr told
  step-left (reading p tx) (awaits_request a) h = inl h
  step-left (reading p tx) (awaits_frame (completes (fine none))) h = cc
  step-left (reading p tx) (awaits_frame (completes (failed e))) h = cc
  step-left (reading p tx) (awaits_frame (notified none)) h = cc
  step-left (reading p tx) (awaits_frame (notified (some shutdown))) h = cc
  step-left (reading p tx) (awaits_frame supervisor_gone) h = cc
  step-left (reading p tx) (awaits_frame told_to_stop) h = cc
  step-left (reading p tx) (awaits_frame (completes (fine (some f)))) h = after (recv p f) h
    where
      after :
          (r : P × Option Q)
          → (after_recv tx r).0 ≡ left
          → (reading p tx ≡ left) ⊎ Leaves (the_frame f)
      after (p', none) h = cc
      after (p', some q) h = cc

  -- Over any schedule, the answers go to channels that the requests brought, in the order of the
  -- requests and at most one to each, after the one that is being read for.
  reader_run-Sublist :
      (es : List (ReaderEvent F E)) (s : ReaderState P)
      → Sublist (channels (run s es).0) (unanswered s ++ requested es)
  unfolding reader_run
  reader_run-Sublist [] left = done
  reader_run-Sublist [] idle = done
  reader_run-Sublist [] (reading p tx) = skip done
  reader_run-Sublist (e ∷ es) s = step-Sublist s e es _ (reader_run-Sublist es _)

  -- The reader stops only at an await of a request: told, left by its supervisor or by all who can
  -- ask. What happens inside a read, a message to stop included, does not stop it.
  pub reader_run-left :
      (es : List (ReaderEvent F E)) (s : ReaderState P)
      → (run s es).1 ≡ left
      → (s ≡ left) ⊎ Any Leaves es
  unfolding reader_run
  reader_run-left [] s h = inl h
  reader_run-left (e ∷ es) s h = elim (reader_run-left es _ h) [
    | inl e' ↦ elim (step-left s e e') [ inl e'' ↦ inl e'' | inr l ↦ inr (here l) ]
    | inr l ↦ inr (there l)
  ]

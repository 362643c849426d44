-- ===== src/Examples/Http/Framing.antt =====
-- examples/http_world.rs over src/io/mod.rs: a request does not depend on the frames that it comes in.
use tokactor.Common.{
  ℕ, ◌≡◌, refl, sym, ap, ◌∙◌, Option, none, some, List, [], ◌∷◌, ◌++◌, append_assoc, append-nil, ok,
}
use tokactor.Io.{completes, awaits_request, ReaderEvent, idle, reader_run}
use tokactor.Io.Frame.{Read, as_slice}
use tokactor.Io.Frames.{concat}
use tokactor.Io.Reading.{Assembles, arriving, reader_run_lem}
use tokactor.Io.Reading
use tokactor.Examples.Http.{Parsed, complete, partial, invalid, ParserLaws, recv, recv_quiet}

-- Frames that were filled with these bytes.
pub data Carry {B : Type 0} : List (Read B) → List (List B) → Type 0 where
  nothing : Carry [] []
  then_ :
      {f : Read B} {fs : List (Read B)} {bs : List B} {bss : List (List B)}
      → as_slice f ≡ ok bs
      → Carry fs bss
      → Carry (f ∷ fs) (bs ∷ bss)

module _ {B Rq Q : Type 0} (parse : List B → Parsed Rq) (build : Rq → Option Q)
    (laws : ParserLaws parse) where
  -- `recv` on these frames, one after another, never panics, and makes the request on the last.
  pub data Gathers : List B → List (Read B) → Q → Type 0 where
    last :
        {bytes all : List B} {f : Read B} {q : Q}
        → recv parse build bytes f ≡ ok (all, some q)
        → Gathers bytes (f ∷ []) q
    more :
        {bytes all : List B} {f : Read B} {fs : List (Read B)} {q : Q}
        → recv parse build bytes f ≡ ok (all, none)
        → Gathers all fs q
        → Gathers bytes (f ∷ fs) q

  recv_settled :
      (bytes : List B) (f : Read B) (p : List B × Option Q)
      → recv parse build bytes f ≡ ok p
      → recv_quiet parse build bytes f ≡ p
  recv_settled bytes f p h = rw h refl

  Gathers-Assembles :
      {bytes : List B} {fs : List (Read B)} {q : Q}
      → Gathers bytes fs q
      → Assembles (recv_quiet parse build) bytes fs q
  Gathers-Assembles (last h) = Reading.last (recv_settled _ _ _ h)
  Gathers-Assembles (more h g) = Reading.more (recv_settled _ _ _ h) (Gathers-Assembles g)

  recv_complete :
      (bytes bs : List B) (f : Read B) (r : Rq) (q : Q)
      → as_slice f ≡ ok bs
      → parse (bytes ++ bs) ≡ complete r
      → build r ≡ some q
      → recv parse build bytes f ≡ ok (bytes ++ bs, some q)
  unfolding recv
  recv_complete bytes bs f r q e h b = rw (e, h, b) refl

  recv_partial :
      (bytes bs : List B) (f : Read B)
      → as_slice f ≡ ok bs
      → parse (bytes ++ bs) ≡ partial
      → recv parse build bytes f ≡ ok (bytes ++ bs, none)
  unfolding recv
  recv_partial bytes bs f e h = rw (e, h) refl

  -- The first of the frames make the request.
  abbrev Made : List B → List (Read B) → Q → Type 0
  Made bytes fs q =
      (gs : List (Read B)) × (hs : List (Read B)) × (fs ≡ gs ++ hs) × Gathers bytes gs q

  made :
      (bytes : List B) (fs : List (Read B)) (bss : List (List B)) (r : Rq) (q : Q)
      → Carry fs bss
      → parse bytes ≡ partial
      → parse (bytes ++ concat bss) ≡ complete r
      → build r ≡ some q
      → Made bytes fs q
  made bytes [] [] r q nothing p h b = cc (sym p ∙ ap parse (sym (append-nil bytes)) ∙ h)
  made bytes [] (bs ∷ bss) r q c p h b = elim c [ ]
  made bytes (f ∷ fs) [] r q c p h b = elim c [ ]
  made bytes (f ∷ fs) (bs ∷ bss) r q (then_ e c) p h b =
      one (parse (bytes ++ bs)) refl (made (bytes ++ bs) fs bss r q c)
    where
      whole : parse ((bytes ++ bs) ++ concat bss) ≡ complete r
      whole = ap parse (append_assoc bytes bs (concat bss)) ∙ h

      one :
          (s : Parsed Rq)
          → parse (bytes ++ bs) ≡ s
          → (parse (bytes ++ bs) ≡ partial
              → parse ((bytes ++ bs) ++ concat bss) ≡ complete r
              → build r ≡ some q
              → Made (bytes ++ bs) fs q)
          → Made bytes (f ∷ fs) q
      one (complete r') s rest =
          let same : r' ≡ r =
            cc (sym (laws.parse_complete (bytes ++ bs) (concat bss) r' s) ∙ whole) in
          (f ∷ [], fs, refl, last (recv_complete bytes bs f r' q e s (ap build same ∙ b)))
      one partial s rest =
          let (gs, hs, split, a) = rest s whole b in
          (f ∷ gs, hs, ap (λ l. f ∷ l) split, more (recv_partial bytes bs f e s) a)
      one invalid s rest = cc (sym (laws.parse_invalid (bytes ++ bs) (concat bss) s) ∙ whole)

  -- Bytes which parse as a request that can be built come in frames, divided between them in whatever
  -- way. Then the reader actor answers the question for a request with this request, whatever the
  -- division: it reads the first of the frames, none of the others, without a panic of `recv`, answers
  -- once on the question's channel, and goes on with the next question.
  pub reader_run-framed :
      {E : Type 0} (fs : List (Read B)) (bss : List (List B)) (r : Rq) (q : Q)
      → Carry fs bss
      → parse (concat bss) ≡ complete r
      → build r ≡ some q
      → (gs : List (Read B)) × (hs : List (Read B)) × (fs ≡ gs ++ hs)
        × Gathers [] gs q
        × ((frame : Read B) (tx : ℕ) (es : List (ReaderEvent (Read B) E))
            → reader_run []
                (recv_quiet parse build)
                idle
                (awaits_request (completes (some (frame, tx))) ∷ arriving gs ++ es)
              ≡ (
                (tx, q) ∷ (reader_run [] (recv_quiet parse build) idle es).0,
                (reader_run [] (recv_quiet parse build) idle es).1,
              ))
  reader_run-framed fs bss r q c h b =
      let (gs, hs, split, g) = made [] fs bss r q c laws.parse_empty h b in
      (
        gs,
        hs,
        split,
        g,
        λ frame tx es.
            reader_run_lem [] (recv_quiet parse build) frame tx gs q es (Gathers-Assembles g),
      )

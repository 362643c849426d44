-- ===== src/Tests/Framed.antt =====
-- An example for the theorem on requests in frames, with a parser for which a request is a byte 10 and
-- what stands before it.
use tokactor.Common.{
  ℕ, ◌≡◌, refl, some, List, [], ◌∷◌, ◌++◌, ◌==◌, if◌then◌else◌, inl, inr, Bool-cases,
}
use tokactor.Io.{completes, awaits_request, ReaderEvent, idle, reader_run}
use tokactor.Io.Frame.{Read, as_slice}
use tokactor.Io.Reading.{arriving}
use tokactor.Examples.Http.{Parsed, complete, partial, invalid, ParserLaws, recv_quiet}
use tokactor.Examples.Http.Framing.{nothing, then_, Gathers, reader_run-framed}

-- A line, which may not begin with a byte 0.
abbrev line_from : ℕ → Parsed ℕ → Parsed ℕ
line_from b rest = if b == 10 then complete 1 else if b == 0 then invalid else rest

abbrev parse : List ℕ → Parsed ℕ
parse [] = partial
parse (b ∷ bs) = line_from b (parse bs)

line_from-complete :
    (b : ℕ) (p q : Parsed ℕ) (r : ℕ)
    → (p ≡ complete r → q ≡ complete r)
    → line_from b p ≡ complete r
    → line_from b q ≡ complete r
line_from-complete b p q r f h = elim (Bool-cases (b == 10)) [
  | inl newline ↦ rw newline (rw newline at h)
  | inr other ↦ elim (Bool-cases (b == 0)) [
    | inl zero_byte ↦ cc (rw (other, zero_byte) at h)
    | inr fine_ ↦ rw (other, fine_) (f (rw (other, fine_) at h))
  ]
]

line_from-invalid :
    (b : ℕ) (p q : Parsed ℕ)
    → (p ≡ invalid → q ≡ invalid)
    → line_from b p ≡ invalid
    → line_from b q ≡ invalid
line_from-invalid b p q f h = elim (Bool-cases (b == 10)) [
  | inl newline ↦ cc (rw newline at h)
  | inr other ↦ elim (Bool-cases (b == 0)) [
    | inl zero_byte ↦ rw (other, zero_byte) refl
    | inr fine_ ↦ rw (other, fine_) (f (rw (other, fine_) at h))
  ]
]

grows_complete : (bs cs : List ℕ) (r : ℕ) → parse bs ≡ complete r → parse (bs ++ cs) ≡ complete r
grows_complete [] cs r h = cc h
grows_complete (b ∷ bs) cs r h =
    line_from-complete b (parse bs) (parse (bs ++ cs)) r (grows_complete bs cs r) h

grows_invalid : (bs cs : List ℕ) → parse bs ≡ invalid → parse (bs ++ cs) ≡ invalid
grows_invalid [] cs h = cc h
grows_invalid (b ∷ bs) cs h =
    line_from-invalid b (parse bs) (parse (bs ++ cs)) (grows_invalid bs cs) h

parser_laws : ParserLaws parse
parser_laws = record {
  parse_empty = refl;
  parse_complete = grows_complete;
  parse_invalid = grows_invalid;
}

abbrev frame_of : List ℕ → ℕ → Read ℕ
frame_of buffer n = record { buffer = buffer; read_len = n }

-- Three frames; the second ends the request, with a byte of the next one behind it.
abbrev three : List (Read ℕ)
three =
    frame_of (71 ∷ 69 ∷ 0 ∷ []) 2
    ∷ frame_of (84 ∷ 10 ∷ 80 ∷ []) 3
    ∷ frame_of (79 ∷ 69 ∷ 80 ∷ []) 1
    ∷ []

reader_run-framed_example :
    (gs : List (Read ℕ)) × (hs : List (Read ℕ)) × (three ≡ gs ++ hs)
    × Gathers parse (λ r. some r) parser_laws [] gs 1
    × ((frame : Read ℕ) (tx : ℕ) (es : List (ReaderEvent (Read ℕ) ℕ))
        → reader_run []
            (recv_quiet parse (λ r. some r))
            idle
            (awaits_request (completes (some (frame, tx))) ∷ arriving gs ++ es)
          ≡ (
            (tx, 1) ∷ (reader_run [] (recv_quiet parse (λ r. some r)) idle es).0,
            (reader_run [] (recv_quiet parse (λ r. some r)) idle es).1,
          ))
unfolding as_slice
reader_run-framed_example =
    reader_run-framed parse (λ r. some r) parser_laws three
      ((71 ∷ 69 ∷ []) ∷ (84 ∷ 10 ∷ 80 ∷ []) ∷ (79 ∷ []) ∷ []) 1 1
      (then_ refl (then_ refl (then_ refl nothing))) refl refl

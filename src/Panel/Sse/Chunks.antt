-- ===== src/Panel/Sse/Chunks.antt =====
-- How a stream is cut into chunks makes no difference, unless it is cut behind a carriage return.
use cap_rail.Panel.Sse.{
  CodeUnits, Fields, SseFrame, SseParser, first_line, line_of, push, read_lines, skip_lf,
  with_frame,
}
use cap_rail.Prelude.{
  Bool, Bool-cases, List, Option, Option-cases, ℕ, [], ap, arith, false, inl, inr, length,
  length-append, none, refl, some, suc, sym, true, zero, ◌++◌, ◌<◌, ◌==◌, ◌∙◌, ◌∷◌, ◌≡◌, ◌≤◌,
}
use mathlib.Core.List.{append_assoc}
use mathlib.Core.Path.{subst}
use mathlib.Core.Option

abbrev pub ends_cr : CodeUnits → Bool
ends_cr [] = false
ends_cr (c ∷ []) = c == 13
ends_cr (c ∷ d ∷ text) = ends_cr (d ∷ text)

ends_cr-tail : (c : ℕ) (text : CodeUnits) → ends_cr (c ∷ text) ≡ false → ends_cr text ≡ false
ends_cr-tail c [] h = refl
ends_cr-tail c (d ∷ text) h = h

skip_lf-append :
    (text b : CodeUnits)
    → (ends : ℕ) → (ends == 13) ≡ true
    → ends_cr (ends ∷ text) ≡ false
    → (skip_lf (text ++ b) ≡ skip_lf text ++ b) × (ends_cr (skip_lf text) ≡ false)
skip_lf-append [] b ends q h = ground (arith, h)
skip_lf-append (c ∷ text) b ends q h = elim (Bool-cases (c == 10)) [
  | inl e ↦ rw e (refl, ends_cr-tail c text h)
  | inr e ↦ rw e (refl, h)
]

length-skip_lf : (text : CodeUnits) → length (skip_lf text) ≤ length text
length-skip_lf [] = omega arith
length-skip_lf (c ∷ text) = ground arith

-- A line that is found, found again in front of more text.
abbrev Found : CodeUnits → CodeUnits → CodeUnits → CodeUnits → Type 0
Found a b line rest =
    (first_line (a ++ b) ≡ some (line, rest ++ b))
    × (ends_cr rest ≡ false)
    × (length rest < length a)

abbrev FoundIn : CodeUnits → CodeUnits → Option (CodeUnits × CodeUnits) → Type 0
FoundIn a b none = Unit
FoundIn a b (some (line, rest)) = Found a b line rest

found_behind :
    (c : ℕ) (text b : CodeUnits) (o : Option (CodeUnits × CodeUnits))
    → (c == 10) ≡ false
    → (c == 13) ≡ false
    → FoundIn text b o
    → FoundIn (c ∷ text) b (Option.map (λ found. let (line, rest) = found in (c ∷ line, rest)) o)
found_behind c text b none e q h = tt
found_behind c text b (some (line, rest)) e q (f, h, s) = rw (e, q, f) (refl, h, omega (arith, s))

found_in : (a b : CodeUnits) → ends_cr a ≡ false → FoundIn a b (first_line a)
found_in [] b h = tt
found_in (c ∷ text) b h = elim (Bool-cases (c == 10)) [
  | inl e ↦ rw e (rw e refl, ends_cr-tail c text h, omega arith)
  | inr e ↦ elim (Bool-cases (c == 13)) [
    | inl q ↦
        let (same, open_) = skip_lf-append text b c q h in
        rw (e, q)
          (rw (e, q) (ap (λ r. some ([], r)) same), open_, omega (arith, length-skip_lf text))
    | inr q ↦
        rw (e, q)
          (found_behind c text b (first_line text) e q (found_in text b (ends_cr-tail c text h)))
  ]
]

abbrev Shorter : ℕ → Option (CodeUnits × CodeUnits) → Type 0
Shorter n none = Unit
Shorter n (some (line, rest)) = length rest < n

rest_behind :
    (c n : ℕ) (o : Option (CodeUnits × CodeUnits))
    → Shorter n o
    → Shorter (suc n) (Option.map (λ found. let (line, rest) = found in (c ∷ line, rest)) o)
rest_behind c n none h = tt
rest_behind c n (some (line, rest)) h = omega (arith, h)

first_line-Shorter : (a : CodeUnits) → Shorter (length a) (first_line a)
first_line-Shorter [] = tt
first_line-Shorter (c ∷ text) = elim (Bool-cases (c == 10)) [
  | inl e ↦ rw e (omega arith)
  | inr e ↦ elim (Bool-cases (c == 13)) [
    | inl q ↦ rw (e, q) (omega (arith, length-skip_lf text))
    | inr q ↦ rw (e, q) (rest_behind c (length text) (first_line text) (first_line-Shorter text))
  ]
]

-- Fuel from the length on gives the same result.
read_lines-fuel :
    (fuel other : ℕ) (buffer : CodeUnits) (pending : Fields)
    → length buffer ≤ fuel
    → length buffer ≤ other
    → read_lines fuel buffer pending ≡ read_lines other buffer pending
unfolding read_lines
read_lines-fuel zero zero buffer pending l m = refl
read_lines-fuel zero (suc other) [] pending l m = refl
read_lines-fuel zero (suc other) (c ∷ buffer) pending l m = ground (arith, l)
read_lines-fuel (suc fuel) zero [] pending l m = refl
read_lines-fuel (suc fuel) zero (c ∷ buffer) pending l m = ground (arith, m)
read_lines-fuel (suc fuel) (suc other) buffer pending l m =
    elim (Option-cases (first_line buffer)) [
      | inl n ↦ rw (n, read_lines) refl
      | inr ((line, rest), g) ↦
          let less = subst (λ o. Shorter (length buffer) o) g (first_line-Shorter buffer) in
          let (frame, fields) = line_of line pending in
          rw
            (
              g,
              read_lines,
              read_lines-fuel fuel other rest fields (omega (arith, less, l))
                  (omega (arith, less, m)),
            )
            refl
    ]

-- What two chunks give one after the other.
abbrev pub both : List SseFrame × SseParser → CodeUnits → List SseFrame × SseParser
both (frames, parser) chunk = let (more, last) = push parser chunk in (frames ++ more, last)

abbrev after : Option SseFrame → List SseFrame × SseParser → List SseFrame × SseParser
after frame (frames, parser) = (with_frame frame frames, parser)

read_lines-step :
    (fuel : ℕ) (buffer line rest : CodeUnits) (pending : Fields)
    → first_line buffer ≡ some (line, rest)
    → read_lines (suc fuel) buffer pending
      ≡ (let (frame, fields) = line_of line pending in after frame (read_lines fuel rest fields))
unfolding read_lines
read_lines-step fuel buffer line rest pending g = rw (g, read_lines) refl

both-after :
    (frame : Option SseFrame) (result : List SseFrame × SseParser) (chunk : CodeUnits)
    → both (after frame result) chunk ≡ after frame (both result chunk)
both-after none result chunk = refl
both-after (some frame) result chunk = refl

-- Reading a text and then a chunk behind it is reading them as one text.
read_lines-append :
    (fuel : ℕ) (a b : CodeUnits) (pending : Fields)
    → length a ≤ fuel
    → ends_cr a ≡ false
    → both (read_lines fuel a pending) b ≡ read_lines (length (a ++ b)) (a ++ b) pending
unfolding read_lines push
read_lines-append zero a b pending l h = refl
read_lines-append (suc fuel) a b pending l h = elim (Option-cases (first_line a)) [
  | inl n ↦ rw (n, read_lines) refl
  | inr ((line, rest), g) ↦
      let (found, open_, less) = subst (λ o. FoundIn a b o) g (found_in a b h) in
      let (frame, fields) = line_of line pending in
      let shorter : length (rest ++ b) ≤ length (a ++ b) =
        omega (arith, less, length-append rest b, length-append a b) in
      ap (λ r. both r b) (read_lines-step fuel a line rest pending g)
      ∙ both-after frame (read_lines fuel rest fields) b
      ∙ ap (after frame) (
          read_lines-append fuel rest b fields (omega (arith, less, l)) open_
          ∙ read_lines-fuel (length (rest ++ b)) (length (a ++ b)) (rest ++ b) fields (omega arith)
              shorter)
      ∙ sym (read_lines-step (length (a ++ b)) (a ++ b) line (rest ++ b) pending found)
      ∙ read_lines-fuel (suc (length (a ++ b))) (length (a ++ b)) (a ++ b) pending (omega arith)
          (omega arith)
]

-- Unless what is buffered ends in a carriage return behind the first of two chunks, the parser gives the
-- same frames, in the same order, and is left in the same state, whether it gets the chunks one after the
-- other or as one.
pub push-append :
    (parser : SseParser) (a b : CodeUnits)
    → ends_cr (parser.buffer ++ a) ≡ false
    → both (push parser a) b ≡ push parser (a ++ b)
unfolding push
push-append parser a b h =
    read_lines-append (length (parser.buffer ++ a)) (parser.buffer ++ a) b parser.pending
      (omega arith) h
    ∙ ap (λ text. read_lines (length text) text parser.pending) (append_assoc parser.buffer a b)

-- ===== src/Panel/Sse/SplitEnd.antt =====
-- What the parser makes of a line end `\r\n` that is cut in two.
use cap_rail.Panel.Sse.{
  CodeUnits, Fields, SseFrame, SseParser, first_line, flush, message, no_fields, push, read_lines,
  skip_lf,
}
use cap_rail.Panel.Sse.Chunks.{both}
use cap_rail.Prelude.{
  Bool-cases, List, Option-cases, ℕ, [], ap, arith, drop, inl, inr, length, none, refl, some, suc,
  zero, ◌++◌, ◌==◌, ◌∷◌, ◌≡◌,
}

abbrev pub frames_of : List SseFrame × SseParser → List SseFrame
frames_of (frames, parser) = frames

-- `data: `
abbrev pub data_prefix : CodeUnits
data_prefix = b'd' ∷ b'a' ∷ b't' ∷ b'a' ∷ b':' ∷ b' ' ∷ []

abbrev pub message_frame : CodeUnits → SseFrame
message_frame value = record { event = message; payload = value; id = none }

line_end :
    (value rest : CodeUnits)
    → first_line value ≡ none
    → first_line (value ++ 13 ∷ rest) ≡ some (value, skip_lf rest)
line_end [] rest h = refl
line_end (c ∷ value) rest h = elim (Bool-cases (c == 10)) [
  | inl e ↦ ground (arith, e, h)
  | inr e ↦ elim (Bool-cases (c == 13)) [
    | inl q ↦ ground (arith, e, q, h)
    | inr q ↦ elim (Option-cases (first_line value)) [
      | inl n ↦ rw (e, q, line_end value rest n) refl
      | inr (found, g) ↦ ground (arith, e, q, g, h)
    ]
  ]
]

abbrev with_data : CodeUnits → Fields
with_data value = record { event = []; data_lines = value ∷ []; id = none }

read_none :
    (fuel : ℕ) (buffer : CodeUnits) (pending : Fields)
    → first_line buffer ≡ none
    → read_lines fuel buffer pending ≡ ([], record { buffer = buffer; pending = pending })
unfolding read_lines
read_none zero buffer pending h = refl
read_none (suc fuel) buffer pending h = rw (h, read_lines) refl

read_data :
    (fuel : ℕ) (value rest : CodeUnits)
    → first_line value ≡ none
    → first_line (skip_lf rest) ≡ none
    → read_lines (suc fuel) (data_prefix ++ (value ++ 13 ∷ rest)) no_fields
      ≡ ([], record { buffer = skip_lf rest; pending = with_data value })
unfolding read_lines
read_data fuel value rest h n =
    rw (line_end value rest h, read_lines) (read_none fuel (skip_lf rest) (with_data value) n)

push-data :
    (value rest : CodeUnits)
    → first_line value ≡ none
    → first_line (skip_lf rest) ≡ none
    → push flush (data_prefix ++ (value ++ 13 ∷ rest))
      ≡ ([], record { buffer = skip_lf rest; pending = with_data value })
unfolding push
push-data value rest h n =
    read_data (length (drop 1 (data_prefix ++ (value ++ 13 ∷ rest)))) value rest h n

-- A line of data ended by a carriage return and a line feed gives no frame yet when it arrives in one
-- chunk; when the chunk ends between the two, the line feed alone gives the frame, whatever the data, which
-- must have no line end in it.
pub push-split_end :
    (value : CodeUnits)
    → first_line value ≡ none
    → (frames_of (push flush (data_prefix ++ (value ++ 13 ∷ 10 ∷ []))) ≡ [])
      × (frames_of (both (push flush (data_prefix ++ (value ++ 13 ∷ []))) (10 ∷ []))
          ≡ message_frame value ∷ [])
unfolding push read_lines
push-split_end value h = (
  ap frames_of (push-data value (10 ∷ []) h refl),
  ap (λ r. frames_of (both r (10 ∷ []))) (push-data value [] h refl),
)

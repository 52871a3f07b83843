-- ===== src/Panel/Sse.antt =====
-- apps/web/src/api/sse.ts: createSseParser. A text is the list of its UTF-16 code units.
pub mod Chunks
pub mod SplitEnd
use cap_rail.Prelude.{
  Bool, List, Option, ℕ, [], false, if◌then◌else◌, length, none, some, suc, true, zero, ◌&&◌, ◌++◌,
  ◌==◌, ◌∷◌,
}
use mathlib.Core.Option

abbrev pub CodeUnits : Type 0
CodeUnits = List ℕ

-- `===` on texts.
abbrev pub equal_units : CodeUnits → CodeUnits → Bool
equal_units [] [] = true
equal_units (a ∷ as_) (b ∷ bs) = a == b && equal_units as_ bs
equal_units _ _ = false

-- 'message', 'event', 'data' and 'id'
abbrev pub message : CodeUnits
message = b'm' ∷ b'e' ∷ b's' ∷ b's' ∷ b'a' ∷ b'g' ∷ b'e' ∷ []

abbrev event_ : CodeUnits
event_ = b'e' ∷ b'v' ∷ b'e' ∷ b'n' ∷ b't' ∷ []

abbrev pub data_ : CodeUnits
data_ = b'd' ∷ b'a' ∷ b't' ∷ b'a' ∷ []

abbrev id_ : CodeUnits
id_ = b'i' ∷ b'd' ∷ []

pub record SseFrame : Type 0 where
  pub event : CodeUnits
  pub payload : CodeUnits
  pub id : Option CodeUnits

-- The parser's variables other than `buffer`.
pub record Fields : Type 0 where
  pub event : CodeUnits
  pub data_lines : List CodeUnits
  pub id : Option CodeUnits

pub record SseParser : Type 0 where
  pub buffer : CodeUnits
  pub pending : Fields

-- `reset`
abbrev pub no_fields : Fields
no_fields = record { event = []; data_lines = []; id = none }

-- `data.join('\n')`
abbrev join_lines : List CodeUnits → CodeUnits
join_lines [] = []
join_lines (line ∷ []) = line
join_lines (line ∷ next ∷ lines) = line ++ 10 ∷ join_lines (next ∷ lines)

abbrev frame_of : Fields → Option SseFrame
frame_of fields = elim fields.data_lines [
  | [] ↦ none
  | first ∷ lines ↦ some (record {
    event = if equal_units fields.event [] then message else fields.event;
    payload = join_lines (first ∷ lines);
    id = fields.id;
  })
]

abbrev end_frame : Fields → Option SseFrame × Fields
end_frame fields = (frame_of fields, no_fields)

abbrev pub field : CodeUnits → CodeUnits → Fields → Fields
field name value fields =
    if equal_units name event_
    then record { event = value; data_lines = fields.data_lines; id = fields.id }
    else if equal_units name data_
    then record {
      event = fields.event;
      data_lines = fields.data_lines ++ value ∷ [];
      id = fields.id;
    }
    else if equal_units name id_
    then record { event = fields.event; data_lines = fields.data_lines; id = some value }
    else fields

-- The text before the first colon and the text behind it; the whole text and none without a colon.
abbrev split_colon : CodeUnits → CodeUnits × CodeUnits
split_colon [] = ([], [])
split_colon (c ∷ text) =
    let (front, value) = split_colon text in if c == b':' then ([], text) else (c ∷ front, value)

-- `value.startsWith(' ') ? value.slice(1) : value`
abbrev without_space : CodeUnits → CodeUnits
without_space [] = []
without_space (c ∷ text) = if c == b' ' then text else c ∷ text

abbrev pub line_of : CodeUnits → Fields → Option SseFrame × Fields
line_of [] fields = end_frame fields
line_of (c ∷ text) fields =
    if c == b':'
    then (none, fields)
    else let (name, value) = split_colon (c ∷ text) in
      (none, field name (without_space value) fields)

-- Behind a carriage return, a line feed belongs to the same line end.
abbrev pub skip_lf : CodeUnits → CodeUnits
skip_lf [] = []
skip_lf (c ∷ text) = if c == 10 then text else c ∷ text

-- `buffer.search(/\r\n|\n|\r/)` and the two slices: the first line and what follows its end.
abbrev pub first_line : CodeUnits → Option (CodeUnits × CodeUnits)
first_line [] = none
first_line (c ∷ text) =
    let later = first_line text in
    if c == 10
    then some ([], text)
    else if c == 13
    then some ([], skip_lf text)
    else Option.map (λ found. let (line, rest) = found in (c ∷ line, rest)) later

-- `if (frame !== null) frames.push(frame)`
abbrev pub with_frame : Option SseFrame → List SseFrame → List SseFrame
with_frame none frames = frames
with_frame (some frame) frames = frame ∷ frames

-- The loop of `push`, on fuel: each turn takes at least one code unit off the buffer.
unfoldable pub read_lines : ℕ → CodeUnits → Fields → List SseFrame × SseParser
read_lines zero buffer pending = ([], record { buffer = buffer; pending = pending })
read_lines (suc fuel) buffer pending = elim (first_line buffer) [
  | none ↦ ([], record { buffer = buffer; pending = pending })
  | some (line, rest) ↦
      let (frame, fields) = line_of line pending in
      let (frames, parser) = read_lines fuel rest fields in (with_frame frame frames, parser)
]

unfoldable pub push : SseParser → CodeUnits → List SseFrame × SseParser
push parser chunk =
    let buffer = parser.buffer ++ chunk in read_lines (length buffer) buffer parser.pending

abbrev pub flush : SseParser
flush = record { buffer = []; pending = no_fields }

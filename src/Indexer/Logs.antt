-- ===== src/Indexer/Logs.antt =====
-- packages/indexer/src/logs.ts: which program wrote each log line. The regular expressions are
-- spelled out over Indexer/Text; each is deterministic, since no `\w` is a space or a bracket.
pub mod Calls
use Prim.Native.Char.{Char}
use cap_rail.Indexer.Text.{decimal, is_digit, is_empty, is_word, on_one_line, span, strip}
use cap_rail.Prelude.{
  Bool, List, Option, String, ℕ, [], false, if◌then◌else◌, length, none, some, ◌===◌, ◌||◌, ◌∷◌,
}

pub record LogFrame : Type 0 where
  pub program : String
  pub depth : ℕ
  pub line : String

-- The word at the front and what follows, where there is a word: `(\w+)`, and `(\d+)`.
unfoldable run_of : (Char → Bool) → String → Option (String × String)
unfolding span is_empty
run_of test text =
    let (front, rest) = span test text in if is_empty front then none else some (front, rest)

closes_invoke : String → Bool
closes_invoke rest = elim (strip " invoke [" rest) [
  | none ↦ false
  | some behind ↦ elim (run_of is_digit behind) [ none ↦ false | some (_, tail) ↦ tail === "]" ]
]

-- `/^Program (\w+) invoke \[(\d+)\]$/`: the program.
unfoldable pub invoked : String → Option String
unfolding strip is_word is_digit run_of closes_invoke
invoked line = elim (strip "Program " line) [
  | none ↦ none
  | some behind ↦ elim (run_of is_word behind) [
    | none ↦ none
    | some (program, rest) ↦ if closes_invoke rest then some program else none
  ]
]

closes_leave : String → Bool
closes_leave rest =
    rest === " success"
    || elim (strip " failed: " rest) [ none ↦ false | some message ↦ on_one_line message ]

-- `/^Program (\w+) (?:success|failed: .*)$/`: the program.
unfoldable pub left : String → Option String
unfolding strip is_word run_of closes_leave on_one_line
left line = elim (strip "Program " line) [
  | none ↦ none
  | some behind ↦ elim (run_of is_word behind) [
    | none ↦ none
    | some (program, rest) ↦ if closes_leave rest then some program else none
  ]
]

-- What a line does to the stack of programs, whose top is its head.
pub data Mark : Type 0 where
  enter : String → Mark
  leave : Mark
  write : Mark

unfoldable pub pops : List String → Option String → Bool
pops [] closed = false
pops (top ∷ below) none = false
pops (top ∷ below) (some closed) = top === closed

unfoldable pub mark : List String → String → Mark
unfolding pops
mark stack line = elim (invoked line) [
  | some program ↦ enter program
  | none ↦ if pops stack (left line) then leave else write
]

-- `stack.at(-1) ?? ''`
abbrev pub top_or_none : List String → String
top_or_none [] = ""
top_or_none (top ∷ below) = top

abbrev pub below : List String → List String
below [] = []
below (_ ∷ rest) = rest

-- The loop of `attributeLogs`, from the stack that the lines before have left.
unfoldable pub attribute : List String → List String → List LogFrame
attribute stack [] = []
attribute stack (line ∷ lines) = elim (mark stack line) [
  | enter program ↦ attribute (program ∷ stack) lines
  | leave ↦ attribute (below stack) lines
  | write ↦
      record { program = top_or_none stack; depth = length stack; line = line }
      ∷ attribute stack lines
]

unfoldable pub attribute_logs : List String → List LogFrame
unfolding attribute
attribute_logs logs = attribute [] logs

unfoldable pub event_data : LogFrame → Option String
unfolding strip
event_data frame = strip "Program data: " frame.line

pub record AnchorError : Type 0 where
  pub code : String
  pub number : ℕ

-- `Error Code: (\w+)\. Error Number: (\d+)\.` at the front of a text.
error_here : String → Option AnchorError
error_here text = elim (strip "Error Code: " text) [
  | none ↦ none
  | some a ↦ elim (run_of is_word a) [
    | none ↦ none
    | some (code, b) ↦ elim (strip ". Error Number: " b) [
      | none ↦ none
      | some c ↦ elim (run_of is_digit c) [
        | none ↦ none
        | some (digits, d) ↦ elim (strip "." d) [
          | none ↦ none
          | some _ ↦ some (record { code = code; number = decimal 0 digits })
        ]
      ]
    ]
  ]
]

-- The first place of the line where the expression matches.
error_in : String → Option AnchorError
unfolding error_here
error_in String.[] = none
error_in (String.◌∷◌ c text) =
    let rest = error_in text in
    elim (error_here (String.◌∷◌ c text)) [ some error ↦ some error | none ↦ rest ]

unfoldable pub anchor_error : LogFrame → Option AnchorError
unfolding error_in strip is_word is_digit run_of decimal
anchor_error frame = error_in frame.line

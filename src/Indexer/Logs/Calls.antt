-- ===== src/Indexer/Logs/Calls.antt =====
-- The log of programs that call one another, and who wrote each of its lines.
use cap_rail.Indexer.Logs.{
  LogFrame, attribute, attribute_logs, enter, invoked, leave, left, mark, pops, top_or_none, write,
}
use cap_rail.Prelude.{
  Bool-cases, List, Option-cases, String, ℕ, [], ap, eq_of_===, eq_refl, inl, inr, length, none,
  refl, some, suc, sym, ◌++◌, ◌===◌, ◌∙◌, ◌∷◌, ◌≡◌, ◌≢◌,
}
use mathlib.Core.List.{append-nil, append_assoc}

-- What a program does, in order: it writes a line, or it calls a program, whose own doings stand between
-- the two lines with which the runtime opens and closes the call.
pub data Doings : Type 0 where
  done : Doings
  says : String → Doings → Doings
  calls : String → String → Doings → String → Doings → Doings

abbrev pub log_of : Doings → List String
log_of Doings.done = []
log_of (Doings.says line rest) = line ∷ log_of rest
log_of (Doings.calls program opening inner closing rest) =
    opening ∷ log_of inner ++ closing ∷ log_of rest

-- Each line that a program says, under that program and at the depth of its call.
abbrev pub written_by : String → ℕ → Doings → List LogFrame
written_by program depth Doings.done = []
written_by program depth (Doings.says line rest) =
    record { program = program; depth = depth; line = line } ∷ written_by program depth rest
written_by program depth (Doings.calls callee opening inner closing rest) =
    written_by callee (suc depth) inner ++ written_by program depth rest

-- The lines around a call are the runtime's, and no program says what would open a call or close its own.
abbrev pub Logged : String → Doings → Type 0
Logged program Doings.done = Unit
Logged program (Doings.says line rest) =
    (invoked line ≡ none) × (left line ≢ some program) × Logged program rest
Logged program (Doings.calls callee opening inner closing rest) =
    (invoked opening ≡ some callee)
    × Logged callee inner
    × (invoked closing ≡ none)
    × (left closing ≡ some callee)
    × Logged program rest

mark-said :
    (stack : List String) (line : String)
    → invoked line ≡ none
    → left line ≢ some (top_or_none stack)
    → mark stack line ≡ write
unfolding mark pops
mark-said [] line h g = rw (h, mark) refl
mark-said (top ∷ stack) line h g = elim (Option-cases (left line)) [
  | inl e ↦ rw (h, e, mark, pops) refl
  | inr (closed, e) ↦ elim (Bool-cases (top === closed)) [
    | inl same ↦ absurd (g (e ∙ ap some (sym (eq_of_=== top closed same))))
    | inr other ↦ rw (h, e, other, mark, pops) refl
  ]
]

mark-closing :
    (stack : List String) (line program : String)
    → invoked line ≡ none
    → left line ≡ some program
    → mark (program ∷ stack) line ≡ leave
unfolding mark pops
mark-closing stack line program h g = rw (h, g, eq_refl program, mark, pops) refl

mark-opening :
    (stack : List String) (line program : String)
    → invoked line ≡ some program
    → mark stack line ≡ enter program
unfolding mark
mark-opening stack line program h = rw (h, mark) refl

attribute-log_of :
    (stack : List String) (doings : Doings) (more : List String)
    → Logged (top_or_none stack) doings
    → attribute stack (log_of doings ++ more)
      ≡ written_by (top_or_none stack) (length stack) doings ++ attribute stack more
unfolding attribute
attribute-log_of stack Doings.done more h = refl
attribute-log_of stack (Doings.says line rest) more (h, g, logged) =
    rw (mark-said stack line h g, attribute-log_of stack rest more logged, attribute) refl
attribute-log_of stack (Doings.calls callee opening inner closing rest) more
      (opens, inside, h, closes, logged) =
    let after : List String = closing ∷ log_of rest ++ more in
    rw (mark-opening stack opening callee opens, attribute)
      (ap (attribute (callee ∷ stack)) (append_assoc (log_of inner) (closing ∷ log_of rest) more)
        ∙ attribute-log_of (callee ∷ stack) inner after inside
        ∙ ap (λ frames. written_by callee (suc (length stack)) inner ++ frames)
            (rw (mark-closing stack closing callee h closes, attribute)
              (attribute-log_of stack rest more logged))
        ∙ sym (
            append_assoc (written_by callee (suc (length stack)) inner)
              (written_by (top_or_none stack) (length stack) rest) (attribute stack more)))

-- Where the runtime opens and closes every call with its two lines, and no program says a line that would
-- open a call or close its own: each line that is said, however deep the calls are nested, is attributed
-- to the program that says it, at the depth of its call, in the order of the log.
pub attribute_logs-written_by :
    (doings : Doings) → Logged "" doings → attribute_logs (log_of doings) ≡ written_by "" 0 doings
unfolding attribute_logs attribute
attribute_logs-written_by doings h =
    ap (attribute []) (sym (append-nil (log_of doings)))
    ∙ attribute-log_of [] doings [] h
    ∙ append-nil (written_by "" 0 doings)

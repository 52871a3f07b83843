-- ===== src/Tests/Panel.antt =====
-- apps/web at concrete inputs.
use cap_rail.Panel.Amounts.{from_base_units, to_base_units}
use cap_rail.Panel.Amounts.RoundTrip.{to_base_units-from_base_units}
use cap_rail.Panel.Sse.{CodeUnits, flush, push}
use cap_rail.Panel.Sse.Chunks.{both, push-append}
use cap_rail.Panel.Sse.SplitEnd.{data_prefix, frames_of, message_frame, push-split_end}
use cap_rail.Prelude.{List, ℕ, [], refl, some, ◌++◌, ◌∷◌, ◌≡◌}
use cap_rail.Shared.Digits.{prepend_digits, to_digits}

-- `data: a` without and `\n` with the rest of its line end.
abbrev first_chunk : CodeUnits
first_chunk = data_prefix ++ b'a' ∷ []

push-append_example :
    both (push flush first_chunk) (10 ∷ 10 ∷ []) ≡ push flush (first_chunk ++ 10 ∷ 10 ∷ [])
push-append_example = push-append flush first_chunk (10 ∷ 10 ∷ []) refl

push-split_end_example :
    (frames_of (push flush (data_prefix ++ (b'a' ∷ [] ++ 13 ∷ 10 ∷ []))) ≡ [])
    × (frames_of (both (push flush (data_prefix ++ (b'a' ∷ [] ++ 13 ∷ []))) (10 ∷ []))
        ≡ message_frame (b'a' ∷ []) ∷ [])
push-split_end_example = push-split_end (b'a' ∷ []) refl

to_base_units-from_base_units_example :
    to_base_units (from_base_units 1234500000 6) 6 ≡ some 1234500000
to_base_units-from_base_units_example = to_base_units-from_base_units 1234500000 6

-- `1,234.5`
shown : from_base_units 1234500000 6 ≡ b'1' ∷ b',' ∷ b'2' ∷ b'3' ∷ b'4' ∷ b'.' ∷ b'5' ∷ []
unfolding from_base_units to_digits prepend_digits
shown = refl

abbrev twelve_and_a_half : List ℕ
twelve_and_a_half = b'1' ∷ b'2' ∷ b'.' ∷ b'5' ∷ []

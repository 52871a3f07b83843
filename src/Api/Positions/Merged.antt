-- ===== src/Api/Positions/Merged.antt =====
-- A wallet has one position for each mint, with the sum of what it holds of it.
use cap_rail.Api.Journal.Order.{insert, sort}
use cap_rail.Api.Positions.{
  Position, PositionInput, add_input, by_mint, earlier_input, merge_positions, position,
}
use cap_rail.Prelude.{
  Bool, Bool-cases, List, String, ℕ, [], ap, arith, eq_of_===, false, if◌then◌else◌, inl, inr, ltb,
  map, refl, ◌+◌, ◌===◌, ◌||◌, ◌∙◌, ◌∷◌, ◌≡◌, ◌≤◌,
}
use cap_rail.Prelude.Int.{ℤ}
use mathlib.Core.Path.{subst}

abbrev pub amount_of : String → List PositionInput → ℕ
amount_of mint [] = 0
amount_of mint (input ∷ inputs) =
    (if input.token.mint === mint then input.amount else 0) + amount_of mint inputs

abbrev inputs_with : String → List PositionInput → ℕ
inputs_with mint [] = 0
inputs_with mint (input ∷ inputs) =
    (if input.token.mint === mint then 1 else 0) + inputs_with mint inputs

abbrev pub position_amount : String → List Position → ℕ
position_amount mint [] = 0
position_amount mint (held ∷ positions) =
    (if held.mint === mint then held.amount else 0) + position_amount mint positions

abbrev pub positions_with : String → List Position → ℕ
positions_with mint [] = 0
positions_with mint (held ∷ positions) =
    (if held.mint === mint then 1 else 0) + positions_with mint positions

amount_of-add :
    (mint : String) (input : PositionInput) (found : List PositionInput)
    → amount_of mint (add_input input found) ≡ amount_of mint (input ∷ found)
amount_of-add mint input [] = refl
amount_of-add mint input (seen ∷ others) =
    elim (Bool-cases (seen.token.mint === input.token.mint)) [
      | inl e ↦
          let same : (seen.token.mint === mint) ≡ (input.token.mint === mint) =
            ap (λ m. m === mint) (eq_of_=== seen.token.mint input.token.mint e) in
          ground (arith, e, same)
      | inr e ↦ ground (arith, e, amount_of-add mint input others)
    ]

-- One entry for a mint that was or is added.
inputs_with-add :
    (mint : String) (input : PositionInput) (found : List PositionInput)
    → inputs_with mint found ≤ 1
    → inputs_with mint (add_input input found)
      ≡ (if input.token.mint === mint || ltb 0 (inputs_with mint found) then 1 else 0)
inputs_with-add mint input [] h = ground arith
inputs_with-add mint input (seen ∷ others) h =
    elim (Bool-cases (seen.token.mint === input.token.mint)) [
      | inl e ↦
          let same : (seen.token.mint === mint) ≡ (input.token.mint === mint) =
            ap (λ m. m === mint) (eq_of_=== seen.token.mint input.token.mint e) in
          ground (arith, e, same, h)
      | inr e ↦
          let less : inputs_with mint others ≤ 1 = ground (arith, h) in
          elim (Bool-cases (input.token.mint === mint)) [
            | inl k ↦
                let differ : (seen.token.mint === mint) ≡ false =
                  subst (λ m. (seen.token.mint === m) ≡ false) (eq_of_=== input.token.mint mint k)
                    e in
                ground (arith, e, k, differ, inputs_with-add mint input others less)
            | inr k ↦ ground (arith, e, k, inputs_with-add mint input others less)
          ]
    ]

by_mint-merges :
    (mint : String) (found inputs : List PositionInput)
    → inputs_with mint found ≤ 1
    → (amount_of mint (by_mint found inputs) ≡ amount_of mint found + amount_of mint inputs)
      × (inputs_with mint (by_mint found inputs)
          ≡ (if ltb 0 (inputs_with mint found + inputs_with mint inputs) then 1 else 0))
by_mint-merges mint found [] h = (omega arith, ground (arith, h))
by_mint-merges mint found (input ∷ inputs) h =
    let next = add_input input found in
    let count = inputs_with-add mint input found h in
    let (amounts, entries) = by_mint-merges mint next inputs (ground (arith, count)) in
    (amounts ∙ ground (arith, amount_of-add mint input found), entries ∙ ground (arith, count))

amount_of-insert :
    (before : PositionInput → PositionInput → Bool) (mint : String) (input : PositionInput)
    (inputs : List PositionInput)
    → (amount_of mint (insert before input inputs) ≡ amount_of mint (input ∷ inputs))
      × (inputs_with mint (insert before input inputs) ≡ inputs_with mint (input ∷ inputs))
amount_of-insert before mint input [] = (refl, refl)
amount_of-insert before mint input (next ∷ inputs) =
    let (amounts, entries) = amount_of-insert before mint input inputs in
    (ground (arith, amounts), ground (arith, entries))

amount_of-sort :
    (before : PositionInput → PositionInput → Bool) (mint : String) (inputs : List PositionInput)
    → (amount_of mint (sort before inputs) ≡ amount_of mint inputs)
      × (inputs_with mint (sort before inputs) ≡ inputs_with mint inputs)
amount_of-sort before mint [] = (refl, refl)
amount_of-sort before mint (input ∷ inputs) =
    let (first, second) = amount_of-insert before mint input (sort before inputs) in
    let (amounts, entries) = amount_of-sort before mint inputs in
    (
      first ∙ ap (λ n. (if input.token.mint === mint then input.amount else 0) + n) amounts,
      second ∙ ap (λ n. (if input.token.mint === mint then 1 else 0) + n) entries,
    )

position-amounts :
    (now : ℤ) (mint : String) (inputs : List PositionInput)
    → (position_amount mint (map (position now) inputs) ≡ amount_of mint inputs)
      × (positions_with mint (map (position now) inputs) ≡ inputs_with mint inputs)
position-amounts now mint [] = (refl, refl)
position-amounts now mint (input ∷ inputs) =
    let (amounts, entries) = position-amounts now mint inputs in
    (
      ap (λ n. (if input.token.mint === mint then input.amount else 0) + n) amounts,
      ap (λ n. (if input.token.mint === mint then 1 else 0) + n) entries,
    )

-- For every mint the merged positions show the sum of the amounts of its inputs, in exactly one position
-- where there is an input of the mint and in none where there is not, whatever the order of texts is.
pub merge_positions-sums :
    (text_before : String → String → Bool) (inputs : List PositionInput) (now : ℤ) (mint : String)
    → let positions = merge_positions text_before inputs now in
      (position_amount mint positions ≡ amount_of mint inputs)
      × (positions_with mint positions ≡ (if ltb 0 (inputs_with mint inputs) then 1 else 0))
unfolding merge_positions
merge_positions-sums text_before inputs now mint =
    let entries = by_mint [] inputs in
    let before = earlier_input text_before in
    let (shown, listed) = position-amounts now mint (sort before entries) in
    let (sorted, kept) = amount_of-sort before mint entries in
    let (sums, counts) = by_mint-merges mint [] inputs (omega arith) in
    (shown ∙ ground (arith, sorted, sums), listed ∙ ground (arith, kept, counts))

-- ===== src/Worker/Pipeline.antt =====
-- apps/worker/src/pipeline.ts: one transaction at a time, in arrival order. `S` is what the handler
-- and the cursor store keep.
pub mod Laws
use cap_rail.Indexer.Parse.{ProgramTransaction}
use cap_rail.Prelude.{
  Bool, List, Option, String, ℕ, [], false, has, if◌then◌else◌, keep, leb, length, ltb, none, not,
  some, true, ◌++◌, ◌===◌, ◌||◌, ◌∷◌,
}
use cap_rail.Result.{Error, Result, err, ok}

abbrev pub recent_capacity : ℕ
recent_capacity = 2000

pub record Cursor : Type 0 where
  pub signature : String
  pub slot : ℕ

module _ (S : Type 0) where
  pub record PipelineDeps : Type 0 where
    pub apply : ProgramTransaction → S → Result (Unit {0}) × S
    pub save : Cursor → S → Result (Unit {0}) × S

  -- `recent` is in order of insertion.
  pub record Pipeline : Type 0 where
    pub recent : List String
    pub cursor : Option Cursor
    pub inner : S

-- `recent.has`
abbrev pub knows : String → List String → Bool
knows signature recent = has (λ known. known === signature) recent

-- Beyond the capacity the oldest goes.
abbrev pub trim : List String → List String
trim [] = []
trim (oldest ∷ rest) = if ltb recent_capacity (length (oldest ∷ rest)) then rest else oldest ∷ rest

-- `remember` of a new signature.
unfoldable pub remember : String → List String → List String
remember signature recent = trim (recent ++ signature ∷ [])

unfoldable pub forget : String → List String → List String
forget signature recent = keep (λ known. not (known === signature)) recent

abbrev pub cursor_at : ProgramTransaction → Cursor
cursor_at tx = record { signature = tx.signature; slot = tx.slot }

-- `cursor === null || tx.slot >= cursor.slot`
abbrev pub moves_forward : Option Cursor → ℕ → Bool
moves_forward none slot = true
moves_forward (some cursor) slot = leb cursor.slot slot

module _ {S : Type 0} where
  unfoldable pub advance :
      PipelineDeps S
      → ProgramTransaction
      → List String
      → Option Cursor
      → S
      → Result (Unit {0}) × Pipeline S
  advance deps tx recent cursor inner =
      if moves_forward cursor tx.slot
      then (let (saved, inner') = deps.save (cursor_at tx) inner in
          (saved, record { recent = recent; cursor = some (cursor_at tx); inner = inner' }))
      else (ok tt, record { recent = recent; cursor = cursor; inner = inner })

  unfoldable pub settle :
      PipelineDeps S
      → ProgramTransaction
      → List String
      → Option Cursor
      → Result (Unit {0})
      → S
      → Result (Unit {0}) × Pipeline S
  unfolding advance
  settle deps tx recent cursor (ok _) inner = advance deps tx recent cursor inner
  settle deps tx recent cursor (err e) inner =
      (err e, record { recent = forget tx.signature recent; cursor = cursor; inner = inner })

  -- `apply` of the pipeline, which `handle` and `push` run one after another.
  unfoldable pub handle :
      PipelineDeps S → ProgramTransaction → Pipeline S → Result (Unit {0}) × Pipeline S
  unfolding settle
  handle deps tx p =
      if knows tx.signature p.recent
      then (ok tt, p)
      else (let (applied, inner) = deps.apply tx p.inner in
          settle deps tx (remember tx.signature p.recent) p.cursor applied inner)

  -- `push` drops the outcome.
  unfoldable pub push : PipelineDeps S → ProgramTransaction → Pipeline S → Pipeline S
  push deps tx p = (handle deps tx p).1

  unfoldable pub push_all : PipelineDeps S → List ProgramTransaction → Pipeline S → Pipeline S
  push_all deps [] p = p
  push_all deps (tx ∷ txs) p = push_all deps txs (push deps tx p)

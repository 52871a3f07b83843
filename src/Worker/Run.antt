-- ===== src/Worker/Run.antt =====
-- apps/worker/src/run.ts: backfillPass, over the RPC and its fallback. That no pass starts while one is
-- under way (`passing`) is the order of the passes; `fuel` bounds the pages of each.
pub mod Fallback
pub mod Flaky
pub mod PassedOver
pub mod Repeats
use cap_rail.Prelude.{List, Option, String, ℕ, [], ◌∷◌}
use cap_rail.Worker.Backfill.{BackfillRpc, Outcome, backfill, done, page_size, threw, unfinished}
use cap_rail.Worker.Pipeline.{Cursor, Pipeline, PipelineDeps, handle}
use mathlib.Core.Option

-- `pipeline.cursor()?.signature ?? null`
abbrev pub since_of : Option Cursor → Option String
since_of cursor = Option.map (λ c. c.signature) cursor

module _ {S : Type 0} where
  -- A pass that throws is logged, and the next RPC is asked.
  unfoldable pub or_next : (Pipeline S → Pipeline S) → Outcome (Pipeline S) → Pipeline S
  or_next next (done latest p) = p
  or_next next (threw e p) = next p
  or_next next (unfinished p) = p

  -- The loop over the RPCs, from one instant's cursor on.
  unfoldable pub try_rpcs :
      ℕ → List BackfillRpc → Option String → PipelineDeps S → Pipeline S → Pipeline S
  unfolding or_next
  try_rpcs fuel [] since deps p = p
  try_rpcs fuel (rpc ∷ rpcs) since deps p =
      or_next (λ q. try_rpcs fuel rpcs since deps q)
        (backfill fuel rpc since (handle deps) page_size p)

  unfoldable pub backfill_pass : ℕ → List BackfillRpc → PipelineDeps S → Pipeline S → Pipeline S
  unfolding try_rpcs
  backfill_pass fuel rpcs deps p = try_rpcs fuel rpcs (since_of p.cursor) deps p

-- ===== src/Worker/Pipeline/Laws.antt =====
-- apps/worker/src/pipeline.ts: what is remembered, what is handled twice, and where the cursor goes.
use cap_rail.Indexer.Parse.{ProgramTransaction}
use cap_rail.Prelude.{
  Bool, Bool-cases, List, Option, String, ℕ, [], ap, arith, eq_refl, false, inl, inr, keep, length,
  length-append, none, refl, some, suc, true, ◌++◌, ◌===◌, ◌∙◌, ◌∷◌, ◌≡◌, ◌≤◌,
}
use cap_rail.Result.{Error, Result, err, ok}
use cap_rail.Worker.Pipeline.{
  Cursor, Pipeline, PipelineDeps, advance, cursor_at, forget, handle, knows, moves_forward, push,
  push_all, recent_capacity, remember, settle, trim,
}

-- The newest signature is known.
knows-append :
    (signature : String) (recent : List String) → knows signature (recent ++ signature ∷ []) ≡ true
knows-append signature [] = ground (arith, eq_refl signature)
knows-append signature (known ∷ recent) = ground (arith, knows-append signature recent)

knows-remember :
    (signature : String) (recent : List String) → knows signature (remember signature recent) ≡ true
unfolding remember
knows-remember signature [] = ground (arith, eq_refl signature)
knows-remember signature (oldest ∷ recent) =
    ground (arith, knows-append signature recent, knows-append signature (oldest ∷ recent))

knows-forget :
    (signature : String) (recent : List String) → knows signature (forget signature recent) ≡ false
unfolding forget
knows-forget signature [] = refl
knows-forget signature (known ∷ recent) = ground (arith, knows-forget signature recent)

length-trim :
    (recent : List String)
    → length recent ≤ suc recent_capacity
    → length (trim recent) ≤ recent_capacity
length-trim [] h = omega arith
length-trim (oldest ∷ recent) h = ground (arith, h)

length-remember :
    (signature : String) (recent : List String)
    → length recent ≤ recent_capacity
    → length (remember signature recent) ≤ recent_capacity
unfolding remember
length-remember signature recent h =
    length-trim (recent ++ signature ∷ []) (omega (arith, length-append recent (signature ∷ [])))

length-keep : (test : String → Bool) (xs : List String) → length (keep test xs) ≤ length xs
length-keep test [] = omega arith
length-keep test (x ∷ xs) = ground (arith, length-keep test xs)

length-forget :
    (signature : String) (recent : List String) → length (forget signature recent) ≤ length recent
unfolding forget
length-forget signature recent = length-keep _ recent

-- A signature that is known is answered at once.
pub handle-known :
    {S : Type 0} (deps : PipelineDeps S) (tx : ProgramTransaction) (p : Pipeline S)
    → knows tx.signature p.recent ≡ true
    → handle deps tx p ≡ (ok tt, p)
unfolding handle
handle-known deps tx p e = rw e refl

module _ {S : Type 0} (deps : PipelineDeps S) (tx : ProgramTransaction) where
  pub advance-recent :
      (recent : List String) (cursor : Option Cursor) (s : S)
      → (advance deps tx recent cursor s).1.recent ≡ recent
  unfolding advance
  advance-recent recent cursor s = ground arith

  -- The signature is known after a handling without an error.
  settle-knows :
      (recent : List String) (cursor : Option Cursor) (r : Result (Unit {0})) (s : S)
      → (settle deps tx (remember tx.signature recent) cursor r s).0 ≡ ok tt
      → knows tx.signature (settle deps tx (remember tx.signature recent) cursor r s).1.recent
        ≡ true
  unfolding settle
  settle-knows recent cursor (ok _) s e =
      ap (knows tx.signature) (advance-recent (remember tx.signature recent) cursor s)
      ∙ knows-remember tx.signature recent
  settle-knows recent cursor (err x) s e = ground (arith, e)

  settle-bounded :
      (recent : List String) (cursor : Option Cursor) (r : Result (Unit {0})) (s : S)
      → length recent ≤ recent_capacity
      → length (settle deps tx recent cursor r s).1.recent ≤ recent_capacity
  unfolding settle
  settle-bounded recent cursor (ok _) s h = rw (advance-recent recent cursor s) h
  settle-bounded recent cursor (err x) s h = omega (arith, length-forget tx.signature recent, h)

  pub handled-knows :
      (p : Pipeline S)
      → (handle deps tx p).0 ≡ ok tt
      → knows tx.signature (handle deps tx p).1.recent ≡ true
  unfolding handle
  handled-knows p e = elim (Bool-cases (knows tx.signature p.recent)) [
    | inl known ↦ rw known known
    | inr new ↦
        let (r, s) = deps.apply tx p.inner in
        rw new (settle-knows p.recent p.cursor r s (rw new at e))
  ]

  -- A transaction that was handled without an error is not handled a second time: the pipeline answers
  -- at once and stays as it is.
  pub handle-once :
      (p : Pipeline S)
      → (handle deps tx p).0 ≡ ok tt
      → handle deps tx (handle deps tx p).1 ≡ (ok tt, (handle deps tx p).1)
  handle-once p e = handle-known deps tx (handle deps tx p).1 (handled-knows p e)

  -- A new transaction whose handling throws is not remembered, the cursor stays, and what the handler
  -- left is kept: delivered again, it is handled again.
  handle-failed :
      (p : Pipeline S) (e : Error)
      → knows tx.signature p.recent ≡ false
      → (deps.apply tx p.inner).0 ≡ err e
      → let (r, p') = handle deps tx p in
        (r ≡ err e)
        × (p'.cursor ≡ p.cursor)
        × (knows tx.signature p'.recent ≡ false)
        × (p'.inner ≡ (deps.apply tx p.inner).1)
  unfolding handle settle
  handle-failed p e new failed = rw new (rw failed (refl, refl, knows-forget tx.signature _, refl))

  handle-bounded :
      (p : Pipeline S)
      → length p.recent ≤ recent_capacity
      → length (handle deps tx p).1.recent ≤ recent_capacity
  unfolding handle
  handle-bounded p h = elim (Bool-cases (knows tx.signature p.recent)) [
    | inl known ↦ rw known h
    | inr new ↦
        let (r, s) = deps.apply tx p.inner in
        rw new (
          settle-bounded (remember tx.signature p.recent) p.cursor r s
            (length-remember tx.signature p.recent h))
  ]

-- The slot of the cursor, 0 before the first.
abbrev pub slot_of : Option Cursor → ℕ
slot_of none = 0
slot_of (some cursor) = cursor.slot

module _ {S : Type 0} (deps : PipelineDeps S) where
  settle-forward :
      (tx : ProgramTransaction) (recent : List String) (cursor : Option Cursor)
      (r : Result (Unit {0})) (s : S)
      → slot_of cursor ≤ slot_of (settle deps tx recent cursor r s).1.cursor
  unfolding settle advance
  settle-forward tx recent none (ok _) s = omega arith
  settle-forward tx recent (some cursor) (ok _) s = ground arith
  settle-forward tx recent cursor (err x) s = omega arith

  handle-forward :
      (tx : ProgramTransaction) (p : Pipeline S)
      → slot_of p.cursor ≤ slot_of (handle deps tx p).1.cursor
  unfolding handle
  handle-forward tx p = elim (Bool-cases (knows tx.signature p.recent)) [
    | inl known ↦ rw known (omega arith)
    | inr new ↦ let (r, s) = deps.apply tx p.inner in rw new (settle-forward tx _ p.cursor r s)
  ]

  -- Whatever is delivered and whatever fails, the slot of the cursor only grows and no more than
  -- `recent_capacity` signatures are remembered.
  pub push_all-bounds :
      (txs : List ProgramTransaction) (p : Pipeline S)
      → length p.recent ≤ recent_capacity
      → let p' = push_all deps txs p in
        (slot_of p.cursor ≤ slot_of p'.cursor) × (length p'.recent ≤ recent_capacity)
  unfolding push_all push
  push_all-bounds [] p h = (omega arith, h)
  push_all-bounds (tx ∷ txs) p h =
      let p' = push deps tx p in
      let (forward, bounded) = push_all-bounds txs p' (handle-bounded deps tx p h) in
      (omega (arith, handle-forward tx p, forward), bounded)

other-append :
    (signature other : String) (recent : List String)
    → (other === signature) ≡ false
    → knows signature recent ≡ false
    → knows signature (recent ++ other ∷ []) ≡ false
other-append signature other [] ne h = ground (arith, ne)
other-append signature other (known ∷ recent) ne h =
    ground (arith, h, other-append signature other recent ne)

other-remember :
    (signature other : String) (recent : List String)
    → (other === signature) ≡ false
    → knows signature recent ≡ false
    → knows signature (remember other recent) ≡ false
unfolding remember
other-remember signature other [] ne h = ground (arith, ne)
other-remember signature other (oldest ∷ recent) ne h = ground (
  arith,
  h,
  other-append signature other (oldest ∷ recent) ne h,
  other-append signature other recent ne,
)

-- What a new transaction that is applied leaves, when its slot moves the cursor.
handle-moved :
    {S : Type 0} (deps : PipelineDeps S) (tx : ProgramTransaction) (p : Pipeline S)
    → knows tx.signature p.recent ≡ false
    → (deps.apply tx p.inner).0 ≡ ok tt
    → moves_forward p.cursor tx.slot ≡ true
    → let p' = (handle deps tx p).1 in
      (p'.cursor ≡ some (cursor_at tx)) × (p'.recent ≡ remember tx.signature p.recent)
unfolding handle settle advance
handle-moved deps tx p new applied forward = rw new (rw applied (rw forward (refl, refl)))

-- When the handling of a new transaction throws and that of the next new one, at a slot that moves the
-- cursor, does not, the cursor is at the second while the first is not remembered.
pub push_all-failed :
    {S : Type 0} (deps : PipelineDeps S) (first second : ProgramTransaction) (p : Pipeline S)
    (e : Error)
    → knows first.signature p.recent ≡ false
    → (deps.apply first p.inner).0 ≡ err e
    → (second.signature === first.signature) ≡ false
    → knows second.signature (push deps first p).recent ≡ false
    → (deps.apply second (push deps first p).inner).0 ≡ ok tt
    → moves_forward p.cursor second.slot ≡ true
    → let p' = push_all deps (first ∷ second ∷ []) p in
      (p'.cursor ≡ some (cursor_at second)) × (knows first.signature p'.recent ≡ false)
unfolding push_all push
push_all-failed deps first second p e new failed ne new' applied forward =
    let (_, cursor, forgotten, _) = handle-failed deps first p e new failed in
    let (moved, remembered) =
      handle-moved deps second (push deps first p) new' applied (rw cursor forward) in
    (moved, rw remembered (other-remember first.signature second.signature _ ne forgotten))

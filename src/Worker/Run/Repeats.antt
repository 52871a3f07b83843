-- ===== src/Worker/Run/Repeats.antt =====
-- Transactions that the pipeline gets again while it remembers them.
use cap_rail.Indexer.Parse.{ProgramTransaction}
use cap_rail.Prelude.{
  All, Bool-cases, List, Option, String, [], ap, arith, has-append, inl, inr, length, length-append,
  refl, suc, sym, true, ◌++◌, ◌+◌, ◌<◌, ◌===◌, ◌∙◌, ◌∷◌, ◌≡◌, ◌≤◌, ◌⊎◌,
}
use cap_rail.Result.{Result, err, ok}
use cap_rail.Worker.Backfill.{SignatureInfo}
use cap_rail.Worker.Backfill.Complete.{handle_each}
use cap_rail.Worker.Pipeline.{
  Cursor, Pipeline, PipelineDeps, handle, knows, recent_capacity, remember, settle,
}
use cap_rail.Worker.Pipeline.Laws.{advance-recent, handle-known, handled-knows}
use mathlib.Core.Path.{subst}

-- Below the capacity nothing is forgotten.
remember-room :
    (signature : String) (recent : List String)
    → length recent < recent_capacity
    → remember signature recent ≡ recent ++ signature ∷ []
unfolding remember
remember-room signature [] h = ground arith
remember-room signature (oldest ∷ recent) h =
    ground (arith, h, length-append (oldest ∷ recent) (signature ∷ []))

knows-more :
    (signature other : String) (recent : List String)
    → knows signature recent ≡ true
    → knows signature (recent ++ other ∷ []) ≡ true
knows-more signature other recent h =
    has-append (λ known. known === signature) recent (other ∷ []) ∙ ground (arith, h)

settle-recent :
    {S : Type 0} (deps : PipelineDeps S) (tx : ProgramTransaction) (recent : List String)
    (cursor : Option Cursor) (applied : Result (Unit {0})) (inner : S)
    → (settle deps tx recent cursor applied inner).0 ≡ ok tt
    → (settle deps tx recent cursor applied inner).1.recent ≡ recent
unfolding settle
settle-recent deps tx recent cursor (ok _) inner h = advance-recent deps tx recent cursor inner
settle-recent deps tx recent cursor (err e) inner h = ground (arith, h)

module _ {S : Type 0} (deps : PipelineDeps S)
    (quiet : (tx : ProgramTransaction) (p : Pipeline S) → (handle deps tx p).0 ≡ ok tt) where
  -- What is remembered behind a transaction: the same, or one more.
  recent-handle :
      (tx : ProgramTransaction) (p : Pipeline S)
      → ((handle deps tx p).1.recent ≡ p.recent)
        ⊎ ((handle deps tx p).1.recent ≡ remember tx.signature p.recent)
  unfolding handle
  recent-handle tx p = elim (Bool-cases (knows tx.signature p.recent)) [
    | inl known ↦ rw (known, handle) (inl refl)
    | inr new ↦
        let (applied, inner) = deps.apply tx p.inner in
        let settled =
          settle-recent deps tx (remember tx.signature p.recent) p.cursor applied inner in
        rw (new, handle) (inr (settled (rw (new, handle) at (quiet tx p))))
  ]

  handle-keeps :
      (tx : ProgramTransaction) (p : Pipeline S) (signature : String)
      → length p.recent < recent_capacity
      → knows signature p.recent ≡ true
      → knows signature (handle deps tx p).1.recent ≡ true
  handle-keeps tx p signature room h = elim (recent-handle tx p) [
    | inl same ↦ rw same h
    | inr more ↦
        rw (more, remember-room tx.signature p.recent room)
          (knows-more signature tx.signature p.recent h)
  ]

  length-handle :
      (tx : ProgramTransaction) (p : Pipeline S)
      → length p.recent < recent_capacity
      → length (handle deps tx p).1.recent ≤ suc (length p.recent)
  length-handle tx p room = elim (recent-handle tx p) [
    | inl same ↦ rw same (omega arith)
    | inr more ↦
        rw (more, remember-room tx.signature p.recent room)
          (omega (arith, length-append p.recent (tx.signature ∷ [])))
  ]

  module _ (tx_of : String → ProgramTransaction)
      (own : (signature : String) → (tx_of signature).signature ≡ signature) where
    abbrev pub each : List SignatureInfo → Pipeline S → Pipeline S
    each infos p = handle_each (handle deps) tx_of infos p

    abbrev pub Remembered : List SignatureInfo → Pipeline S → Type 0
    Remembered infos p = All (λ info. knows info.signature p.recent ≡ true) infos

    each-keeps :
        (infos : List SignatureInfo) (p : Pipeline S) (signature : String)
        → length p.recent + length infos ≤ recent_capacity
        → knows signature p.recent ≡ true
        → knows signature (each infos p).recent ≡ true
    unfolding handle_each
    each-keeps [] p signature room h = h
    each-keeps (info ∷ infos) p signature room h =
        let tx = tx_of info.signature in
        let next = (handle deps tx p).1 in
        let free : length p.recent < recent_capacity = omega (arith, room) in
        each-keeps infos next signature (omega (arith, room, length-handle tx p free))
          (handle-keeps tx p signature free h)

    pub each-Remembered :
        (infos : List SignatureInfo) (p : Pipeline S)
        → length p.recent + length infos ≤ recent_capacity
        → Remembered infos (each infos p)
    unfolding handle_each
    each-Remembered [] p room = tt
    each-Remembered (info ∷ infos) p room =
        let tx = tx_of info.signature in
        let next = (handle deps tx p).1 in
        let free : length p.recent < recent_capacity = omega (arith, room) in
        let more : length next.recent + length infos ≤ recent_capacity =
          omega (arith, room, length-handle tx p free) in
        let known =
          subst (λ s. knows s next.recent ≡ true) (own info.signature)
            (handled-knows deps tx p (quiet tx p)) in
        (each-keeps infos next info.signature more known, each-Remembered infos next more)

    pub each-known :
        (infos more : List SignatureInfo) (p : Pipeline S)
        → Remembered infos p
        → each (infos ++ more) p ≡ each more p
    unfolding handle_each
    each-known [] more p h = refl
    each-known (info ∷ infos) more p (known, h) =
        let again =
          handle-known deps (tx_of info.signature) p
            (subst (λ s. knows s p.recent ≡ true) (sym (own info.signature)) known) in
        ap (λ r. each (infos ++ more) r.1) again ∙ each-known infos more p h

    pub each-append :
        (infos more : List SignatureInfo) (p : Pipeline S)
        → each (infos ++ more) p ≡ each more (each infos p)
    unfolding handle_each
    each-append [] more p = refl
    each-append (info ∷ infos) more p =
        each-append infos more (handle deps (tx_of info.signature) p).1

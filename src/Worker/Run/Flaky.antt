-- ===== src/Worker/Run/Flaky.antt =====
-- An RPC that breaks a pass off, and how far it came.
use cap_rail.Indexer.Parse.{ProgramTransaction}
use cap_rail.Prelude.{
  Bool-cases, List, Option, Option-cases, String, ℕ, [], inl, inr, last?, length, ltb, none, refl,
  reverse, some, suc, take, zero, ◌++◌, ◌∙◌, ◌∷◌, ◌≡◌, ◌⊎◌,
}
use cap_rail.Result.{Error, Result, err, ok}
use cap_rail.Worker.Backfill.{
  BackfillRpc, Outcome, Pages, SignatureInfo, backfill, collected, done, failed, next_page, pages,
  replay, replay_found, replay_one, replay_pages, threw, unfinished,
}
use cap_rail.Worker.Backfill.Complete.{handle_each}

-- An RPC that answers as another one does, or throws.
abbrev pub Flaky : BackfillRpc → BackfillRpc → Type 0
Flaky good rpc =
    ((before since : Option String) (limit : ℕ)
      → (rpc.signatures before since limit ≡ good.signatures before since limit)
        ⊎ ((e : Error) × (rpc.signatures before since limit ≡ err e)))
    × ((signature : String)
        → (rpc.transaction signature ≡ good.transaction signature)
          ⊎ ((e : Error) × (rpc.transaction signature ≡ err e)))

-- Two pagings that go on alike, or of which the first breaks off.
abbrev AlikePages : Pages → Pages → Type 0
AlikePages p q = (p ≡ q) ⊎ ((e : Error) × (p ≡ failed e))

next_page-AlikePages :
    (more other : Option String → List SignatureInfo → Pages) (limit : ℕ)
    (pending : List SignatureInfo) (answer : Result (List SignatureInfo))
    → ((before : Option String) (pending : List SignatureInfo)
        → AlikePages (more before pending) (other before pending))
    → AlikePages (next_page more limit pending answer) (next_page other limit pending answer)
unfolding next_page
next_page-AlikePages more other limit pending (err e) alike = inl refl
next_page-AlikePages more other limit pending (ok page) alike = elim (Option-cases (last? page)) [
  | inl empty ↦ rw (empty, next_page) (inl refl)
  | inr (last, found) ↦ elim (Bool-cases (ltb (length page) limit)) [
    | inl short ↦ rw (found, next_page) (rw short (inl refl))
    | inr full ↦ rw (found, next_page) (rw full (alike (some last.signature) (pending ++ page)))
  ]
]

pages-AlikePages :
    (good rpc : BackfillRpc) (since : Option String) (limit fuel : ℕ) (before : Option String)
    (pending : List SignatureInfo)
    → Flaky good rpc
    → AlikePages
        (pages fuel rpc since limit before pending)
        (pages fuel good since limit before pending)
unfolding pages
pages-AlikePages good rpc since limit zero before pending flaky = inl refl
pages-AlikePages good rpc since limit (suc fuel) before pending flaky =
    elim (flaky.0 before since limit) [
      | inr (e, thrown) ↦ unfold next_page in rw thrown (inr (e, refl))
      | inl same ↦ rw same (
          next_page-AlikePages _ _ limit pending (good.signatures before since limit)
            (λ before' pending'. pages-AlikePages good rpc since limit fuel before' pending' flaky))
    ]

module _ {S : Type 0} (handler : ProgramTransaction → S → Result (Unit {0}) × S)
    (tx_of : String → ProgramTransaction)
    (quiet : (tx : ProgramTransaction) (s : S) → (handler tx s).0 ≡ ok tt) where
  -- The first entries are handled, and then the RPC throws, or there are no more.
  abbrev pub Broken : List SignatureInfo → S → Outcome S → Type 0
  Broken infos s (done latest t) = t ≡ handle_each handler tx_of infos s
  Broken infos s (threw e t) = (n : ℕ) × (t ≡ handle_each handler tx_of (take n infos) s)
  Broken infos s (unfinished t) = ⊥

  Broken-later :
      (info : SignatureInfo) (infos : List SignatureInfo) (s : S) (outcome : Outcome S)
      → Broken infos (handler (tx_of info.signature) s).1 outcome
      → Broken (info ∷ infos) s outcome
  unfolding handle_each
  Broken-later info infos s (done latest t) h = h
  Broken-later info infos s (threw e t) (n, h) = (suc n, h)
  Broken-later info infos s (unfinished t) h = h

  replay-Broken :
      (good rpc : BackfillRpc) (infos : List SignatureInfo) (latest : Option SignatureInfo) (s : S)
      → Flaky good rpc
      → ((signature : String) → good.transaction signature ≡ ok (some (tx_of signature)))
      → Broken infos s (replay rpc handler infos latest s)
  unfolding replay replay_found replay_one handle_each
  replay-Broken good rpc [] latest s flaky served = refl
  replay-Broken good rpc (info ∷ infos) latest s flaky served =
      let next : S = (handler (tx_of info.signature) s).1 in
      elim (flaky.1 info.signature) [
        | inr (e, thrown) ↦ rw thrown (0, refl)
        | inl same ↦ rw (same ∙ served info.signature) (
            rw (quiet (tx_of info.signature) s) (
              Broken-later info infos s (replay rpc handler infos (some info) next)
                (replay-Broken good rpc infos (some info) next flaky served)))
      ]

  pub backfill-Broken :
      (good rpc : BackfillRpc) (fuel limit : ℕ) (since : Option String) (infos : List SignatureInfo)
      (s : S)
      → Flaky good rpc
      → ((signature : String) → good.transaction signature ≡ ok (some (tx_of signature)))
      → pages fuel good since limit none [] ≡ collected infos
      → Broken (reverse infos) s (backfill fuel rpc since handler limit s)
  unfolding backfill replay_pages
  backfill-Broken good rpc fuel limit since infos s flaky served paged =
      elim (pages-AlikePages good rpc since limit fuel none [] flaky) [
        | inl same ↦ rw (same ∙ paged) (replay-Broken good rpc (reverse infos) none s flaky served)
        | inr (e, failed_) ↦ unfold handle_each in rw failed_ (0, refl)
      ]

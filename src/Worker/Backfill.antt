-- ===== src/Worker/Backfill.antt =====
-- apps/worker/src/backfill.ts: the pages of signatures behind the cursor, replayed oldest first. The
-- RPC is a parameter; `fuel` bounds the number of pages.
pub mod Complete
use cap_rail.Indexer.Parse.{ProgramTransaction}
use cap_rail.Prelude.{
  Bool, List, Option, String, ℕ, [], if◌then◌else◌, last?, length, ltb, none, reverse, some, suc,
  zero, ◌++◌, ◌∷◌,
}
use cap_rail.Result.{Error, Result, err, ok}

abbrev pub page_size : ℕ
page_size = 1000

pub record SignatureInfo : Type 0 where
  pub signature : String
  pub slot : ℕ

pub record BackfillRpc : Type 0 where
  -- before, until, limit
  pub signatures : Option String → Option String → ℕ → Result (List SignatureInfo)
  pub transaction : String → Result (Option ProgramTransaction)

-- How the paging ended.
pub data Pages : Type 0 where
  collected : List SignatureInfo → Pages
  failed : Error → Pages
  out_of_fuel : Pages

unfoldable pub next_page :
    (Option String → List SignatureInfo → Pages)
    → ℕ
    → List SignatureInfo
    → Result (List SignatureInfo)
    → Pages
next_page more limit pending (err e) = failed e
next_page more limit pending (ok page) = elim (last? page) [
  | none ↦ collected (pending ++ page)
  | some last ↦
      if ltb (length page) limit
      then collected (pending ++ page)
      else more (some last.signature) (pending ++ page)
]

unfoldable pub pages :
    ℕ → BackfillRpc → Option String → ℕ → Option String → List SignatureInfo → Pages
unfolding next_page
pages zero rpc since limit before pending = out_of_fuel
pages (suc fuel) rpc since limit before pending =
    next_page (λ before' pending'. pages fuel rpc since limit before' pending') limit pending
      (rpc.signatures before since limit)

-- What a pass gives back: the latest signature handled, and what the handler keeps.
pub data Outcome (S : Type 0) : Type 0 where
  done : Option SignatureInfo → S → Outcome S
  threw : Error → S → Outcome S
  unfinished : S → Outcome S

module _ {S : Type 0} where
  unfoldable pub replay_one :
      (Option SignatureInfo → S → Outcome S)
      → SignatureInfo
      → Option SignatureInfo
      → Result (Unit {0}) × S
      → Outcome S
  replay_one more info latest (ok _, s) = more (some info) s
  replay_one more info latest (err e, s) = threw e s

  unfoldable pub replay_found :
      (Option SignatureInfo → S → Outcome S)
      → (ProgramTransaction → S → Result (Unit {0}) × S)
      → SignatureInfo
      → Option SignatureInfo
      → Result (Option ProgramTransaction)
      → S
      → Outcome S
  unfolding replay_one
  replay_found more handle info latest (err e) s = threw e s
  replay_found more handle info latest (ok none) s = done latest s
  replay_found more handle info latest (ok (some tx)) s = replay_one more info latest (handle tx s)

  -- The second loop, over the signatures oldest first.
  unfoldable pub replay :
      BackfillRpc
      → (ProgramTransaction → S → Result (Unit {0}) × S)
      → List SignatureInfo
      → Option SignatureInfo
      → S
      → Outcome S
  unfolding replay_found
  replay rpc handle [] latest s = done latest s
  replay rpc handle (info ∷ rest) latest s =
      replay_found (λ latest' s'. replay rpc handle rest latest' s') handle info latest
        (rpc.transaction info.signature) s

  unfoldable pub replay_pages :
      BackfillRpc → (ProgramTransaction → S → Result (Unit {0}) × S) → Pages → S → Outcome S
  replay_pages rpc handle (collected pending) s = replay rpc handle (reverse pending) none s
  replay_pages rpc handle (failed e) s = threw e s
  replay_pages rpc handle out_of_fuel s = unfinished s

  unfoldable pub backfill :
      ℕ
      → BackfillRpc
      → Option String
      → (ProgramTransaction → S → Result (Unit {0}) × S)
      → ℕ
      → S
      → Outcome S
  unfolding replay_pages
  backfill fuel rpc since handle limit s =
      replay_pages rpc handle (pages fuel rpc since limit none []) s

-- ===== src/Worker/Backfill/Complete.antt =====
-- apps/worker/src/backfill.ts against an RPC that serves one history: enough pages are read, and
-- every signature newer than the cursor is replayed, oldest first.
use cap_rail.Indexer.Parse.{ProgramTransaction}
use cap_rail.Prelude.{
  Bool, Bool-cases, List, Option, Option-cases, String, ℕ, [], ap, arith, drop, eq_refl, false, has,
  if◌then◌else◌, inl, inr, last?, length, length-append, ltb, ltb→lt, none, refl, reverse, some,
  suc, sym, take, zero, ◌++◌, ◌+◌, ◌<◌, ◌===◌, ◌∙◌, ◌∷◌, ◌≡◌,
}
use cap_rail.Result.{Result, ok}
use cap_rail.Table.{Unique}
use cap_rail.Worker.Backfill.{
  BackfillRpc, SignatureInfo, backfill, collected, done, next_page, pages, replay, replay_found,
  replay_one, replay_pages,
}
use mathlib.Core.Path.{subst}

-- The entries newer than the cursor, of a history that is newest first.
unfoldable pub newer : Option String → List SignatureInfo → List SignatureInfo
newer none history = history
newer (some since) [] = []
newer (some since) (info ∷ history) =
    let rest = newer (some since) history in if info.signature === since then [] else info ∷ rest

-- The entries after `before`.
unfoldable pub older : Option String → List SignatureInfo → List SignatureInfo
older none infos = infos
older (some before) [] = []
older (some before) (info ∷ infos) =
    let rest = older (some before) infos in if info.signature === before then infos else rest

abbrev pub same_signature : SignatureInfo → SignatureInfo → Bool
same_signature info other = info.signature === other.signature

-- `getSignaturesForAddress`: at most `limit` signatures before one and until another, newest first.
abbrev pub Serves : BackfillRpc → List SignatureInfo → Type 0
Serves rpc history =
    (before since : Option String) (limit : ℕ)
    → rpc.signatures before since limit ≡ ok (take limit (older before (newer since history)))

pub take-drop : (n : ℕ) (xs : List SignatureInfo) → take n xs ++ drop n xs ≡ xs
take-drop zero xs = refl
take-drop (suc n) [] = refl
take-drop (suc n) (x ∷ xs) = ap (λ ys. x ∷ ys) (take-drop n xs)

take-all : (n : ℕ) (xs : List SignatureInfo) → length (take n xs) < n → take n xs ≡ xs
take-all zero xs h = ground (arith, h)
take-all (suc n) [] h = refl
take-all (suc n) (x ∷ xs) h = ap (λ ys. x ∷ ys) (take-all n xs (omega (arith, h)))

append_assoc : (xs ys zs : List SignatureInfo) → (xs ++ ys) ++ zs ≡ xs ++ (ys ++ zs)
append_assoc [] ys zs = refl
append_assoc (x ∷ xs) ys zs = ap (λ rest. x ∷ rest) (append_assoc xs ys zs)

-- A signature that is not among the rest is not the last of them.
last-other :
    (info : SignatureInfo) (xs ys : List SignatureInfo) {last : SignatureInfo}
    → has (same_signature info) (xs ++ ys) ≡ false
    → last? xs ≡ some last
    → same_signature info last ≡ false
last-other info [] ys no_ e = ground (arith, e)
last-other info (x ∷ []) ys {last} no_ e = ground (arith, e, no_)
last-other info (x ∷ y ∷ xs) ys no_ e = last-other info (y ∷ xs) ys (ground (arith, no_)) e

-- After the last of the first entries come the others.
older-last :
    (xs ys : List SignatureInfo) {last : SignatureInfo}
    → Unique same_signature (xs ++ ys)
    → last? xs ≡ some last
    → older (some last.signature) (xs ++ ys) ≡ ys
unfolding older
older-last [] ys u e = ground (arith, e)
older-last (x ∷ []) ys u e = ground (arith, e, eq_refl x.signature)
older-last (x ∷ y ∷ xs) ys u e = rw (last-other x (y ∷ xs) ys u.0 e) (older-last (y ∷ xs) ys u.1 e)

last-none : (xs : List SignatureInfo) → last? xs ≡ none → length xs ≡ 0
last-none [] e = refl
last-none (x ∷ []) e = ground (arith, e)
last-none (x ∷ y ∷ xs) e = ground (arith, last-none (y ∷ xs) e)

last-append :
    (xs ys : List SignatureInfo) {last : SignatureInfo}
    → last? ys ≡ some last
    → last? (xs ++ ys) ≡ some last
last-append [] ys e = e
last-append (x ∷ []) [] e = ground (arith, e)
last-append (x ∷ []) (y ∷ ys) e = e
last-append (x ∷ x' ∷ xs) ys e = last-append (x' ∷ xs) ys e

length-split :
    (n : ℕ) (xs : List SignatureInfo) → length (take n xs) + length (drop n xs) ≡ length xs
length-split n xs =
    sym (length-append (take n xs) (drop n xs)) ∙ ap (λ ys. length ys) (take-drop n xs)

module _ (rpc : BackfillRpc) (history : List SignatureInfo) (since : Option String) (limit : ℕ)
    (serves : Serves rpc history) (some_limit : 0 < limit)
    (u : Unique same_signature (newer since history)) where
  -- The pages still to come complete what is pending.
  pub pages-from :
      (fuel : ℕ) (before : Option String) (pending rest : List SignatureInfo)
      → length rest < fuel
      → pending ++ rest ≡ newer since history
      → older before (newer since history) ≡ rest
      → pages fuel rpc since limit before pending ≡ collected (newer since history)
  unfolding pages next_page
  pages-from zero before pending rest enough e o = ground (arith, enough)
  pages-from (suc fuel) before pending rest enough e o =
      let page = take limit rest in
      let rest' = drop limit rest in
      let complete = λ (short : length page < limit).
        ap collected (ap (λ infos. pending ++ infos) (take-all limit rest short) ∙ e) in
      rw (serves before since limit) (
        rw o (elim (Option-cases (last? page)) [
          | inl empty ↦
              rw (empty, next_page) (complete (omega (arith, last-none page empty, some_limit)))
          | inr (last, found) ↦ elim (Bool-cases (ltb (length page) limit)) [
            | inl short ↦
                rw (found, next_page) (rw short (complete (ltb→lt (length page) limit short)))
            | inr full ↦
                let e' =
                  append_assoc pending page rest'
                  ∙ ap (λ infos. pending ++ infos) (take-drop limit rest)
                  ∙ e in
                let o' =
                  older-last (pending ++ page) rest' (rw e' u) (last-append pending page found) in
                rw (found, next_page)
                  (rw full (
                    pages-from fuel (some last.signature) (pending ++ page) rest'
                      (ground (arith, length-split limit rest, full, some_limit, enough)) e'
                      (subst (λ infos. older (some last.signature) infos ≡ rest') e' o')))
          ]
        ]))

-- The last of the entries, or what was the latest before them.
unfoldable pub latest_of : Option SignatureInfo → List SignatureInfo → Option SignatureInfo
latest_of latest [] = latest
latest_of latest (info ∷ infos) = latest_of (some info) infos

module _ {S : Type 0} (handler : ProgramTransaction → S → Result (Unit {0}) × S) where
  -- The handler over a list of transactions.
  unfoldable pub handle_each : (String → ProgramTransaction) → List SignatureInfo → S → S
  handle_each tx_of [] s = s
  handle_each tx_of (info ∷ infos) s = handle_each tx_of infos (handler (tx_of info.signature) s).1

  pub replay-all :
      (rpc : BackfillRpc) (tx_of : String → ProgramTransaction) (infos : List SignatureInfo)
      (latest : Option SignatureInfo) (s : S)
      → ((signature : String) → rpc.transaction signature ≡ ok (some (tx_of signature)))
      → ((tx : ProgramTransaction) (s : S) → (handler tx s).0 ≡ ok tt)
      → replay rpc handler infos latest s
        ≡ done (latest_of latest infos) (handle_each tx_of infos s)
  unfolding replay replay_found replay_one handle_each latest_of
  replay-all rpc tx_of [] latest s served quiet = refl
  replay-all rpc tx_of (info ∷ infos) latest s served quiet =
      rw (served info.signature) (
        rw (quiet (tx_of info.signature) s) (replay-all rpc tx_of infos (some info) _ served quiet))

  -- Against an RPC that serves one history of distinct signatures and every transaction of it, with a
  -- handler that does not throw, and fuel for more pages than there are entries newer than the cursor,
  -- a pass ends: it has handled exactly those entries, oldest first, and gives back the newest.
  pub backfill_complete :
      (fuel : ℕ) (rpc : BackfillRpc) (history : List SignatureInfo) (since : Option String)
      (limit : ℕ) (tx_of : String → ProgramTransaction) (s : S)
      → Serves rpc history
      → 0 < limit
      → Unique same_signature (newer since history)
      → length (newer since history) < fuel
      → ((signature : String) → rpc.transaction signature ≡ ok (some (tx_of signature)))
      → ((tx : ProgramTransaction) (s : S) → (handler tx s).0 ≡ ok tt)
      → let oldest_first = reverse (newer since history) in
        backfill fuel rpc since handler limit s
        ≡ done (latest_of none oldest_first) (handle_each tx_of oldest_first s)
  unfolding backfill replay_pages older
  backfill_complete fuel rpc history since limit tx_of s serves some_limit u enough served quiet =
      let paged =
        pages-from rpc history since limit serves some_limit u fuel none [] (newer since history)
          enough refl refl in
      rw paged (replay-all rpc tx_of (reverse (newer since history)) none s served quiet)

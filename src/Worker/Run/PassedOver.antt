-- ===== src/Worker/Run/PassedOver.antt =====
-- A transaction whose handling throws while the subscription delivers, and the pass of the backfill after it.
use cap_rail.Indexer.Parse.{ProgramTransaction}
use cap_rail.Prelude.{
  Bool, Bool-cases, List, String, ℕ, [], ap, arith, eq_of_===, eq_refl, false, has, has-append, inl,
  inr, length, none, refl, reverse, some, sym, true, ◌++◌, ◌<◌, ◌===◌, ◌||◌, ◌∙◌, ◌∷◌, ◌≡◌,
}
use cap_rail.Result.{Error, err, ok}
use cap_rail.Table.{Unique}
use cap_rail.Worker.Backfill.{BackfillRpc, SignatureInfo, backfill, page_size, replay, replay_pages}
use cap_rail.Worker.Backfill.Complete.{Serves, newer, older, pages-from, same_signature}
use cap_rail.Worker.Pipeline.{
  Pipeline, PipelineDeps, cursor_at, handle, knows, moves_forward, push, push_all,
}
use cap_rail.Worker.Pipeline.Laws.{push_all-failed}
use cap_rail.Worker.Run.{since_of}
use mathlib.Core.Path.{subst}

-- The history lists the signature.
abbrev pub lists : String → List SignatureInfo → Bool
lists signature history = has (λ info. signature === info.signature) history

first_false : (a b : Bool) → (a || b) ≡ false → a ≡ false
first_false a b h = ground (arith, h)

second_false : (a b : Bool) → (a || b) ≡ false → b ≡ false
second_false a b h = ground (arith, h)

-- What is newer than an entry stands before it.
newer-front :
    (front back : List SignatureInfo) (info : SignatureInfo)
    → Unique same_signature (front ++ info ∷ back)
    → newer (some info.signature) (front ++ info ∷ back) ≡ front
unfolding newer
newer-front [] back info u = rw (eq_refl info.signature) refl
newer-front (x ∷ front) back info (apart, u) =
    let split = sym (has-append (same_signature x) front (info ∷ back)) ∙ apart in
    let other =
      first_false (x.signature === info.signature) (lists x.signature back)
        (second_false (lists x.signature front) (lists x.signature (info ∷ back)) split) in
    rw (other, newer-front front back info u) refl

Unique-front :
    (front rest : List SignatureInfo)
    → Unique same_signature (front ++ rest)
    → Unique same_signature front
Unique-front [] rest u = tt
Unique-front (x ∷ front) rest (apart, u) = (
  first_false (lists x.signature front) (lists x.signature rest)
      (sym (has-append (same_signature x) front rest) ∙ apart),
  Unique-front front rest u,
)

-- What stands behind an entry does not stand before it.
lists-front :
    (signature : String) (front rest : List SignatureInfo)
    → Unique same_signature (front ++ rest)
    → lists signature rest ≡ true
    → lists signature front ≡ false
lists-front signature [] rest u listed = refl
lists-front signature (x ∷ front) rest (apart, u) listed =
    let behind =
      second_false (lists x.signature front) (lists x.signature rest)
        (sym (has-append (same_signature x) front rest) ∙ apart) in
    elim (Bool-cases (signature === x.signature)) [
      | inl e ↦
          let named : lists x.signature rest ≡ true =
            rw (eq_of_=== signature x.signature e) at listed in
          ground (arith, named, behind)
      | inr e ↦ rw e (lists-front signature front rest u listed)
    ]

backfill-front :
    {S : Type 0} (deps : PipelineDeps S) (p : Pipeline S) (fuel : ℕ) (rpc : BackfillRpc)
    (front back : List SignatureInfo) (info : SignatureInfo)
    → Serves rpc (front ++ info ∷ back)
    → Unique same_signature (front ++ info ∷ back)
    → length front < fuel
    → backfill fuel rpc (some info.signature) (handle deps) page_size p
      ≡ replay rpc (handle deps) (reverse front) none p
unfolding backfill replay_pages older
backfill-front deps p fuel rpc front back info serves u enough =
    let history = front ++ info ∷ back in
    let found = newer-front front back info u in
    let paged =
      pages-from rpc history (some info.signature) page_size serves (omega arith)
        (rw found (Unique-front front (info ∷ back) u)) fuel none []
        (newer (some info.signature) history) (rw found enough) refl refl in
    rw paged (rw found refl)

-- When the handling of a new transaction throws and that of the next new one, at a slot that moves the
-- cursor, does not, the cursor is at the second and the first is not remembered. A pass of the backfill
-- from there, on an RPC that serves a history of distinct signatures where the first stands behind the
-- second, with fuel for more pages than there are entries before the second, replays the entries before
-- the second, oldest first, and no other: the first is not among them.
pub failed-passed_over :
    {S : Type 0} (deps : PipelineDeps S) (first second : ProgramTransaction) (p : Pipeline S)
    (e : Error) (fuel : ℕ) (rpc : BackfillRpc) (front back : List SignatureInfo)
    (info : SignatureInfo)
    → knows first.signature p.recent ≡ false
    → (deps.apply first p.inner).0 ≡ err e
    → (second.signature === first.signature) ≡ false
    → knows second.signature (push deps first p).recent ≡ false
    → (deps.apply second (push deps first p).inner).0 ≡ ok tt
    → moves_forward p.cursor second.slot ≡ true
    → Serves rpc (front ++ info ∷ back)
    → Unique same_signature (front ++ info ∷ back)
    → info.signature ≡ second.signature
    → lists first.signature back ≡ true
    → length front < fuel
    → let p' = push_all deps (first ∷ second ∷ []) p in
      (p'.cursor ≡ some (cursor_at second))
      × (knows first.signature p'.recent ≡ false)
      × (backfill fuel rpc (since_of p'.cursor) (handle deps) page_size p'
          ≡ replay rpc (handle deps) (reverse front) none p')
      × (lists first.signature front ≡ false)
failed-passed_over deps first second p e fuel rpc front back info new failed ne new' applied forward
      serves u named listed enough =
    let p' = push_all deps (first ∷ second ∷ []) p in
    let (moved, forgotten) =
      push_all-failed deps first second p e new failed ne new' applied forward in
    (
      moved,
      forgotten,
      subst
          (λ since.
            backfill fuel rpc since (handle deps) page_size p'
            ≡ replay rpc (handle deps) (reverse front) none p')
          (ap some named ∙ sym (ap since_of moved))
          (backfill-front deps p' fuel rpc front back info serves u enough),
      lists-front first.signature front (info ∷ back) u (ground (arith, listed)),
    )

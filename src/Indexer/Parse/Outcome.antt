-- ===== src/Indexer/Parse/Outcome.antt =====
-- packages/indexer/src/parse.ts: what a parsed transaction can say.
use cap_rail.Indexer.Events.{IndexEvent}
use cap_rail.Indexer.Logs.{AnchorError, LogFrame, anchor_error, attribute_logs, event_data}
use cap_rail.Indexer.Parse.{
  Errors, IndexedEvent, ParsedTransaction, ProgramTransaction, TransferRejected, collect_errors,
  collect_errors_from, collect_events, collect_from, decoded, hook_program_id, note_error,
  note_frame, parse_transaction, with_event,
}
use cap_rail.Indexer.Readers.{Coder}
use cap_rail.Prelude.{
  Bool, Bool-cases, List, Option, Option-cases, ℕ, [], ap, arith, eq_iff, get_elem?, inl, inr,
  is_none, none, refl, some, suc, sym, true, ◌&&◌, ◌+◌, ◌===◌, ◌∙◌, ◌∷◌, ◌≡◌, ◌≢◌, ◌≤◌, ◌⊎◌,
}
use cap_rail.Result.{Result, err, ok, ◌>>=◌}
use mathlib.Core.Path.{subst}

module _ (coder : Coder) where
  collect_from-failed : (n : ℕ) (frames : List LogFrame) → collect_from coder true n frames ≡ ok []
  unfolding collect_from decoded
  collect_from-failed n [] = refl
  collect_from-failed n (frame ∷ frames) = elim (Option-cases (event_data frame)) [
    | inl no_data ↦ rw (no_data, collect_from) (collect_from-failed n frames)
    | inr (data_, found) ↦ rw (found, collect_from) (rw (collect_from-failed (n + 1) frames) refl)
  ]

  -- A failed transaction is parsed without an error, whatever its logs hold, and has no event: the
  -- chain has rolled back what they report.
  pub parse_transaction-failed :
      (tx : ProgramTransaction)
      → tx.failed ≡ true
      → (parsed : ParsedTransaction) × (parse_transaction coder tx ≡ ok parsed)
        × (parsed.events ≡ [])
        × (parsed.failed ≡ true)
  unfolding parse_transaction collect_events
  parse_transaction-failed tx failed =
      rw failed (rw (collect_from-failed 0 (attribute_logs tx.logs)) (_, refl, refl, refl))

-- Ordinals from `n` on, each larger than those before it.
abbrev pub Ascending : ℕ → List IndexedEvent → Type 0
Ascending n [] = Unit
Ascending n (indexed ∷ rest) = (n ≤ indexed.event_index) × Ascending (suc indexed.event_index) rest

Ascending-later :
    (n m : ℕ) (events : List IndexedEvent) → n ≤ m → Ascending m events → Ascending n events
Ascending-later n m [] h a = tt
Ascending-later n m (indexed ∷ rest) h a = (omega (arith, h, a.0), a.1)

with_event-Ascending :
    (found : Option IndexEvent) (n : ℕ) (events : List IndexedEvent)
    → Ascending (n + 1) events
    → Ascending n (with_event found n events)
with_event-Ascending none n events a = Ascending-later n (n + 1) events (omega arith) a
with_event-Ascending (some event) n events a =
    (omega arith, Ascending-later (suc n) (n + 1) events (omega arith) a)

ok_inj : (xs ys : List IndexedEvent) → ok xs ≡ ok ys → xs ≡ ys
ok_inj xs ys e = ground (arith, e)

-- A result that is there has a first step that is there.
result_bind-eq-ok :
    {A B : Type 0} (r : Result A) (f : A → Result B) {b : B}
    → (r >>= f) ≡ ok b
    → (a : A) × (r ≡ ok a) × (f a ≡ ok b)
result_bind-eq-ok (ok a) f e = (a, refl, e)
result_bind-eq-ok (err x) f e = ground (arith, e)

module _ (coder : Coder) (failed : Bool) where
  collect_from-Ascending :
      (n : ℕ) (frames : List LogFrame) {events : List IndexedEvent}
      → collect_from coder failed n frames ≡ ok events
      → Ascending n events
  unfolding collect_from
  collect_from-Ascending n [] {events} e = subst (Ascending n) (ok_inj [] events e) tt
  collect_from-Ascending n (frame ∷ frames) {events} e = elim (Option-cases (event_data frame)) [
    | inl no_data ↦ collect_from-Ascending n frames (rw (no_data, collect_from) at e)
    | inr (data_, found) ↦
        let e' : (decoded coder failed data_ >>= λ event.
        collect_from coder failed (n + 1) frames >>= λ later. ok (with_event event n later))
            ≡ ok events =
          rw (found, collect_from) at e in
        let (event, _, e₁) =
          result_bind-eq-ok (decoded coder failed data_)
            (λ event.
              collect_from coder failed (n + 1) frames >>= λ later. ok (with_event event n later))
            e' in
        let (later, e₂, e₃) =
          result_bind-eq-ok (collect_from coder failed (n + 1) frames)
            (λ later. ok (with_event event n later)) e₁ in
        subst (Ascending n) (ok_inj (with_event event n later) events e₃)
          (with_event-Ascending event n later (collect_from-Ascending (n + 1) frames e₂))
  ]

-- An error line of the hook among the frames, with the reason of the refusal.
abbrev pub RefusedBy : List LogFrame → TransferRejected → Type 0
RefusedBy frames rejection =
    (n : ℕ) × (frame : LogFrame) × (error : AnchorError) × (get_elem? frames n ≡ some frame)
    × (frame.program ≡ hook_program_id)
    × (anchor_error frame ≡ some error)
    × (rejection.reason ≡ error.code)

none_of_it : {rejection : TransferRejected} → none ≢ some rejection
none_of_it e = ground (arith, e)

module _ (coder : Coder) (tx : ProgramTransaction) (rejection : TransferRejected) where
  note_error-RefusedBy :
      (errors : Errors) (frame : LogFrame) (error : AnchorError)
      → (note_error coder tx errors frame error).rejection ≡ some rejection
      → (errors.rejection ≡ some rejection)
        ⊎ ((frame.program ≡ hook_program_id) × (rejection.reason ≡ error.code))
  unfolding note_error
  note_error-RefusedBy errors frame error e =
      elim (Bool-cases (frame.program === hook_program_id && is_none errors.rejection)) [
        | inl hook ↦ inr (
          ground (arith, eq_iff frame.program hook_program_id, hook),
          ap (λ (o : Option TransferRejected). elim o [ none ↦ error.code | some r ↦ r.reason ])
              (sym (rw hook at e)),
        )
        | inr other ↦ inl (ground (arith, other, e))
      ]

  later_frame :
      (frame : LogFrame) (frames : List LogFrame)
      → RefusedBy frames rejection
      → RefusedBy (frame ∷ frames) rejection
  later_frame frame frames (n, by, error, at_n, hook, read, reason) =
      (suc n, by, error, at_n, hook, read, reason)

  note_frame-RefusedBy :
      (errors : Errors) (frame : LogFrame) (frames : List LogFrame)
      → (note_frame coder tx errors frame).rejection ≡ some rejection
      → (errors.rejection ≡ some rejection) ⊎ RefusedBy (frame ∷ frames) rejection
  note_frame-RefusedBy errors frame frames e = elim (Option-cases (anchor_error frame)) [
    | inl no_error_line ↦ inl (rw (no_error_line, note_frame) at e)
    | inr (error, found) ↦
        elim (note_error-RefusedBy errors frame error (rw (found, note_frame) at e)) [
          | inl before ↦ inl before
          | inr (hook, reason) ↦ inr (0, frame, error, refl, hook, found, reason)
        ]
  ]

  collect_errors_from-RefusedBy :
      (errors : Errors) (frames : List LogFrame)
      → (collect_errors_from coder tx errors frames).rejection ≡ some rejection
      → (errors.rejection ≡ some rejection) ⊎ RefusedBy frames rejection
  unfolding collect_errors_from
  collect_errors_from-RefusedBy errors [] e = inl e
  collect_errors_from-RefusedBy errors (frame ∷ frames) e =
      elim (collect_errors_from-RefusedBy (note_frame coder tx errors frame) frames e) [
        | inl noted ↦ note_frame-RefusedBy errors frame frames noted
        | inr later ↦ inr (later_frame frame frames later)
      ]

  collect_errors-RefusedBy :
      (frames : List LogFrame)
      → (collect_errors coder frames tx).rejection ≡ some rejection
      → (tx.failed ≡ true) × RefusedBy frames rejection
  unfolding collect_errors
  collect_errors-RefusedBy frames e = elim (Bool-cases tx.failed) [
    | inl failed ↦ (
      failed,
      elim (collect_errors_from-RefusedBy _ frames (rw failed at e)) [
        | inl before ↦ elim (none_of_it before) [ ]
        | inr found ↦ found
      ],
    )
    | inr succeeded ↦ elim (none_of_it (rw succeeded at e)) [ ]
  ]

-- What `collectErrors` and the assembly of the record give.
module _ (coder : Coder) (tx : ProgramTransaction) where
  -- The ordinals of the events of a transaction strictly increase, so with the signature each of them
  -- is the identity of one row.
  pub parse_transaction-Ascending :
      (parsed : ParsedTransaction)
      → parse_transaction coder tx ≡ ok parsed
      → Ascending 0 parsed.events
  unfolding parse_transaction collect_events
  parse_transaction-Ascending parsed e =
      let (events, collected, e') = result_bind-eq-ok _ _ e in
      subst (Ascending 0)
        (ap (λ (r : Result ParsedTransaction). elim r [ ok p ↦ p.events | err _ ↦ [] ]) e')
        (collect_from-Ascending coder tx.failed 0 (attribute_logs tx.logs) collected)

  abbrev assembled : List IndexedEvent → Result ParsedTransaction
  assembled events =
      let errors = collect_errors coder (attribute_logs tx.logs) tx in
      ok (record {
        signature = tx.signature;
        slot = tx.slot;
        block_time = tx.block_time;
        failed = tx.failed;
        events = events;
        rejection = errors.rejection;
        failure = errors.failure;
      })

  -- A refusal is read only from a failed transaction, and its reason stands in an error line that the
  -- hook itself has written: a line of the same text by another program is not taken for one.
  pub parse_transaction-RefusedBy :
      (parsed : ParsedTransaction) (rejection : TransferRejected)
      → parse_transaction coder tx ≡ ok parsed
      → parsed.rejection ≡ some rejection
      → (tx.failed ≡ true) × RefusedBy (attribute_logs tx.logs) rejection
  unfolding parse_transaction
  parse_transaction-RefusedBy parsed rejection e refused =
      let (events, _, e') =
        result_bind-eq-ok (collect_events coder (attribute_logs tx.logs) tx.failed) assembled e in
      collect_errors-RefusedBy coder tx rejection (attribute_logs tx.logs) (
        ap (λ (r : Result ParsedTransaction). elim r [ ok p ↦ p.rejection | err _ ↦ none ]) e'
        ∙ refused)

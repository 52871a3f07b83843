-- ===== src/Client/Plan/Signers.antt =====
-- The signers of a plan are its fee payer and the keys that its instructions mark as signers.
use cap_rail.Client.Plan.{
  AccountMeta, Collected, TransactionInstruction, TxStep, includes, required_signers, to_plan,
  visit, visit_all, visit_keys,
}
use cap_rail.Prelude.{
  Bool, Bool-cases, List, String, ===_comm, [], arith, eq_of_===, eq_refl, false, inl, inr, not,
  refl, sym, ◌&&◌, ◌++◌, ◌===◌, ◌||◌, ◌∙◌, ◌∷◌, ◌≡◌,
}
use cap_rail.Table.{Unique}

abbrev marked : List AccountMeta → String → Bool
marked [] k = false
marked (key ∷ keys) k = (key.is_signer && (key.pubkey === k)) || marked keys k

abbrev pub signs : List TransactionInstruction → String → Bool
signs [] k = false
signs (instruction ∷ rest) k = marked instruction.keys k || signs rest k

-- `seen` and `signers` hold the same keys, none twice, the fee payer first.
abbrev Collecting : String → Collected → Type 0
Collecting payer c =
    ((k : String) → includes c.seen k ≡ includes c.signers k)
    × Unique (λ a b. b === a) c.signers
    × ((rest : List String) × (c.signers ≡ payer ∷ rest))

includes-append :
    (keys : List String) (k j : String)
    → includes (keys ++ k ∷ []) j ≡ (includes keys j || (k === j))
includes-append [] k j = ground (arith)
includes-append (x ∷ keys) k j = ground (arith, includes-append keys k j)

Unique-append :
    (keys : List String) (k : String)
    → Unique (λ a b. b === a) keys
    → includes keys k ≡ false
    → Unique (λ a b. b === a) (keys ++ k ∷ [])
Unique-append [] k u n = (refl, tt)
Unique-append (x ∷ keys) k (new, u) n = (
  ground (arith, n, new, includes-append keys k x, ===_comm x k),
  Unique-append keys k u (ground (arith, n)),
)

skips : AccountMeta → Collected → Bool
skips key c = not key.is_signer || includes c.seen key.pubkey

visit-Collecting :
    (payer : String) (key : AccountMeta) (c : Collected)
    → Collecting payer c
    → Collecting payer (visit key c)
unfolding skips
visit-Collecting payer key c (same, unique, (rest, front)) = elim (Bool-cases (skips key c)) [
  | inl e ↦ rw e (same, unique, (rest, front))
  | inr e ↦ rw e (
    λ j. ground (arith, same j, includes-append c.signers key.pubkey j),
    Unique-append c.signers key.pubkey unique (ground (arith, same key.pubkey, e)),
    (rest ++ key.pubkey ∷ [], rw front refl),
  )
]

visit-includes :
    (key : AccountMeta) (c : Collected) (k : String)
    → ((j : String) → includes c.seen j ≡ includes c.signers j)
    → includes (visit key c).signers k
      ≡ (includes c.signers k || (key.is_signer && (key.pubkey === k)))
unfolding skips
visit-includes key c k same = elim (Bool-cases (skips key c)) [
  | inl e ↦ elim (Bool-cases (key.pubkey === k)) [
    | inl q ↦
        rw (e, sym (eq_of_=== key.pubkey k q))
          (ground (arith, e, eq_refl key.pubkey, same key.pubkey))
    | inr q ↦ rw e (ground (arith, q))
  ]
  | inr e ↦ rw e (ground (arith, e, includes-append c.signers key.pubkey k))
]

visit_keys-Collecting :
    (payer : String) (keys : List AccountMeta) (c : Collected)
    → Collecting payer c
    → Collecting payer (visit_keys keys c)
visit_keys-Collecting payer [] c h = h
visit_keys-Collecting payer (key ∷ keys) c h =
    visit_keys-Collecting payer keys (visit key c) (visit-Collecting payer key c h)

visit_keys-includes :
    (payer : String) (keys : List AccountMeta) (c : Collected) (k : String)
    → Collecting payer c
    → includes (visit_keys keys c).signers k ≡ (includes c.signers k || marked keys k)
visit_keys-includes payer [] c k h = ground arith
visit_keys-includes payer (key ∷ keys) c k h =
    let (same, _, _) = h in
    visit_keys-includes payer keys (visit key c) k (visit-Collecting payer key c h)
    ∙ ground (arith, visit-includes key c k same)

visit_all-Collecting :
    (payer : String) (instructions : List TransactionInstruction) (c : Collected)
    → Collecting payer c
    → Collecting payer (visit_all instructions c)
visit_all-Collecting payer [] c h = h
visit_all-Collecting payer (i ∷ rest) c h =
    visit_all-Collecting payer rest (visit_keys i.keys c) (visit_keys-Collecting payer i.keys c h)

visit_all-includes :
    (payer : String) (instructions : List TransactionInstruction) (c : Collected) (k : String)
    → Collecting payer c
    → includes (visit_all instructions c).signers k ≡ (includes c.signers k || signs instructions k)
visit_all-includes payer [] c k h = ground arith
visit_all-includes payer (i ∷ rest) c k h =
    visit_all-includes payer rest (visit_keys i.keys c) k (visit_keys-Collecting payer i.keys c h)
    ∙ ground (arith, visit_keys-includes payer i.keys c k h)

-- The signers of a plan begin with the fee payer, none appears twice, and a key is among them exactly
-- when it is the fee payer's or one of the instructions marks it as a signer.
pub to_plan-signers :
    (step : TxStep) (payer : String) (instructions : List TransactionInstruction)
    → let plan = to_plan step payer instructions in
      ((rest : List String) × (plan.signers ≡ payer ∷ rest))
      × Unique (λ a b. b === a) plan.signers
      × ((k : String) → includes plan.signers k ≡ ((payer === k) || signs instructions k))
unfolding required_signers
to_plan-signers step payer instructions =
    let c : Collected = record { seen = payer ∷ []; signers = payer ∷ [] } in
    let start : Collecting payer c = ((λ k. refl), (refl, tt), ([], refl)) in
    let (same, unique, front) = visit_all-Collecting payer instructions c start in
    (front, unique, λ k. visit_all-includes payer instructions c k start ∙ ground arith)

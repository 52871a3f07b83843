-- ===== src/Client/Seeds/Distinct.antt =====
-- The bytes of the seeds, one after another as the address is hashed from them, determine the account.
use cap_rail.Client.Seeds.{
  Pda, company_pda, grant_pda, investor_record_pda, mint_pda, offer_pda, platform_pda, seeds,
  token_config_pda, transfer_permit_pda, u32_le, u64_le,
}
use cap_rail.Client.Seeds.Bytes.{
  KeysWhole, by_count, drop_front, drop_keys, joined, map-some, platform_read, read_at, read_seeds,
  take_front, u32_le-value, u64_le-value,
}
use cap_rail.Indexer.Parse.{little_endian}
use cap_rail.Prelude.{
  List, ℕ, [], ap, arith, length, length-append, refl, some, sym, ◌++◌, ◌+◌, ◌∙◌, ◌∷◌, ◌≡◌,
}
use cap_rail.Prelude.Int.{pos}
use mathlib.Core.List.{append-nil}
use mathlib.Core.Option.{some-injective}
use cap_rail.Client.Seeds.Seed

-- The bytes of up to three parts behind a label.
count_one : (x : List ℕ) → length (x ++ []) ≡ length x
count_one x = omega (arith, length-append x [])

count_two : (x y : List ℕ) → length (x ++ (y ++ [])) ≡ length x + length y
count_two x y = omega (arith, length-append x (y ++ []), count_one y)

count_three : (x y z : List ℕ) → length (x ++ (y ++ (z ++ []))) ≡ length x + length y + length z
count_three x y z = omega (arith, length-append x (y ++ (z ++ [])), count_two y z)

-- The account that the seeds of each kind are read as.
module _ (le : List ℕ) where
  read_company :
      length le ≡ 8 → read_seeds (Seed.company ∷ le ∷ []) ≡ company_pda (pos (little_endian le))
  unfolding read_at
  read_company l =
      by_count (Seed.company ∷ le ∷ []) 15 (omega (arith, l, count_one le))
      ∙ rw (append-nil le) refl

  module _ (a : List ℕ) (k : length a ≡ 32) where
    read_mint :
        length le ≡ 4 → read_seeds (Seed.mint ∷ a ∷ le ∷ []) ≡ mint_pda a (pos (little_endian le))
    unfolding read_at
    read_mint l =
        by_count (Seed.mint ∷ a ∷ le ∷ []) 40 (omega (arith, l, k, count_two a le))
        ∙ rw (take_front 32 a (le ++ []) k, drop_front 32 a (le ++ []) k, append-nil le) refl

    read_offer :
        (b : List ℕ)
        → length b ≡ 32
        → length le ≡ 8
        → read_seeds (Seed.offer ∷ a ∷ b ∷ le ∷ []) ≡ offer_pda a b (pos (little_endian le))
    unfolding read_at
    read_offer b j l =
        by_count (Seed.offer ∷ a ∷ b ∷ le ∷ []) 77 (omega (arith, l, k, j, count_three a b le))
        ∙ rw
            (
              take_front 32 a (b ++ (le ++ [])) k,
              drop_front 32 a (b ++ (le ++ [])) k,
              take_front 32 b (le ++ []) j,
              drop_keys a b (le ++ []) k j,
              append-nil le,
            )
            refl

module _ (a : List ℕ) (k : length a ≡ 32) where
  read_token : read_seeds (Seed.token ∷ a ∷ []) ≡ token_config_pda a
  unfolding read_at
  read_token =
      by_count (Seed.token ∷ a ∷ []) 37 (omega (arith, k, count_one a))
      ∙ rw (take_front 32 a [] k) refl

  read_permit : read_seeds (Seed.permit ∷ a ∷ []) ≡ transfer_permit_pda a
  unfolding read_at
  read_permit =
      by_count (Seed.permit ∷ a ∷ []) 38 (omega (arith, k, count_one a))
      ∙ rw (take_front 32 a [] k) refl

  module _ (b : List ℕ) (j : length b ≡ 32) where
    read_investor : read_seeds (Seed.investor ∷ a ∷ b ∷ []) ≡ investor_record_pda a b
    unfolding read_at
    read_investor =
        by_count (Seed.investor ∷ a ∷ b ∷ []) 72 (omega (arith, k, j, count_two a b))
        ∙ rw (take_front 32 a (b ++ []) k, drop_front 32 a (b ++ []) k, take_front 32 b [] j) refl

    read_grant : read_seeds (Seed.grant ∷ a ∷ b ∷ []) ≡ grant_pda a b
    unfolding read_at
    read_grant =
        by_count (Seed.grant ∷ a ∷ b ∷ []) 69 (omega (arith, k, j, count_two a b))
        ∙ rw (take_front 32 a (b ++ []) k, drop_front 32 a (b ++ []) k, take_front 32 b [] j) refl

-- Reading the seeds gives the account back.
read-seeds :
    (a : Pda) (parts : List (List ℕ)) → KeysWhole a → seeds a ≡ some parts → read_seeds parts ≡ a
unfolding seeds
read-seeds platform_pda parts k h =
    rw (sym (some-injective (Seed.platform ∷ []) parts h)) platform_read
read-seeds (company_pda id) parts k h =
    let (le, found, e) = map-some (λ le. Seed.company ∷ le ∷ []) (u64_le id) parts h in
    let (l, v) = u64_le-value id le found in rw (sym e) (read_company le l ∙ ap company_pda v)
read-seeds (mint_pda company index) parts k h =
    let (le, found, e) = map-some (λ le. Seed.mint ∷ company ∷ le ∷ []) (u32_le index) parts h in
    let (l, v) = u32_le-value index le found in
    rw (sym e) (read_mint le company k l ∙ ap (mint_pda company) v)
read-seeds (token_config_pda mint) parts k h =
    rw (sym (some-injective (Seed.token ∷ mint ∷ []) parts h)) (read_token mint k)
read-seeds (investor_record_pda mint wallet) parts (k, j) h =
    rw (sym (some-injective (Seed.investor ∷ mint ∷ wallet ∷ []) parts h))
      (read_investor mint k wallet j)
read-seeds (grant_pda mint wallet) parts (k, j) h =
    rw (sym (some-injective (Seed.grant ∷ mint ∷ wallet ∷ []) parts h)) (read_grant mint k wallet j)
read-seeds (transfer_permit_pda source) parts k h =
    rw (sym (some-injective (Seed.permit ∷ source ∷ []) parts h)) (read_permit source k)
read-seeds (offer_pda mint seller id) parts (k, j) h =
    let (le, found, e) =
      map-some (λ le. Seed.offer ∷ mint ∷ seller ∷ le ∷ []) (u64_le id) parts h in
    let (l, v) = u64_le-value id le found in
    rw (sym e) (read_offer le mint k seller j l ∙ ap (offer_pda mint seller) v)

-- Two accounts of the program whose seeds are the same bytes, one seed after another, are the same account
-- with the same arguments: where every key has 32 bytes and no number is out of range, so that both have
-- seeds.
pub seeds-distinct :
    (a b : Pda) (parts others : List (List ℕ))
    → KeysWhole a
    → KeysWhole b
    → seeds a ≡ some parts
    → seeds b ≡ some others
    → joined parts ≡ joined others
    → a ≡ b
seeds-distinct a b parts others k j h g same =
    sym (read-seeds a parts k h)
    ∙ ap (λ bytes. read_at (length bytes) bytes) same
    ∙ read-seeds b others j g

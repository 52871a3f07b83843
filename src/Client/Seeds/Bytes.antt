-- ===== src/Client/Seeds/Bytes.antt =====
-- The bytes of the seeds: little-endian numbers and parts of known length.
use cap_rail.Client.Seeds.{
  Pda, company_pda, grant_pda, in_range, investor_record_pda, le_bytes, mint_pda, offer_pda,
  platform_pda, token_config_pda, transfer_permit_pda, u32_le, u64_le,
}
use cap_rail.Indexer.Parse.{little_endian}
use cap_rail.Prelude.{
  List, Option, ℕ, [], ap, arith, drop, if◌then◌else◌, length, length-append, none, refl, some, suc,
  sym, take, zero, ◌*◌, ◌++◌, ◌/◌, ◌<◌, ◌==◌, ◌^◌, ◌∙◌, ◌∷◌, ◌≡◌, ◌≤◌,
}
use cap_rail.Prelude.Int.{ℤ, negsuc, pos}
use mathlib.Core.List.{append_assoc}
use mathlib.Core.Option.{some-injective}
use mathlib.Core.Option
use cap_rail.Client.Seeds.Seed

abbrev pub joined : List (List ℕ) → List ℕ
joined [] = []
joined (part ∷ parts) = part ++ joined parts

-- Every key among the arguments has its 32 bytes.
abbrev pub KeysWhole : Pda → Type 0
KeysWhole platform_pda = Unit
KeysWhole (company_pda id) = Unit
KeysWhole (mint_pda company index) = length company ≡ 32
KeysWhole (token_config_pda mint) = length mint ≡ 32
KeysWhole (investor_record_pda mint wallet) = (length mint ≡ 32) × (length wallet ≡ 32)
KeysWhole (grant_pda mint wallet) = (length mint ≡ 32) × (length wallet ≡ 32)
KeysWhole (transfer_permit_pda source) = length source ≡ 32
KeysWhole (offer_pda mint seller id) = (length mint ≡ 32) × (length seller ≡ 32)

-- What seeds of a number of bytes say.
unfoldable pub read_at : ℕ → List ℕ → Pda
read_at count bytes =
    if count == 8
    then platform_pda
    else if count == 15
    then company_pda (pos (little_endian (drop 7 bytes)))
    else if count == 40
    then mint_pda (take 32 (drop 4 bytes)) (pos (little_endian (drop 36 bytes)))
    else if count == 37
    then token_config_pda (take 32 (drop 5 bytes))
    else if count == 72
    then investor_record_pda (take 32 (drop 8 bytes)) (take 32 (drop 40 bytes))
    else if count == 69
    then grant_pda (take 32 (drop 5 bytes)) (take 32 (drop 37 bytes))
    else if count == 38
    then transfer_permit_pda (take 32 (drop 6 bytes))
    else offer_pda (take 32 (drop 5 bytes)) (take 32 (drop 37 bytes))
        (pos (little_endian (drop 69 bytes)))

abbrev pub read_seeds : List (List ℕ) → Pda
read_seeds parts = read_at (length (joined parts)) (joined parts)

pub by_count :
    (parts : List (List ℕ)) (n : ℕ)
    → length (joined parts) ≡ n
    → read_seeds parts ≡ read_at n (joined parts)
by_count parts n h = ap (λ count. read_at count (joined parts)) h

pub platform_read : read_seeds (Seed.platform ∷ []) ≡ platform_pda
unfolding read_at
platform_read = refl

length-le_bytes : (width value : ℕ) → length (le_bytes width value) ≡ width
unfolding le_bytes
length-le_bytes zero value = refl
length-le_bytes (suc width) value = ap suc (length-le_bytes width (value / 256))

quotient_bound : (value bound : ℕ) → value < 256 * bound → value / 256 < bound
quotient_bound value bound h = omega (arith, h)

little_endian-le_bytes :
    (width value : ℕ) → value < 256 ^ width → little_endian (le_bytes width value) ≡ value
unfolding le_bytes little_endian
little_endian-le_bytes zero value h = omega (arith, h)
little_endian-le_bytes (suc width) value h =
    let rest =
      little_endian-le_bytes width (value / 256)
        (quotient_bound value (256 ^ width) (grind (arith, h))) in
    omega (arith, rest)

pub take_front : (n : ℕ) (xs ys : List ℕ) → length xs ≡ n → take n (xs ++ ys) ≡ xs
take_front zero [] ys h = refl
take_front zero (x ∷ xs) ys h = ground (arith, h)
take_front (suc n) [] ys h = ground (arith, h)
take_front (suc n) (x ∷ xs) ys h = ap (λ r. x ∷ r) (take_front n xs ys (omega (arith, h)))

pub drop_front : (n : ℕ) (xs ys : List ℕ) → length xs ≡ n → drop n (xs ++ ys) ≡ ys
drop_front zero [] ys h = refl
drop_front zero (x ∷ xs) ys h = ground (arith, h)
drop_front (suc n) [] ys h = ground (arith, h)
drop_front (suc n) (x ∷ xs) ys h = drop_front n xs ys (omega (arith, h))

in_range_value :
    (v limit : ℕ) (bytes le : List ℕ)
    → (if in_range (pos v) limit then some bytes else none) ≡ some le
    → (bytes ≡ le) × (v ≤ limit)
in_range_value v limit bytes le h = ground (arith, h)

pub drop_keys :
    (a b rest : List ℕ) → length a ≡ 32 → length b ≡ 32 → drop 64 (a ++ (b ++ rest)) ≡ rest
drop_keys a b rest h j =
    ap (drop 64) (sym (append_assoc a b rest))
    ∙ drop_front 64 (a ++ b) rest (omega (arith, h, j, length-append a b))

pub u64_le-value :
    (v : ℤ) (le : List ℕ) → u64_le v ≡ some le → (length le ≡ 8) × (pos (little_endian le) ≡ v)
unfolding u64_le
u64_le-value (negsuc v) le h = ground (arith, h)
u64_le-value (pos v) le h =
    let (e, bound) = in_range_value v 0xffffffffffffffff (le_bytes 8 v) le h in
    rw (sym e) (length-le_bytes 8 v, ap pos (little_endian-le_bytes 8 v (omega (arith, bound))))

pub u32_le-value :
    (v : ℤ) (le : List ℕ) → u32_le v ≡ some le → (length le ≡ 4) × (pos (little_endian le) ≡ v)
unfolding u32_le
u32_le-value (negsuc v) le h = ground (arith, h)
u32_le-value (pos v) le h =
    let (e, bound) = in_range_value v 0xffffffff (le_bytes 4 v) le h in
    rw (sym e) (length-le_bytes 4 v, ap pos (little_endian-le_bytes 4 v (omega (arith, bound))))

pub map-some {ℓ κ} :
    {A : Type ℓ} {B : Type κ} (f : A → B) (o : Option A) (b : B)
    → Option.map f o ≡ some b
    → (a : A) × (o ≡ some a) × (f a ≡ b)
map-some f none b h = ground (arith, h)
map-some f (some a) b h = (a, refl, some-injective (f a) b h)

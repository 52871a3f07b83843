-- ===== src/Client/Seeds.antt =====
-- packages/chain/src/pda.ts: the seeds of the program's addresses. web3.js's search for the address is
-- the parameter `find_program_address`, a key is the list of its bytes.
pub mod Bytes
pub mod Seed
pub mod Distinct
use cap_rail.Prelude.{
  Bool, List, Option, ℕ, [], if◌then◌else◌, none, not, some, suc, zero, ◌%◌, ◌/◌, ◌||◌, ◌∷◌,
}
use cap_rail.Prelude.Int.{ℤ, ltb_ℤ, pos, pos_part}
use cap_rail.Client.Seeds.Seed
use mathlib.Core.Option

-- The byte at each end of `setBigUint64(0, value, true)` and `setUint32(0, value, true)`: the lowest first.
unfoldable pub le_bytes : ℕ → ℕ → List ℕ
le_bytes zero value = []
le_bytes (suc width) value = value % 256 ∷ le_bytes width (value / 256)

abbrev pub in_range : ℤ → ℕ → Bool
in_range value limit = not (ltb_ℤ value (pos 0) || ltb_ℤ (pos limit) value)

-- `none` is the RangeError, here and in all that follows.
unfoldable pub u64_le : ℤ → Option (List ℕ)
u64_le value =
    if in_range value 0xffffffffffffffff then some (le_bytes 8 (pos_part value)) else none

unfoldable pub u32_le : ℤ → Option (List ℕ)
u32_le value = if in_range value 0xffffffff then some (le_bytes 4 (pos_part value)) else none

-- One constructor for each function of the program's own addresses, with its arguments.
pub data Pda : Type 0 where
  platform_pda : Pda
  company_pda : (company_id : ℤ) → Pda
  mint_pda : (company : List ℕ) (token_index : ℤ) → Pda
  token_config_pda : (mint : List ℕ) → Pda
  investor_record_pda : (mint wallet : List ℕ) → Pda
  grant_pda : (mint wallet : List ℕ) → Pda
  transfer_permit_pda : (source : List ℕ) → Pda
  offer_pda : (mint seller : List ℕ) (offer_id : ℤ) → Pda

-- The seeds that each function passes to `derive`.
unfoldable pub seeds : Pda → Option (List (List ℕ))
seeds platform_pda = some (Seed.platform ∷ [])
seeds (company_pda id) = Option.map (λ le. Seed.company ∷ le ∷ []) (u64_le id)
seeds (mint_pda company index) = Option.map (λ le. Seed.mint ∷ company ∷ le ∷ []) (u32_le index)
seeds (token_config_pda mint) = some (Seed.token ∷ mint ∷ [])
seeds (investor_record_pda mint wallet) = some (Seed.investor ∷ mint ∷ wallet ∷ [])
seeds (grant_pda mint wallet) = some (Seed.grant ∷ mint ∷ wallet ∷ [])
seeds (transfer_permit_pda source) = some (Seed.permit ∷ source ∷ [])
seeds (offer_pda mint seller id) =
    Option.map (λ le. Seed.offer ∷ mint ∷ seller ∷ le ∷ []) (u64_le id)

-- `derive`, with `find_program_address` for `PublicKey.findProgramAddressSync(…)[0]`.
abbrev derive : (List (List ℕ) → List ℕ → List ℕ) → List ℕ → Pda → Option (List ℕ)
derive find_program_address program_id pda =
    Option.map (λ parts. find_program_address parts program_id) (seeds pda)

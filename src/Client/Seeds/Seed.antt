-- ===== src/Client/Seeds/Seed.antt =====
-- The labels of packages/chain/src/pda.ts, in bytes.
use cap_rail.Prelude.{List, ℕ, [], ◌∷◌}

abbrev pub platform : List ℕ
platform = b'p' ∷ b'l' ∷ b'a' ∷ b't' ∷ b'f' ∷ b'o' ∷ b'r' ∷ b'm' ∷ []

abbrev pub company : List ℕ
company = b'c' ∷ b'o' ∷ b'm' ∷ b'p' ∷ b'a' ∷ b'n' ∷ b'y' ∷ []

abbrev pub mint : List ℕ
mint = b'm' ∷ b'i' ∷ b'n' ∷ b't' ∷ []

abbrev pub token : List ℕ
token = b't' ∷ b'o' ∷ b'k' ∷ b'e' ∷ b'n' ∷ []

abbrev pub investor : List ℕ
investor = b'i' ∷ b'n' ∷ b'v' ∷ b'e' ∷ b's' ∷ b't' ∷ b'o' ∷ b'r' ∷ []

abbrev pub grant : List ℕ
grant = b'g' ∷ b'r' ∷ b'a' ∷ b'n' ∷ b't' ∷ []

abbrev pub permit : List ℕ
permit = b'p' ∷ b'e' ∷ b'r' ∷ b'm' ∷ b'i' ∷ b't' ∷ []

abbrev pub offer : List ℕ
offer = b'o' ∷ b'f' ∷ b'f' ∷ b'e' ∷ b'r' ∷ []

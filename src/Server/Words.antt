-- ===== src/Server/Words.antt =====
-- `u32::to_le_bytes` and `get_u32_le`.
use sqlite_daemon.Prelude.{ℕ, ◌+◌, ◌*◌, ◌/◌, ◌%◌, ◌^◌, ◌<◌, ◌≡◌, refl, List, [], ◌∷◌, length, arith}

-- `json.len() as u32`, and its four bytes, the lowest first.
unfoldable pub to_le_bytes : ℕ → List ℕ
to_le_bytes n = (n % 256) ∷ (n / 256 % 256) ∷ (n / 65536 % 256) ∷ (n / 16777216 % 256) ∷ []

unfoldable pub get_u32_le : List ℕ → ℕ
get_u32_le (a ∷ b ∷ c ∷ d ∷ rest) = a + 256 * b + 65536 * c + 16777216 * d
get_u32_le _ = 0

-- A length below 2 ^ 32 is read back from its four bytes.
pub get_u32_le-to_le_bytes : (n : ℕ) → n < 2 ^ 32 → get_u32_le (to_le_bytes n) ≡ n
unfolding get_u32_le to_le_bytes
get_u32_le-to_le_bytes n h = omega arith

pub length-to_le_bytes : (n : ℕ) → length (to_le_bytes n) ≡ 4
unfolding to_le_bytes
length-to_le_bytes n = refl

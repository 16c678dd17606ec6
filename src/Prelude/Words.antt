-- ===== src/Prelude/Words.antt =====
-- Rust's machine integers: `u64` sums, `i64` as a signed integer, and the `as i64` cast.
use Prim.Native.Nat.{ℕ, suc, ◌+◌, ◌-◌, ◌%◌, ◌^◌}
use sqlite_daemon.Prelude.Tests.{ltb, leb, if◌then◌else◌}

-- `negsuc n` is -(n + 1).
pub data ℤ : Type 0 where
  pos : ℕ → ℤ
  negsuc : ℕ → ℤ

abbrev pub pos_part : ℤ → ℕ
pos_part (pos n) = n
pos_part (negsuc n) = 0

abbrev pub neg_part : ℤ → ℕ
neg_part (pos n) = 0
neg_part (negsuc n) = suc n

-- a - b, as an integer.
abbrev pub sub_ℕ : ℕ → ℕ → ℤ
sub_ℕ a b = if leb b a then pos (a - b) else negsuc (b - a - 1)

infixl 65 ◌+ℤ◌
unfoldable pub ◌+ℤ◌ : ℤ → ℤ → ℤ
a +ℤ b = sub_ℕ (pos_part a + pos_part b) (neg_part a + neg_part b)

abbrev pub i64_max : ℤ
i64_max = pos 9223372036854775807

-- `u as i64` for a `u64`: two's complement.
unfoldable pub u64_as_i64 : ℕ → ℤ
u64_as_i64 u = if ltb u (2 ^ 63) then pos u else negsuc (2 ^ 64 - 1 - u)

-- `a + b` on `u64`, as the release profile compiles it.
unfoldable pub u64_add : ℕ → ℕ → ℕ
u64_add a b = (a + b) % 2 ^ 64

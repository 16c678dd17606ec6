-- ===== src/Text.antt =====
-- The standard library's operations on text that the daemon calls, over the code points of a
-- `str`: `trim`, `to_uppercase` and `contains`. The Unicode table beyond ASCII is a parameter.
pub mod Occurs
pub mod Case
use Prim.Native.Char.{code}
use sqlite_daemon.Prelude.{
  ℕ, ◌-◌, String, Bool, ◌&&◌, ◌||◌, List, [], ◌∷◌, ◌++◌, leb, ltb, ◌==◌, if◌then◌else◌,
}
use mathlib.Core.List.{reverse}

abbrev pub codes : String → List ℕ
codes String.[] = []
codes (String.◌∷◌ c s) = code c ∷ codes s

-- `char::is_whitespace`: Unicode's White_Space.
unfoldable pub is_whitespace : ℕ → Bool
is_whitespace c =
    (leb 0x9 c && leb c 0xd)
    || c == 0x20
    || c == 0x85
    || c == 0xa0
    || c == 0x1680
    || (leb 0x2000 c && leb c 0x200a)
    || c == 0x2028
    || c == 0x2029
    || c == 0x202f
    || c == 0x205f
    || c == 0x3000

unfoldable pub trim_start : List ℕ → List ℕ
trim_start [] = []
trim_start (c ∷ s) = let rest = trim_start s in if is_whitespace c then rest else c ∷ s

unfoldable pub trim : List ℕ → List ℕ
trim s = reverse (trim_start (reverse (trim_start s)))

unfoldable pub ascii_upper : ℕ → ℕ
ascii_upper c = if leb b'a' c && leb c b'z' then c - 32 else c

-- `str::to_uppercase`; `upper` is `char::to_uppercase` beyond ASCII.
unfoldable pub to_uppercase : (ℕ → List ℕ) → List ℕ → List ℕ
to_uppercase upper [] = []
to_uppercase upper (c ∷ s) =
    (if ltb c 128 then ascii_upper c ∷ [] else upper c) ++ to_uppercase upper s

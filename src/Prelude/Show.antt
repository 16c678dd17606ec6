-- ===== src/Prelude/Show.antt =====
-- Decimal printing of an unsigned number, as `format!("{}", n)` gives it.
use Prim.Native.Nat.{ℕ, zero, suc, ◌+◌, ◌/◌, ◌%◌}
use Prim.Native.String.{String, ◌++◌}
use sqlite_daemon.Prelude.Tests.{ltb, ◌==◌, if◌then◌else◌}

show_digit : ℕ → String
show_digit n =
    if n == 0
    then "0"
    else if n == 1
    then "1"
    else if n == 2
    then "2"
    else if n == 3
    then "3"
    else if n == 4
    then "4"
    else if n == 5
    then "5"
    else if n == 6
    then "6"
    else if n == 7
    then "7"
    else if n == 8
    then "8"
    else "9"

-- The fuel `n + 1` is more than the number of digits.
show_from : ℕ → ℕ → String
show_from zero n = ""
show_from (suc f) n =
    let high = show_from f (n / 10) in
    if ltb n 10 then show_digit n else high ++ show_digit (n % 10)

unfoldable pub show : ℕ → String
unfolding show_digit show_from
show n = show_from (n + 1) n

-- ===== src/Base/Decimal.antt =====
-- `str` of a number.
use Prim.Native.Nat.{ℕ, zero, suc, ◌/◌, ◌%◌}
use Prim.Native.String.{String, ◌++◌}
use hub_meta_conversion_serv.Base.Tests.{ltb, if◌then◌else◌}

unfoldable pub digit : ℕ → String
digit n =
    if ltb n 5
    then (if ltb n 2
        then (if ltb n 1 then "0" else "1")
        else if ltb n 3
        then "2"
        else if ltb n 4
        then "3"
        else "4")
    else if ltb n 7
    then (if ltb n 6 then "5" else "6")
    else if ltb n 8
    then "7"
    else if ltb n 9
    then "8"
    else "9"

-- `str(n)` for a number of at most `suc places` digits.
unfoldable pub decimal_from : ℕ → ℕ → String
unfolding digit
decimal_from zero n = digit n
decimal_from (suc places) n =
    let front = decimal_from places (n / 10) in
    if ltb n 10 then digit n else front ++ digit (n % 10)

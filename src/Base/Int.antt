-- ===== src/Base/Int.antt =====
-- Go's `int`, unbounded: the program's counts and ports stay far below its 64 bits.
use Prim.Native.Nat.{ℕ, zero, suc, ◌+◌, ◌/◌, ◌%◌}
use Prim.Native.String.{String}
use mathlib.Core.Path.{◌≡◌, refl}
use batch_job_controller.Base.Tests.{if◌then◌else◌, ltb, eqb}
use batch_job_controller.Base.Text.{◌<>◌}

-- `negsuc n` is -(n + 1).
pub data ℤ : Type 0 where
  pos : ℕ → ℤ
  negsuc : ℕ → ℤ

-- `n + 1`
abbrev pub next : ℤ → ℤ
next (pos n) = pos (n + 1)
next (negsuc zero) = pos 0
next (negsuc (suc n)) = negsuc n

digit : ℕ → String
digit n =
    if eqb n 0
    then "0"
    else if eqb n 1
    then "1"
    else if eqb n 2
    then "2"
    else if eqb n 3
    then "3"
    else if eqb n 4
    then "4"
    else if eqb n 5
    then "5"
    else if eqb n 6
    then "6"
    else if eqb n 7
    then "7"
    else if eqb n 8
    then "8"
    else "9"

-- Decimal digits; a number has no more digits than the fuel `n + 1`.
decimal_from : ℕ → ℕ → String
decimal_from zero n = ""
decimal_from (suc f) n =
    let front = decimal_from f (n / 10) in if ltb n 10 then digit n else front <> digit (n % 10)

-- `strconv.Itoa`, and the verb "%d"
unfoldable pub itoa : ℤ → String
unfolding decimal_from digit
itoa (pos n) = decimal_from (suc n) n
itoa (negsuc n) = "-" <> decimal_from (suc (suc n)) (suc n)

itoa_test : itoa (negsuc 152) <> itoa (pos 9070) ≡ "-1539070"
unfolding itoa
itoa_test = refl

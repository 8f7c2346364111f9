-- ===== src/Prelude/Int64.antt =====
-- Signed 64-bit integers with wrap-around: the integer x is held as the number x + 2^63, so that
-- the order of the integers is the order of ℕ. The release build has no overflow checks.
use Prim.Native.Nat.{ℕ, ◌+◌, ◌-◌, ◌*◌, ◌%◌, ◌<◌, ◌^◌}
use lockrail.Prelude.Tests.{leb, if◌then◌else◌}

-- The integer n, for n below 2^63; `zero` is `of_nat 0`.
abbrev pub of_nat : ℕ → ℕ
of_nat n = 2 ^ 63 + n

-- x + y, x - y and x * n for a small factor n
abbrev pub add : ℕ → ℕ → ℕ
add x y = (x + y + 2 ^ 63) % 2 ^ 64

abbrev pub sub : ℕ → ℕ → ℕ
sub x y = (x + 2 ^ 64 - y + 2 ^ 63) % 2 ^ 64

abbrev pub times : ℕ → ℕ → ℕ
times x n = (x * n + 2 ^ 63 * (n + 1)) % 2 ^ 64

-- `x.abs()`: the least integer is its own absolute value.
abbrev pub abs : ℕ → ℕ
abs x = if leb (2 ^ 63) x then x else (2 ^ 64 - x) % 2 ^ 64

pub record IsInt64 (x : ℕ) : Type 0 where
  pub bound : x < 2 ^ 64

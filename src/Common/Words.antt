-- ===== src/Common/Words.antt =====
-- Unsigned 64-bit integers: `u64`, and `usize` on the 64-bit targets that the program supports.
use Prim.Native.Nat.{ℕ, ◌+◌, ◌*◌, ◌-◌, min}

abbrev pub u64_max : ℕ
u64_max = 18446744073709551615

-- The most bytes that a Rust slice can hold (`isize::MAX`).
abbrev pub slice_max : ℕ
slice_max = 9223372036854775807

abbrev pub saturating_add : ℕ → ℕ → ℕ
saturating_add a b = min (a + b) u64_max

-- Subtraction on ℕ stops at 0, as `saturating_sub` does.
abbrev pub saturating_sub : ℕ → ℕ → ℕ
saturating_sub a b = a - b

abbrev pub saturating_mul : ℕ → ℕ → ℕ
saturating_mul a b = min (a * b) u64_max

-- `u64::try_from(n).unwrap_or(u64::MAX)`, and the same towards `usize`.
abbrev pub saturate : ℕ → ℕ
saturate n = min n u64_max

-- ===== src/Base/Word.antt =====
-- Machine words as native numbers. A `uint32_t` is a number below 2 ^ 32 and every operation that
-- can wrap says so; an `int32_t` is kept as its bit pattern, and compared as a signed number.
use Prim.Native.Nat.{ℕ, ◌+◌, ◌-◌, ◌%◌, ◌^◌, ◌<◌}
use mathlib.Core.Path.{◌≡◌}
use mathlib.Core.Bool.{Bool, ◌&&◌}
use native.Mathlib.Omega.{arith}
use cardiag.Base.Tests.{ltb, leb}

abbrev pub u8 : ℕ → ℕ
u8 n = n % 256

abbrev pub u16 : ℕ → ℕ
u16 n = n % 65536

abbrev pub u32 : ℕ → ℕ
u32 n = n % 2 ^ 32

-- `a - b` on uint32_t
abbrev pub sub32 : ℕ → ℕ → ℕ
sub32 a b = (a + 2 ^ 32 - b) % 2 ^ 32

-- `(int32_t)a >= 0`
abbrev pub nonneg32 : ℕ → Bool
nonneg32 a = ltb a (2 ^ 31)

-- `(int32_t)a > 0`
abbrev pub pos32 : ℕ → Bool
pos32 a = ltb 0 a && ltb a (2 ^ 31)

-- `(int32_t)a <= (int32_t)b`: adding 2 ^ 31 turns the signed order into the unsigned one.
abbrev pub le_i32 : ℕ → ℕ → Bool
le_i32 a b = leb ((a + 2 ^ 31) % 2 ^ 32) ((b + 2 ^ 31) % 2 ^ 32)

-- `(int32_t)a < (int32_t)b`
abbrev pub lt_i32 : ℕ → ℕ → Bool
lt_i32 a b = ltb ((a + 2 ^ 31) % 2 ^ 32) ((b + 2 ^ 31) % 2 ^ 32)

-- What a clock shows `k` ms after `t`.
abbrev pub later : ℕ → ℕ → ℕ
later t k = u32 (t + k)

pub sub32-later : (t k : ℕ) → t < 2 ^ 32 → k < 2 ^ 32 → sub32 (later t k) t ≡ k
sub32-later t k ht hk = omega arith

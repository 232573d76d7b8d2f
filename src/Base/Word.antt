-- ===== src/Base/Word.antt =====
-- 32-bit words as native numbers below 2 ^ 32, with the wrap of C's unsigned arithmetic.
use Prim.Native.Nat.{ℕ, ◌-◌, ◌*◌, ◌/◌, ◌%◌, ◌^◌}

abbrev pub u8 : ℕ → ℕ
u8 x = x % 2 ^ 8

abbrev pub u32 : ℕ → ℕ
u32 x = x % 2 ^ 32

abbrev pub u64 : ℕ → ℕ
u64 x = x % 2 ^ 64

infixl 75 ◌<<<◌ ◌>>>◌
-- `value << count`, cut to 32 bits, and `value >> count`.
abbrev pub ◌<<<◌ : ℕ → ℕ → ℕ
x <<< k = u32 (x * 2 ^ k)

abbrev pub ◌>>>◌ : ℕ → ℕ → ℕ
x >>> k = x / 2 ^ k

-- `~value`
abbrev pub not32 : ℕ → ℕ
not32 x = 0xffffffff - x

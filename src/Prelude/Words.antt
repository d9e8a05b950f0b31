-- ===== src/Prelude/Words.antt =====
-- Unsigned words in memory: little-endian bytes, and arithmetic modulo 2 ^ 32.
use Prim.Native.Nat.{ℕ, ◌+◌, ◌-◌, ◌*◌, ◌/◌, ◌%◌, ◌<◌}
use mathlib.Core.Path.{◌≡◌}
use mathlib.Core.List.{List, [], ◌∷◌, ◌++◌}
use native.Mathlib.Omega.{arith}
use piggy_engine.Prelude.Lists.{get_or, drop}

abbrev pub u16 : ℕ
u16 = 0x1_0000

abbrev pub u32 : ℕ
u32 = 0x1_0000_0000

abbrev pub u64 : ℕ
u64 = 0x1_0000_0000_0000_0000

abbrev pub IsU32 : ℕ → Type 0
IsU32 x = x < u32

unfoldable pub add32 : ℕ → ℕ → ℕ
add32 a b = (a + b) % u32

unfoldable pub sub32 : ℕ → ℕ → ℕ
sub32 a b = (a + u32 - b) % u32

-- the bytes that `memcpy` copies out of an unsigned integer, lowest first
abbrev pub u16_bytes : ℕ → List ℕ
u16_bytes x = x % 256 ∷ x / 256 % 256 ∷ []

abbrev pub u32_bytes : ℕ → List ℕ
u32_bytes x = x % 256 ∷ x / 256 % 256 ∷ x / 65536 % 256 ∷ x / 16777216 % 256 ∷ []

-- `memcpy` into an unsigned integer; a byte past the end reads as 0
abbrev pub read_u16 : List ℕ → ℕ
read_u16 p = get_or p 0 0 + get_or p 1 0 * 256

abbrev pub read_u32 : List ℕ → ℕ
read_u32 p = get_or p 0 0 + get_or p 1 0 * 256 + get_or p 2 0 * 65536 + get_or p 3 0 * 16777216

pub read_u16_bytes : (x : ℕ) (rest : List ℕ) → x < u16 → read_u16 (u16_bytes x ++ rest) ≡ x
read_u16_bytes x rest h = omega arith

pub read_u32_bytes : (x : ℕ) (rest : List ℕ) → x < u32 → read_u32 (u32_bytes x ++ rest) ≡ x
read_u32_bytes x rest h = omega arith

abbrev pub u64_bytes : ℕ → List ℕ
u64_bytes x = u32_bytes x ++ u32_bytes (x / u32)

abbrev pub read_u64 : List ℕ → ℕ
read_u64 p = read_u32 p + read_u32 (drop 4 p) * u32

pub read_u64_bytes : (x : ℕ) (rest : List ℕ) → x < u64 → read_u64 (u64_bytes x ++ rest) ≡ x
read_u64_bytes x rest h = omega arith

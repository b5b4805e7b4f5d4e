-- ===== src/Prelude/Words.antt =====
-- Machine words as numbers with their wrap-around, and little-endian bytes.
use Prim.Native.Nat.{ℕ, ◌+◌, ◌-◌, ◌*◌, ◌/◌, ◌%◌, ◌<◌}
use mathlib.Core.Path.{◌≡◌}
use native.Mathlib.Omega.{arith}

abbrev pub u8 : ℕ → ℕ
u8 n = n % 256

abbrev pub u16 : ℕ → ℕ
u16 n = n % 65536

abbrev pub u32 : ℕ → ℕ
u32 n = n % 4294967296

-- `a - b` on `uint32_t`.
abbrev pub sub32 : ℕ → ℕ → ℕ
sub32 a b = (a + 4294967296 - b) % 4294967296

-- `(uint16_t)lo | ((uint16_t)hi << 8)` on bytes: the bits are disjoint.
abbrev pub le16 : ℕ → ℕ → ℕ
le16 lo hi = lo + 256 * hi

-- Four bytes joined the same way.
abbrev pub le32 : ℕ → ℕ → ℕ → ℕ → ℕ
le32 a b c d = a + 256 * b + 65536 * c + 16777216 * d

pub le16_bytes : (x : ℕ) → x < 65536 → le16 (x % 256) (u8 (x / 256)) ≡ x
le16_bytes x h = omega arith

pub le32_bytes :
    (x : ℕ)
    → x < 4294967296
    → le32 (x % 256) (x / 256 % 256) (x / 65536 % 256) (x / 16777216 % 256) ≡ x
le32_bytes x h = omega arith

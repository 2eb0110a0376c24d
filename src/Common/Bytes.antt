-- ===== src/Common/Bytes.antt =====
-- Fixed-width integers as bytes, as `encoding/binary` writes and reads them.
use Prim.Native.Nat.{ℕ, ◌+◌, ◌*◌, ◌/◌, ◌%◌, ◌<◌}
use mathlib.Core.Path.{◌≡◌}
use mathlib.Core.List.{List, [], ◌∷◌}
use native.Mathlib.Omega.{arith}

-- A conversion to uint16 keeps the low 16 bits.
abbrev pub uint16 : ℕ → ℕ
uint16 n = n % 65536

abbrev pub uint8 : ℕ → ℕ
uint8 n = n % 256

abbrev pub uint32 : ℕ → ℕ
uint32 n = n % 4294967296

-- A uint16 in big-endian order.
abbrev pub put_uint16_be : ℕ → List ℕ
put_uint16_be n = n / 256 % 256 ∷ n % 256 ∷ []

-- `binary.BigEndian.Uint16`, computed in uint16.
abbrev pub uint16_be : ℕ → ℕ → ℕ
uint16_be hi lo = uint16 (hi * 256 + lo)

-- A uint16 in little-endian order.
abbrev pub put_uint16_le : ℕ → List ℕ
put_uint16_le n = n % 256 ∷ n / 256 % 256 ∷ []

pub uint16_be-put_uint16_be : (n : ℕ) → n < 65536 → uint16_be (n / 256 % 256) (n % 256) ≡ n
uint16_be-put_uint16_be n h = omega arith

abbrev pub IsByte : ℕ → Type 0
IsByte b = b < 256

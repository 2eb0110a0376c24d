-- ===== src/Common/Bits.antt =====
-- Exclusive or with one bit, by the recursion over binary digits.
use Prim.Native.Nat.{
  ℕ, zero, suc, ◌+◌, ◌-◌, ◌*◌, ◌/◌, ◌%◌, ◌^◌, ◌≤◌, ◌<◌, bit_xor, differ, digits, bit_xor-bitwise,
}
use mathlib.Core.Path.{◌≡◌, refl, ◌∙◌, ap₂, ap}
use native.Mathlib.Nat.{pow-suc}
use native.Mathlib.Decide.{dec_lt}
use native.Mathlib.Omega.{arith}

abbrev xor_digits : ℕ → ℕ → ℕ → ℕ
xor_digits n a b = digits (λ b. b) differ n a b

xor_digits_fuel : (n m a b : ℕ) → a ≤ n → a ≤ m → xor_digits n a b ≡ xor_digits m a b
xor_digits_fuel zero zero a b p q = refl
xor_digits_fuel zero (suc m) zero b p q = refl
xor_digits_fuel zero (suc m) (suc a) b p q = absurd (omega arith)
xor_digits_fuel (suc n) zero zero b p q = refl
xor_digits_fuel (suc n) zero (suc a) b p q = absurd (omega arith)
xor_digits_fuel (suc n) (suc m) zero b p q = refl
xor_digits_fuel (suc n) (suc m) (suc a) b p q =
    omega (arith, xor_digits_fuel n m (suc a / 2) (b / 2) (omega arith) (omega arith))

pub zero-bit_xor : (b : ℕ) → bit_xor 0 b ≡ b
zero-bit_xor b = bit_xor-bitwise 0 b

pub bit_xor_step : (a b : ℕ) → bit_xor a b ≡ bit_xor (a / 2) (b / 2) * 2 + differ (a % 2) (b % 2)
bit_xor_step zero b = omega (arith, zero-bit_xor b, zero-bit_xor (b / 2))
bit_xor_step (suc a) b = omega (
  arith,
  bit_xor-bitwise (suc a) b,
  bit_xor-bitwise (suc a / 2) (b / 2),
  xor_digits_fuel a (suc a / 2) (suc a / 2) (b / 2) (omega arith) (omega arith),
)

double_step : (p x : ℕ) → bit_xor (p * 2) x ≡ bit_xor p (x / 2) * 2 + x % 2
double_step p x =
    bit_xor_step (p * 2) x
    ∙ ap₂ (λ (h l : ℕ). bit_xor h (x / 2) * 2 + differ l (x % 2)) {x = p * 2 / 2} {y = p}
        {u = p * 2 % 2} {v = 0} (omega arith) (omega arith)

-- Below bit `k` the bit is set.
pub bit_xor_set : (k x : ℕ) → x < 2 ^ k → bit_xor (2 ^ k) x ≡ 2 ^ k + x
bit_xor_set zero zero h = refl
bit_xor_set zero (suc x) h = absurd (omega arith)
bit_xor_set (suc k) x h =
    rw (pow-suc 2 k)
      (omega (arith, double_step (2 ^ k) x, bit_xor_set k (x / 2) (omega (arith, pow-suc 2 k))))

-- At bit `k` the bit is cleared.
pub bit_xor_clear : (k x : ℕ) → x < 2 ^ k → bit_xor (2 ^ k) (2 ^ k + x) ≡ x
bit_xor_clear zero zero h = refl
bit_xor_clear zero (suc x) h = absurd (omega arith)
bit_xor_clear (suc k) x h =
    let p : ℕ = 2 ^ k in
    let half : (p * 2 + x) / 2 ≡ p + x / 2 = omega arith in
    rw (pow-suc 2 k) (
      omega (
        arith,
        double_step (2 ^ k) (2 ^ k * 2 + x),
        ap (bit_xor (2 ^ k)) half,
        bit_xor_clear k (x / 2) (omega (arith, pow-suc 2 k)),
      ))

-- Flipping the top bit of a uint32 and adding that bit again with wrap-around changes nothing.
pub flip_then_add : (x : ℕ) → x < 2 ^ 32 → (bit_xor 0x80000000 x + 0x80000000) % 4294967296 ≡ x
flip_then_add x h = elim (dec_lt x 0x80000000) [
  | yes low ↦ omega (arith, bit_xor_set 31 x low)
  | no high ↦
      let y : ℕ = x - 0x80000000 in
      let split : x ≡ 0x80000000 + y = omega arith in
      omega (arith, ap (bit_xor 0x80000000) split ∙ bit_xor_clear 31 y (omega arith))
]

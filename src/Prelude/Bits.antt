-- ===== src/Prelude/Bits.antt =====
-- Binary digits of the native numbers, and what the bit operations of C do to them.
use Prim.Native.Nat.{
  ℕ, zero, suc, ◌+◌, ◌-◌, ◌*◌, ◌/◌, ◌%◌, ◌^◌, ◌≤◌, ◌<◌, min, max, bit_and, bit_or, digits,
  bit_and-bitwise, bit_or-bitwise,
}
use mathlib.Core.Path.{◌≡◌, refl, ap, ◌∙◌}
use mathlib.Core.Logic.{◌≢◌}
use native.Mathlib.Omega.{arith}

abbrev pub bit : ℕ → ℕ → ℕ
bit a zero = a % 2
bit a (suc i) = bit (a / 2) i

pub bit-zero : (i : ℕ) → bit 0 i ≡ 0
bit-zero zero = refl
bit-zero (suc i) = bit-zero i

-- The recursion of the native operations may take more steps than it needs.
and_fuel :
    (n m a b : ℕ) → a ≤ n → a ≤ m → digits (λ b. zero) min n a b ≡ digits (λ b. zero) min m a b
and_fuel zero zero a b p q = refl
and_fuel zero (suc m) zero b p q = refl
and_fuel zero (suc m) (suc a) b p q = absurd (omega arith)
and_fuel (suc n) zero zero b p q = refl
and_fuel (suc n) zero (suc a) b p q = absurd (omega arith)
and_fuel (suc n) (suc m) zero b p q = refl
and_fuel (suc n) (suc m) (suc a) b p q =
    omega (arith, and_fuel n m (suc a / 2) (b / 2) (omega arith) (omega arith))

or_fuel : (n m a b : ℕ) → a ≤ n → a ≤ m → digits (λ b. b) max n a b ≡ digits (λ b. b) max m a b
or_fuel zero zero zero b p q = refl
or_fuel zero zero (suc a) b p q = absurd (omega arith)
or_fuel zero (suc m) zero b p q = refl
or_fuel zero (suc m) (suc a) b p q = absurd (omega arith)
or_fuel (suc n) zero zero b p q = refl
or_fuel (suc n) zero (suc a) b p q = absurd (omega arith)
or_fuel (suc n) (suc m) zero b p q = refl
or_fuel (suc n) (suc m) (suc a) b p q =
    omega (arith, or_fuel n m (suc a / 2) (b / 2) (omega arith) (omega arith))

and_step : (a b : ℕ) → bit_and a b ≡ bit_and (a / 2) (b / 2) * 2 + min (a % 2) (b % 2)
and_step zero b = omega (arith, bit_and-bitwise 0 b, bit_and-bitwise 0 (b / 2))
and_step (suc a) b = omega (
  arith,
  bit_and-bitwise (suc a) b,
  bit_and-bitwise (suc a / 2) (b / 2),
  and_fuel a (suc a / 2) (suc a / 2) (b / 2) (omega arith) (omega arith),
)

or_step : (a b : ℕ) → bit_or a b ≡ bit_or (a / 2) (b / 2) * 2 + max (a % 2) (b % 2)
or_step zero b = omega (arith, bit_or-bitwise 0 b, bit_or-bitwise 0 (b / 2))
or_step (suc a) b = omega (
  arith,
  bit_or-bitwise (suc a) b,
  bit_or-bitwise (suc a / 2) (b / 2),
  or_fuel a (suc a / 2) (suc a / 2) (b / 2) (omega arith) (omega arith),
)

pub bit-bit_and : (a b i : ℕ) → bit (bit_and a b) i ≡ min (bit a i) (bit b i)
bit-bit_and a b zero = omega (arith, and_step a b)
bit-bit_and a b (suc i) =
    ap (λ x. bit x i) (omega (arith, and_step a b)) ∙ bit-bit_and (a / 2) (b / 2) i

pub bit-bit_or : (a b i : ℕ) → bit (bit_or a b) i ≡ max (bit a i) (bit b i)
bit-bit_or a b zero = omega (arith, or_step a b)
bit-bit_or a b (suc i) =
    ap (λ x. bit x i) (omega (arith, or_step a b)) ∙ bit-bit_or (a / 2) (b / 2) i

pub bit_lt_two : (a i : ℕ) → bit a i < 2
bit_lt_two a zero = omega arith
bit_lt_two a (suc i) = bit_lt_two (a / 2) i

pow_suc : (k : ℕ) → 2 ^ suc k ≡ 2 * 2 ^ k
pow_suc k = omega arith

pub bit-pow_self : (k : ℕ) → bit (2 ^ k) k ≡ 1
bit-pow_self zero = refl
bit-pow_self (suc k) = ap (λ x. bit x k) (omega (arith, pow_suc k)) ∙ bit-pow_self k

pub bit-pow_other : (k i : ℕ) → i ≢ k → bit (2 ^ k) i ≡ 0
bit-pow_other zero zero h = absurd (h refl)
bit-pow_other zero (suc i) h = bit-zero i
bit-pow_other (suc k) zero h = omega (arith, pow_suc k)
bit-pow_other (suc k) (suc i) h =
    ap (λ x. bit x i) (omega (arith, pow_suc k)) ∙ bit-pow_other k i (λ e. h (ap suc e))

-- ~x in a word of w bits
pub bit-complement : (w x i : ℕ) → x < 2 ^ w → i < w → bit (2 ^ w - 1 - x) i ≡ 1 - bit x i
bit-complement zero x i h k = absurd (omega (arith, k))
bit-complement (suc w) x zero h k = omega (arith, pow_suc w, h)
bit-complement (suc w) x (suc i) h k =
    ap (λ y. bit y i) (omega (arith, pow_suc w, h))
    ∙ bit-complement w (x / 2) i (omega (arith, pow_suc w, h)) (omega (arith, k))

pow_pos : (w : ℕ) → 0 < 2 ^ w
pow_pos zero = omega arith
pow_pos (suc w) = omega (arith, pow_suc w, pow_pos w)

pub pow_lt : (k w : ℕ) → k < w → 2 ^ k < 2 ^ w
pow_lt k zero h = absurd (omega (arith, h))
pow_lt zero (suc w) h = omega (arith, pow_suc w, pow_pos w)
pow_lt (suc k) (suc w) h = omega (arith, pow_suc k, pow_suc w, pow_lt k w (omega (arith, h)))

swap : (a x : ℕ) → a * (2 * x) ≡ 2 * (a * x)
swap zero x = omega arith
swap (suc a) x = omega (arith, swap a x)

double : (a k : ℕ) → a * 2 ^ suc k ≡ 2 * (a * 2 ^ k)
double a k = ap (λ x. a * x) (pow_suc k) ∙ swap a (2 ^ k)

or_zero_fuel : (n a : ℕ) → a ≤ n → bit_or a 0 ≡ a
or_zero_fuel n zero h = omega (arith, bit_or-bitwise 0 0)
or_zero_fuel zero (suc a) h = absurd (omega (arith, h))
or_zero_fuel (suc n) (suc a) h =
    omega (arith, or_step (suc a) 0, or_zero_fuel n (suc a / 2) (omega (arith, h)))

-- Digits put side by side.
pub bit_or-shifted : (k a b : ℕ) → b < 2 ^ k → bit_or (a * 2 ^ k) b ≡ a * 2 ^ k + b
bit_or-shifted zero a b h =
    ap (λ x. bit_or (a * 1) x) (omega (arith, h))
    ∙ or_zero_fuel (a * 1) (a * 1) (omega arith)
    ∙ omega (arith, h)
bit_or-shifted (suc k) a b h =
    let m = double a k in
    let r = bit_or-shifted k a (b / 2) (omega (arith, pow_suc k, h)) in
    let q = or_step (a * 2 ^ suc k) b in
    let w : bit_or (a * 2 ^ suc k / 2) (b / 2) ≡ bit_or (a * 2 ^ k) (b / 2) =
      ap (λ x. bit_or x (b / 2)) (omega (arith, m)) in
    omega (arith, q, w, r, m)

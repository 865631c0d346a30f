-- ===== src/Cyberphys/Scaling.antt =====
-- The scaling of the raw readings in prvSensorTask() of demo/cyberphys/main_besspin.c, with the
-- functions min() and max() there, whose arguments are numbers of 16 bits.
use Prim.Native.Nat.{bit_or}
use free_rtos_demos_cheri_ri.Prelude.{
  ℕ, suc, ◌+◌, ◌-◌, ◌*◌, ◌/◌, ◌%◌, ◌^◌, ◌≤◌, ◌<◌, ◌≡◌, refl, ◌∙◌, ap, ℤ, pos, negsuc, sub_ℕ, ltb,
  if◌then◌else◌, arith, min,
}

-- The cast of the low 16 bits to int16_t
unfoldable pub int16_of_bits : ℕ → ℤ
int16_of_bits u = if ltb u (2 ^ 15) then pos u else negsuc (2 ^ 16 - 1 - u)

-- The cast of an int to int16_t
unfoldable pub to_int16 : ℤ → ℤ
unfolding int16_of_bits
to_int16 (pos n) = int16_of_bits (n % 2 ^ 16)
to_int16 (negsuc n) = int16_of_bits (2 ^ 16 - 1 - n % 2 ^ 16)

-- max( a, 0 ), of an int that is passed as an int16_t
max_zero : ℤ → ℤ
max_zero (pos n) = pos n
max_zero (negsuc n) = pos 0

unfoldable pub max0 : ℤ → ℤ
unfolding max_zero to_int16
max0 a = max_zero (to_int16 a)

-- min( a, 100 ), of an int16_t
unfoldable pub min100 : ℤ → ℤ
min100 (pos n) = pos (min n 100)
min100 (negsuc n) = negsuc n

-- a - b and b - a
unfoldable pub minus : ℤ → ℕ → ℤ
minus (pos n) b = sub_ℕ n b
minus (negsuc n) b = negsuc (n + b)

unfoldable pub minus_from : ℕ → ℤ → ℤ
minus_from b (pos n) = sub_ℕ b n
minus_from b (negsuc n) = pos (b + n + 1)

-- a * gain / range, rounded towards zero
unfoldable pub scale : ℕ → ℕ → ℤ → ℤ
scale gain range (pos n) = pos (n * gain / range)
scale gain range (negsuc n) = sub_ℕ 0 (suc n * gain / range)

-- ( uint8_t ) of an int16_t
unfoldable pub to_u8 : ℤ → ℕ
to_u8 (pos n) = n % 2 ^ 8
to_u8 (negsuc n) = 2 ^ 8 - 1 - n % 2 ^ 8

-- ( int16_t ) ( high << 8 | low )
unfoldable pub raw_of : ℕ → ℕ → ℤ
unfolding int16_of_bits
raw_of low high = int16_of_bits (bit_or (high * 2 ^ 8) low % 2 ^ 16)

unfoldable pub throttle_of : ℤ → ℕ
unfolding max0 min100 minus scale to_int16 to_u8
throttle_of raw = to_u8 (min100 (max0 (to_int16 (scale 100 (926 - 64) (max0 (minus raw 64))))))

unfoldable pub brake_of : ℤ → ℕ
unfolding max0 min100 minus_from scale to_int16 to_u8
brake_of raw = to_u8 (min100 (max0 (to_int16 (scale 100 (270 - 50) (max0 (minus_from 270 raw))))))

-- What prvSensorTask() makes of a raw throttle of 16 bits: for a reading that is not negative, the
-- part of the way from 64 to 926 in percent, 0 below and 100 above; for a negative reading 0, but
-- 100 for the lowest 64 of them, from where the subtraction of 64 leaves the 16 bits.
pub throttle_of-percent :
    (u : ℕ)
    → u < 2 ^ 16
    → throttle_of (int16_of_bits u) ≡ (
        if ltb u (2 ^ 15)
        then min ((u - 64) * 100 / 862) 100
        else if ltb u (2 ^ 15 + 64)
        then 100
        else 0)
unfolding throttle_of int16_of_bits max0 max_zero min100 minus scale to_int16 to_u8
throttle_of-percent u h = ground arith

-- What it makes of a raw brake of 16 bits, which falls as the pedal is pressed: for a reading that is
-- not negative, the part of the way from 270 down to 50 in percent, 0 above and 100 below; for a
-- negative reading 100, but 0 for the lowest 271 of them, from where the subtraction leaves the 16
-- bits.
brake_of-percent :
    (u : ℕ)
    → u < 2 ^ 16
    → brake_of (int16_of_bits u) ≡ (
        if ltb u (2 ^ 15)
        then min ((270 - u) * 100 / 220) 100
        else if ltb u (2 ^ 15 + 271)
        then 0
        else 100)
unfolding brake_of int16_of_bits max0 max_zero min100 minus_from scale to_int16 to_u8
brake_of-percent u h = ground arith

pub raw_bits : (low high : ℕ) → (u : ℕ) × (u < 2 ^ 16) × (raw_of low high ≡ int16_of_bits u)
unfolding raw_of
raw_bits low high = (bit_or (high * 2 ^ 8) low % 2 ^ 16, omega arith, refl)

-- Both values are percentages, whatever the four bytes are.
pub throttle_of_le : (low high : ℕ) → throttle_of (raw_of low high) ≤ 100
throttle_of_le low high =
    let (u, h, e) = raw_bits low high in
    let k = ap throttle_of e ∙ throttle_of-percent u h in ground arith

pub brake_of_le : (low high : ℕ) → brake_of (raw_of low high) ≤ 100
brake_of_le low high =
    let (u, h, e) = raw_bits low high in
    let k = ap brake_of e ∙ brake_of-percent u h in ground arith

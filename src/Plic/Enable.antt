-- ===== src/Plic/Enable.antt =====
-- The enable bits: PLIC_enable_interrupt() and PLIC_disable_interrupt().
use free_rtos_demos_cheri_ri.Prelude.{
  update, update_self, update_other, ℕ, ◌-◌, ◌%◌, ◌^◌, ◌<◌, min, ◌≡◌, ◌≢◌, ap, ◌∙◌, ◌==◌, ==_iff,
  Bool-cases, inl, inr, if◌then◌else◌, arith,
}
use Prim.Native.Nat.{bit_and, bit_or}
use free_rtos_demos_cheri_ri.Prelude.Bits.{
  bit, bit-bit_and, bit-bit_or, bit_lt_two, bit-pow_self, bit-pow_other, bit-complement, pow_lt,
}
use free_rtos_demos_cheri_ri.Plic.{
  Plic, write_register, enable_addr, enable_interrupt, disable_interrupt,
}

-- 1 if the source is enabled
abbrev pub enabled : Plic → ℕ → ℕ
enabled p source = bit (p.registers (enable_addr p source)) (source % 32)

-- Two sources with one enable word have different bits.
same_word : (p : Plic) (a b : ℕ) → enable_addr p a ≡ enable_addr p b → a ≢ b → a % 32 ≢ b % 32
unfolding enable_addr
same_word p a b h n e = n (omega arith)

-- A write of the word of `source` that changes only the digit of `source`.
bit_of_update :
    (p : Plic) (source other : ℕ) (w : ℕ)
    → ((i : ℕ) → i < 32 → i ≢ source % 32 → bit w i ≡ bit (p.registers (enable_addr p source)) i)
    → other ≢ source
    → bit (update p.registers (enable_addr p source) w (enable_addr p other)) (other % 32)
      ≡ enabled p other
bit_of_update p source other w k n =
    elim (Bool-cases (enable_addr p other == enable_addr p source)) [
      | inl y ↦
          let e = (==_iff (enable_addr p other) (enable_addr p source)).0 y in
          rw (e, update_self p.registers (enable_addr p source) w)
            (k (other % 32) (omega arith) (same_word p other source e n))
      | inr m ↦
          ap (λ x. bit x (other % 32))
            (update_other p.registers (enable_addr p source) w (enable_addr p other)
              (λ e. ground (arith, ==_iff (enable_addr p other) (enable_addr p source))))
    ]

by_source :
    (f : ℕ → ℕ) {v w : ℕ} (a b : ℕ) → f b ≡ v → (a ≢ b → f a ≡ w) → f a ≡ (if a == b then v else w)
by_source f a b h k = elim (Bool-cases (a == b)) [
  | inl y ↦ rw y (ap f ((==_iff a b).0 y) ∙ h)
  | inr n ↦ rw n (k (λ e. ground (arith, ==_iff a b)))
]

-- PLIC_enable_interrupt() sets the enable bit of its source, and leaves the bit of every other
-- source as it was, those in the same register included.
pub enable_interrupt-enabled :
    (p : Plic) (source other : ℕ)
    → enabled (enable_interrupt p source) other ≡ (if other == source then 1 else enabled p other)
unfolding enable_interrupt write_register enable_addr
enable_interrupt-enabled p source other =
    by_source (enabled (enable_interrupt p source)) other source
      (ap (λ x. bit x (source % 32))
          (update_self p.registers (enable_addr p source)
            (bit_or (p.registers (enable_addr p source)) (2 ^ (source % 32))))
        ∙ omega (
          arith,
          bit-bit_or (p.registers (enable_addr p source)) (2 ^ (source % 32)) (source % 32),
          bit-pow_self (source % 32),
          bit_lt_two (p.registers (enable_addr p source)) (source % 32),
        ))
      (λ n.
        bit_of_update p source other _
          (λ i b d. omega (
            arith,
            bit-bit_or (p.registers (enable_addr p source)) (2 ^ (source % 32)) i,
            bit-pow_other (source % 32) i d,
          ))
          n)

-- PLIC_disable_interrupt() clears the enable bit of its source, and leaves the bit of every other
-- source as it was.
pub disable_interrupt-enabled :
    (p : Plic) (source other : ℕ)
    → enabled (disable_interrupt p source) other ≡ (if other == source then 0 else enabled p other)
unfolding disable_interrupt write_register enable_addr
disable_interrupt-enabled p source other =
    by_source (enabled (disable_interrupt p source)) other source
      (ap (λ x. bit x (source % 32))
          (update_self p.registers (enable_addr p source)
            (bit_and (p.registers (enable_addr p source)) (2 ^ 32 - 1 - 2 ^ (source % 32))))
        ∙ omega (arith, masked (source % 32) (omega arith), bit-pow_self (source % 32)))
      (λ n.
        bit_of_update p source other _
          (λ i b d. omega (
            arith,
            masked i b,
            bit-pow_other (source % 32) i d,
            bit_lt_two (p.registers (enable_addr p source)) i,
          ))
          n)
  where
    masked :
        (i : ℕ)
        → i < 32
        → bit (bit_and (p.registers (enable_addr p source)) (2 ^ 32 - 1 - 2 ^ (source % 32))) i
          ≡ min (bit (p.registers (enable_addr p source)) i) (1 - bit (2 ^ (source % 32)) i)
    masked i b =
        bit-bit_and (p.registers (enable_addr p source)) (2 ^ 32 - 1 - 2 ^ (source % 32)) i
        ∙ ap (λ x. min (bit (p.registers (enable_addr p source)) i) x)
            (bit-complement 32 (2 ^ (source % 32)) i (pow_lt (source % 32) 32 (omega arith)) b)

-- ===== src/Plic/Reset.antt =====
-- What PLIC_init() leaves behind.
use free_rtos_demos_cheri_ri.Prelude.{
  update, update_self, update_other, ℕ, zero, suc, ◌+◌, ◌*◌, ◌/◌, ◌%◌, ◌≤◌, ◌<◌, ◌≡◌, ◌≢◌, refl, ap,
  ◌∙◌, ◌==◌, ltb, true, false, not, ◌&&◌, Bool-cases, inl, inr, Option, none, arith,
}
use free_rtos_demos_cheri_ri.Prelude.Bits.{bit, bit-zero}
use free_rtos_demos_cheri_ri.Plic.{
  Plic, plic_base_addr, enable_offset, threshold_offset, num_interrupts, memzero_loop,
  volatile_memzero, clear_handlers, enable_addr, init,
}
use free_rtos_demos_cheri_ri.Plic.Enable.{enabled}

goes_on :
    (ptr end : ℕ)
    → plic_base_addr < ptr
    → ptr < end
    → (ltb ptr end && not (ptr == plic_base_addr)) ≡ true
goes_on ptr end b h = ground arith

stops : (end : ℕ) → (ltb plic_base_addr end && not (plic_base_addr == plic_base_addr)) ≡ false
stops end = ground arith

last : (h : ℕ → Option ℕ) (n i : ℕ) → (i == n) ≡ true → update h n none i ≡ none
unfolding update
last h n i y = rw y refl

-- The loop writes nothing below its start.
memzero_loop-below :
    (n ptr end : ℕ) (m : ℕ → ℕ) (i : ℕ) → i < ptr → memzero_loop n ptr end m i ≡ m i
unfolding memzero_loop
memzero_loop-below zero ptr end m i h = refl
memzero_loop-below (suc n) ptr end m i h =
    let k =
      memzero_loop-below n (ptr + 4) end (update m ptr 0) i (omega (arith, h))
      ∙ update_other m ptr 0 i (λ e. omega (arith, h, e)) in
    elim (Bool-cases (ltb ptr end && not (ptr == plic_base_addr))) [
      | inl y ↦ rw y k
      | inr f ↦ rw f refl
    ]

-- From a start behind PLIC_BASE_ADDR it clears every word before the end that the fuel reaches.
memzero_loop-clears :
    (n ptr end : ℕ) (m : ℕ → ℕ) (k : ℕ)
    → plic_base_addr < ptr
    → k < n
    → ptr + k * 4 < end
    → memzero_loop n ptr end m (ptr + k * 4) ≡ 0
unfolding memzero_loop
memzero_loop-clears zero ptr end m k b f h = absurd (omega (arith, f))
memzero_loop-clears (suc n) ptr end m zero b f h = rw (goes_on ptr end b (omega (arith, h))) (
    ap (λ a. memzero_loop n (ptr + 4) end (update m ptr 0) a) (omega arith)
    ∙ memzero_loop-below n (ptr + 4) end (update m ptr 0) ptr (omega arith)
    ∙ update_self m ptr 0)
memzero_loop-clears (suc n) ptr end m (suc k) b f h = rw (goes_on ptr end b (omega (arith, h))) (
    ap (λ a. memzero_loop n (ptr + 4) end (update m ptr 0) a) (omega arith)
    ∙ memzero_loop-clears n (ptr + 4) end (update m ptr 0) k (omega (arith, b)) (omega (arith, f))
        (omega (arith, h)))

-- At PLIC_BASE_ADDR the loop ends at once.
memzero_loop-base : (n end : ℕ) (m : ℕ → ℕ) → memzero_loop n plic_base_addr end m ≡ m
unfolding memzero_loop
memzero_loop-base zero end m = refl
memzero_loop-base (suc n) end m = rw (stops end) refl

clear_handlers-none : (n : ℕ) (h : ℕ → Option ℕ) (i : ℕ) → i < n → clear_handlers n h i ≡ none
unfolding clear_handlers
clear_handlers-none zero h i k = absurd (omega (arith, k))
clear_handlers-none (suc n) h i k = elim (Bool-cases (i == n)) [
  | inl y ↦ last (clear_handlers n h) n i y
  | inr f ↦
      update_other (clear_handlers n h) n none i (λ e. ground arith)
      ∙ clear_handlers-none n h i (ground arith)
]

-- The words that PLIC_init() writes at PLIC_BASE_ADDR, before the threshold.
init-word :
    (p : Plic) (ns np addr : ℕ)
    → addr ≢ plic_base_addr + threshold_offset
    → (init p plic_base_addr ns np).registers addr
      ≡ volatile_memzero (plic_base_addr + enable_offset) ((ns + 8) / 8) p.registers addr
unfolding init volatile_memzero
init-word p ns np addr h =
    update_other _ (plic_base_addr + threshold_offset) 0 addr h
    ∙ ap (λ (m : ℕ → ℕ). m addr) (memzero_loop-base ((ns + 1) * 4) _ _)

init-handlers :
    (p : Plic) (ns np index : ℕ)
    → index < num_interrupts
    → (init p plic_base_addr ns np).handler index ≡ none
unfolding init
init-handlers p ns np index i = clear_handlers-none num_interrupts p.handler index i

init-clears :
    (p : Plic) (ns source : ℕ)
    → source ≤ ns
    → volatile_memzero
        (plic_base_addr + enable_offset)
        ((ns + 8) / 8)
        p.registers
        (plic_base_addr + enable_offset + source / 32 * 4)
      ≡ 0
unfolding volatile_memzero
init-clears p ns source k =
    memzero_loop-clears ((ns + 8) / 8) (plic_base_addr + enable_offset) _ p.registers (source / 32)
      (omega arith) (omega (arith, k)) (omega (arith, k))

-- PLIC_init() at PLIC_BASE_ADDR, with at most 1023 sources, empties the handler table and disables
-- every source up to the number of sources, whatever the registers held before.
init-disables :
    (p : Plic) (num_sources num_priorities index source : ℕ)
    → num_sources ≤ 1023
    → index < num_interrupts
    → source ≤ num_sources
    → ((init p plic_base_addr num_sources num_priorities).handler index ≡ none)
      × (enabled (init p plic_base_addr num_sources num_priorities) source ≡ 0)
unfolding enable_addr init
init-disables p num_sources num_priorities index source h i k = (
  init-handlers p num_sources num_priorities index i,
  ap (λ w. bit w (source % 32))
        (init-word p num_sources num_priorities (plic_base_addr + enable_offset + source / 32 * 4)
            (λ e. omega (arith, e, h, k))
          ∙ init-clears p num_sources source k)
      ∙ bit-zero (source % 32),
)

-- PLIC_init() at PLIC_BASE_ADDR leaves the priority of every source up to
-- 1023 as it was: its loop over the priorities ends at its first address.
init-keeps_priorities :
    (p : Plic) (num_sources num_priorities source : ℕ)
    → source ≤ 1023
    → (init p plic_base_addr num_sources num_priorities).registers (plic_base_addr + source * 4)
      ≡ p.registers (plic_base_addr + source * 4)
unfolding volatile_memzero
init-keeps_priorities p num_sources num_priorities source k =
    init-word p num_sources num_priorities (plic_base_addr + source * 4) (λ e. omega (arith, e, k))
    ∙ memzero_loop-below ((num_sources + 8) / 8) (plic_base_addr + enable_offset) _ p.registers _
        (omega (arith, k))

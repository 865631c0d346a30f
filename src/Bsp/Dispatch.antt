-- ===== src/Bsp/Dispatch.antt =====
-- An enabled interrupt has a handler, at every moment of registering and unregistering.
pub mod Calls
use free_rtos_demos_cheri_ri.Prelude.{
  update, ℕ, ◌+◌, ◌%◌, ◌≤◌, ◌≡◌, refl, ◌∙◌, true, ◌==◌, if◌then◌else◌, Option, none, some, is_some,
  Bool-cases, Option-cases, inl, inr, arith, ==_iff,
}
use mathlib.Core.Path.{subst}
use free_rtos_demos_cheri_ri.Prelude.Bits.{bit_lt_two}
use free_rtos_demos_cheri_ri.Plic.{
  Plic, write_register, enable_addr, claim_offset, claim_interrupt, complete_interrupt, is_source,
  enable_interrupt, disable_interrupt, register_interrupt_handler, unregister_interrupt_handler,
  add_handler, remove_handler,
}
use free_rtos_demos_cheri_ri.Plic.Enable.{
  enabled, enable_interrupt-enabled, disable_interrupt-enabled,
}
use free_rtos_demos_cheri_ri.Plic.Table.{is_granted}
use free_rtos_demos_cheri_ri.Bsp.Interrupts.{
  Outcome, Task, Machine, Step, Reach, call_handler, external_interrupt_handler, raise,
}

-- 1 if there is a handler
abbrev pub present : Plic → ℕ → ℕ
present p source = if is_some (p.handler source) then 1 else 0

-- What the place of the task says of its source, of which `e` and `h` are whether it is enabled and
-- whether it has a handler.
abbrev pub Expects : Task → Plic → Type 0
Expects Task.idle p = Unit {0}
Expects (Task.storing s) p = 1 ≤ present p s
Expects (Task.enabling s) p = 1 ≤ present p s
Expects (Task.clearing s) p = (enabled p s ≤ 0) × (is_source s ≡ true)

-- Each source from 1 to 15 that is enabled has a handler.
abbrev pub IsGuarded : Plic → Type 0
IsGuarded p = (source : ℕ) → is_source source ≡ true → enabled p source ≤ present p source

abbrev pub IsSafe : Machine → Type 0
IsSafe m = IsGuarded m.plic × Expects m.task m.plic

-- A write to the claim register leaves the enable bits of the sources from 1 to 15.
enabled-claim :
    (p : Plic) (v source : ℕ)
    → is_source source ≡ true
    → enabled (write_register (p.base_addr + claim_offset) v p) source ≡ enabled p source
unfolding write_register is_source enable_addr
enabled-claim p v source h = ground arith

-- The handler of one source replaced
present-update :
    (p : Plic) (s : ℕ) (h : Option ℕ) (source : ℕ)
    → present record p { handler = update p.handler s h } source
      ≡ (if source == s then if is_some h then 1 else 0 else present p source)
unfolding update
present-update p s h source = elim (Bool-cases (source == s)) [
  | inl y ↦ rw y refl
  | inr n ↦ rw n refl
]

enabled_le_one : (p : Plic) (source : ℕ) → enabled p source ≤ 1
enabled_le_one p source =
    omega (arith, bit_lt_two (p.registers (enable_addr p source)) (source % 32))

set_handler-IsGuarded :
    (p : Plic) (s h : ℕ)
    → IsGuarded p
    → IsGuarded record p { handler = update p.handler s (some h) }
unfolding enable_addr
set_handler-IsGuarded p s h k source g =
    let a = present-update p s (some h) source in
    let b = k source g in
    let c = enabled_le_one p source in
    elim (Bool-cases (source == s)) [ inl y ↦ ground arith | inr n ↦ ground arith ]

clear_handler-IsGuarded :
    (p : Plic) (s : ℕ)
    → IsGuarded p
    → enabled p s ≤ 0
    → IsGuarded record p { handler = update p.handler s none }
unfolding enable_addr
clear_handler-IsGuarded p s k d source g =
    let a = present-update p s none source in
    let b = k source g in
    let c = ==_iff source s in
    elim (Bool-cases (source == s)) [ inl y ↦ rw (c.0 y) (omega (arith, d)) | inr n ↦ ground arith ]

enable-present :
    (p : Plic) (s source : ℕ) → present (enable_interrupt p s) source ≡ present p source
unfolding enable_interrupt write_register
enable-present p s source = refl

disable-present :
    (p : Plic) (s source : ℕ) → present (disable_interrupt p s) source ≡ present p source
unfolding disable_interrupt write_register
disable-present p s source = refl

enable-IsGuarded :
    (p : Plic) (s : ℕ) → IsGuarded p → 1 ≤ present p s → IsGuarded (enable_interrupt p s)
enable-IsGuarded p s k d source g =
    let a = enable_interrupt-enabled p s source in
    let b = k source g in
    let h = enable-present p s source in
    let c = ==_iff source s in
    elim (Bool-cases (source == s)) [
      | inl y ↦
          rw (c.0 y)
            (omega (arith, d, enable-present p s s, enabled_le_one (enable_interrupt p s) s))
      | inr n ↦ ground arith
    ]

disable-IsGuarded : (p : Plic) (s : ℕ) → IsGuarded p → IsGuarded (disable_interrupt p s)
disable-IsGuarded p s k source g =
    let a = disable_interrupt-enabled p s source in
    let b = k source g in let h = disable-present p s source in ground arith

-- The state of the controller after an interrupt
abbrev after : (ℕ → ℕ → ℕ) → ℕ → Plic → Plic
after callback s p = (external_interrupt_handler callback (raise s p)).plic

after-enabled :
    (callback : ℕ → ℕ → ℕ) (p : Plic) (s source : ℕ)
    → is_source source ≡ true
    → enabled (after callback s p) source ≡ enabled p source
unfolding external_interrupt_handler raise complete_interrupt
after-enabled callback p s source g =
    let q = raise s p in enabled-claim q (claim_interrupt q) source g ∙ enabled-claim p s source g

after-present :
    (callback : ℕ → ℕ → ℕ) (p : Plic) (s source : ℕ)
    → present (after callback s p) source ≡ present p source
unfolding external_interrupt_handler raise complete_interrupt write_register
after-present callback p s source = refl

after-Expects :
    (callback : ℕ → ℕ → ℕ) (p : Plic) (s : ℕ) (task : Task)
    → Expects task p
    → Expects task (after callback s p)
after-Expects callback p s Task.idle x = tt
after-Expects callback p s (Task.storing i) x = omega (arith, x, after-present callback p s i)
after-Expects callback p s (Task.enabling i) x = omega (arith, x, after-present callback p s i)
after-Expects callback p s (Task.clearing i) (x, g) =
    (omega (arith, x, after-enabled callback p s i g), g)

interrupt-IsGuarded :
    (callback : ℕ → ℕ → ℕ) (p : Plic) (s : ℕ) → IsGuarded p → IsGuarded (after callback s p)
interrupt-IsGuarded callback p s k source g =
    omega
      (arith, k source g, after-enabled callback p s source g, after-present callback p s source)

Step-IsSafe : (callback : ℕ → ℕ → ℕ) {m n : Machine} → Step callback m n → IsSafe m → IsSafe n
unfolding enable_addr
Step-IsSafe callback {m} (Step.store_handler s h t g) (k, x) = (
  set_handler-IsGuarded m.plic s h k,
  (let a = present-update m.plic s (some h) s in let b = ==_iff s s in ground arith),
)
Step-IsSafe callback {m} (Step.store_reference s ref t) (k, x) =
    (k, subst (λ z. Expects z m.plic) t x)
Step-IsSafe callback {m} (Step.enable s t) (k, x) =
    (enable-IsGuarded m.plic s k (subst (λ z. Expects z m.plic) t x), tt)
Step-IsSafe callback {m} (Step.disable s t g) (k, x) = (
  disable-IsGuarded m.plic s k,
  (let a = disable_interrupt-enabled m.plic s s in let b = ==_iff s s in ground arith, g),
)
Step-IsSafe callback {m} (Step.clear_handler s t) (k, x) =
    (clear_handler-IsGuarded m.plic s k (subst (λ z. Expects z m.plic) t x).0, tt)
Step-IsSafe callback {m} (Step.interrupt s) (k, x) =
    (interrupt-IsGuarded callback m.plic s k, after-Expects callback m.plic s m.task x)

pub Reach-IsSafe : (callback : ℕ → ℕ → ℕ) {m n : Machine} → Reach callback m n → IsSafe m → IsSafe n
Reach-IsSafe callback Reach.here h = h
Reach-IsSafe callback (Reach.next r s) h = Step-IsSafe callback s (Reach-IsSafe callback r h)

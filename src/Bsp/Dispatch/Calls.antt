-- ===== src/Bsp/Dispatch/Calls.antt =====
-- What external_interrupt_handler() calls, and the functions of the driver as runs of stores.
use free_rtos_demos_cheri_ri.Prelude.{
  update_self, ℕ, ◌+◌, ◌≤◌, ◌≡◌, refl, true, some, Option-cases, inl, inr, arith,
}
use free_rtos_demos_cheri_ri.Plic.{
  Plic, write_register, claim_offset, claim_interrupt, is_source, register_interrupt_handler,
  unregister_interrupt_handler, add_handler, remove_handler,
}
use free_rtos_demos_cheri_ri.Plic.Enable.{enabled}
use free_rtos_demos_cheri_ri.Plic.Table.{is_granted}
use free_rtos_demos_cheri_ri.Bsp.Interrupts.{
  Outcome, Task, Machine, Step, Reach, call_handler, external_interrupt_handler, raise,
}
use free_rtos_demos_cheri_ri.Bsp.Dispatch.{IsSafe, Reach-IsSafe}

dispatched :
    (callback : ℕ → ℕ → ℕ) (p : Plic) (source h : ℕ)
    → is_source source ≡ true
    → p.handler source ≡ some h
    → ((external_interrupt_handler callback (raise source p)).outcome
        ≡ Outcome.called h (p.callback_ref source))
      × ((external_interrupt_handler callback (raise source p)).woken
          ≡ callback h (p.callback_ref source))
unfolding external_interrupt_handler raise claim_interrupt write_register call_handler
dispatched callback p source h g e =
    rw (update_self p.registers (p.base_addr + claim_offset) source) (rw (g, e) (refl, refl))

-- Take a board on which every enabled source from 1 to 15 has a handler, and any sequence of stores of
-- a task that registers and unregisters handlers, with interrupts in between. When then an enabled
-- source from 1 to 15 interrupts, external_interrupt_handler() finds a handler in the table, calls
-- it with its reference, and returns its result: it never calls NULL, not even between two stores.
pub interrupt-calls :
    (callback : ℕ → ℕ → ℕ) {m n : Machine} (source : ℕ)
    → IsSafe m
    → Reach callback m n
    → is_source source ≡ true
    → 1 ≤ enabled n.plic source
    → (h : ℕ) × (n.plic.handler source ≡ some h)
      × ((external_interrupt_handler callback (raise source n.plic)).outcome
          ≡ Outcome.called h (n.plic.callback_ref source))
      × ((external_interrupt_handler callback (raise source n.plic)).woken
          ≡ callback h (n.plic.callback_ref source))
interrupt-calls callback {n} source s r g d =
    let k = (Reach-IsSafe callback r s).0 source g in
    elim (Option-cases (n.plic.handler source)) [
      | inl y ↦ absurd (ground arith)
      | inr (h, y) ↦ let (a, b) = dispatched callback n.plic source h g y in (h, y, a, b)
    ]

-- A call of PLIC_register_interrupt_handler() for a source from 1 to 15 without a handler, and a call
-- of PLIC_unregister_interrupt_handler() for it, are sequences of these stores.
pub register-Reach :
    (callback : ℕ → ℕ → ℕ) (p q : Plic) (source_id h ref : ℕ)
    → is_granted p source_id ≡ true
    → Reach callback
        record { task = Task.idle; plic = p }
        record { task = Task.idle; plic = (register_interrupt_handler p source_id h ref).1 }
      × Reach callback
          record { task = Task.idle; plic = q }
          record { task = Task.idle; plic = unregister_interrupt_handler q source_id }
unfolding register_interrupt_handler unregister_interrupt_handler add_handler remove_handler
register-Reach callback p q source_id h ref g =
    let i : is_source source_id ≡ true = ground arith in
    (
      rw g (
          Reach.next
            (Reach.next (Reach.next Reach.here (Step.store_handler source_id h refl g))
              (Step.store_reference source_id ref refl))
            (Step.enable source_id refl)),
      rw i (
          Reach.next (Reach.next Reach.here (Step.disable source_id refl i))
            (Step.clear_handler source_id refl)),
    )

-- ===== src/Bsp/Iic/Reset.antt =====
-- iic0_master_reset(): the driver stopped, and set up again with the interrupt controller.
use free_rtos_demos_cheri_ri.Prelude.{update, ◌≡◌, refl, ◌∙◌, pos, true, some}
use free_rtos_demos_cheri_ri.Plic.{
  Plic, is_source, unregister_interrupt_handler, remove_handler, disable_interrupt,
  register_interrupt_handler,
}
use free_rtos_demos_cheri_ri.Plic.Enable.{enabled}
use free_rtos_demos_cheri_ri.Plic.Table.{is_granted, register-result}
use free_rtos_demos_cheri_ri.Bsp.Iic.{
  Trace, Env, State, ◌>>=◌, ◌>>◌, bind_to, call, assert, modify, emit,
}
use free_rtos_demos_cheri_ri.Bsp.Iic.Driver.{
  init, stop, master_reset, register_handler, interrupt_handler, device,
}

unregistered-is_granted : (p : Plic) → is_granted (unregister_interrupt_handler p 7) 7 ≡ true
unfolding unregister_interrupt_handler is_source remove_handler disable_interrupt update
unregistered-is_granted p = refl

-- iic0_master_reset() returns, if the driver of Xilinx initialises and passes its self-test, in any
-- state of the driver and of the interrupt controller: the handler that was registered before does not
-- make PLIC_register_interrupt_handler() refuse the new one. Afterwards source 7 has the handler of
-- the I2C device and is enabled, and no error is left over.
pub master_reset-registers :
    (e : Env) (s : State)
    → ((t : Trace) → e.initialize t ≡ true)
    → ((t : Trace) → e.self_test t ≡ true)
    → ((master_reset e s).0 ≡ some tt)
      × ((master_reset e s).1.plic.handler 7 ≡ some interrupt_handler)
      × (enabled (master_reset e s).1.plic 7 ≡ 1)
      × ((master_reset e s).1.errors ≡ pos 0)
unfolding master_reset stop init register_handler ◌>>=◌ ◌>>◌ bind_to call assert modify emit
master_reset-registers e s h k =
    let p = unregister_interrupt_handler s.plic 7 in
    let g = unregistered-is_granted s.plic in
    let (a, b, c) = register-result p 7 interrupt_handler device 7 in
    let a7 : (register_interrupt_handler p 7 interrupt_handler device).0 ≡ 7 = a ∙ rw g refl in
    rw (h, k, a7) (refl, b ∙ rw g refl, c ∙ rw g refl, refl)

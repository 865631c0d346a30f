-- ===== src/Plic/Examples.antt =====
-- The theorems of the interrupt controller applied to a board with 127 sources.
use free_rtos_demos_cheri_ri.Prelude.{none, arith}
use free_rtos_demos_cheri_ri.Plic.{
  Plic, plic_base_addr, register_interrupt_handler, unregister_interrupt_handler,
}
use free_rtos_demos_cheri_ri.Plic.Table.{IsArmed, handlers-IsArmed}

-- All registers hold 5 after the reset of the board.
abbrev board : Plic
board = record {
  base_addr = plic_base_addr;
  num_sources = 127;
  num_priorities = 7;
  handler = λ i. none;
  callback_ref = λ i. 0;
  registers = λ i. 5;
}

board-IsArmed : IsArmed board
board-IsArmed source = omega arith

handlers-IsArmed_example :
    IsArmed (register_interrupt_handler board 10 1 2).1
    × IsArmed (unregister_interrupt_handler board 10)
handlers-IsArmed_example = handlers-IsArmed board 10 1 2 board-IsArmed

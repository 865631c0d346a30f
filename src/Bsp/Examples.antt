-- ===== src/Bsp/Examples.antt =====
-- Witnesses of the theorems on the board support.
use free_rtos_demos_cheri_ri.Prelude.{
  ◌<◌, false, [], ◌∷◌, ◌++◌, codes, update, ℕ, ◌+◌, ◌%◌, ◌≤◌, ◌≡◌, refl, none, some, arith,
}
use free_rtos_demos_cheri_ri.Plic.{
  Plic, plic_base_addr, register_interrupt_handler, is_source, enable_addr, add_handler,
  enable_interrupt, write_register,
}
use free_rtos_demos_cheri_ri.Plic.Enable.{enabled}
use free_rtos_demos_cheri_ri.Prelude.Bits.{bit-zero}
use free_rtos_demos_cheri_ri.Bsp.Uart as Uart
use free_rtos_demos_cheri_ri.Bsp.Uart.Queued.{queued, with_returns, polls, txbuffer-queued}
use free_rtos_demos_cheri_ri.Bsp.Interrupts.{Outcome, Task, external_interrupt_handler, raise}
use free_rtos_demos_cheri_ri.Bsp.Dispatch.{IsSafe}
use free_rtos_demos_cheri_ri.Bsp.Dispatch.Calls.{interrupt-calls, register-Reach}

-- A board with nothing enabled and no handlers.
abbrev board : Plic
board = record {
  base_addr = plic_base_addr;
  num_sources = 16;
  num_priorities = 16;
  handler = λ i. none;
  callback_ref = λ i. 0;
  registers = λ i. 0;
}

abbrev sum : ℕ → ℕ → ℕ
sum h ref = h + ref

-- The board with handler 40 for source 7, the I2C device, and its reference 100.
abbrev registered : Plic
registered = (register_interrupt_handler board 7 40 100).1

board-IsSafe : IsSafe record { task = Task.idle; plic = board }
board-IsSafe = (λ source g. omega (arith, bit-zero (source % 32)), tt)

registered-enabled : 1 ≤ enabled registered 7
unfolding register_interrupt_handler add_handler enable_interrupt write_register update enable_addr
    is_source
registered-enabled = omega arith

interrupt-calls_example :
    (h : ℕ) × (registered.handler 7 ≡ some h)
    × ((external_interrupt_handler sum (raise 7 registered)).outcome
        ≡ Outcome.called h (registered.callback_ref 7))
    × ((external_interrupt_handler sum (raise 7 registered)).woken ≡ h + registered.callback_ref 7)
unfolding is_source
interrupt-calls_example =
    interrupt-calls sum 7 board-IsSafe (register-Reach sum board registered 7 40 100 refl).0 refl
      registered-enabled

abbrev status_after : Uart.Trace → ℕ
status_after [] = 0
status_after (Uart.Event.read r ∷ t) = 0x60
status_after (Uart.Event.write r v ∷ t) = 0

-- A transmitter that is ready at every second read of its status
abbrev port : Uart.Env
port = record { read = λ t r. status_after t; clock_hz = 100000000; baud = 115200 }

port_ready : (t : Uart.Trace) → (k : ℕ) × (k < 2) × (Uart.is_full port (polls k t) ≡ false)
unfolding Uart.is_full
port_ready t = (1, omega arith, refl)

txbuffer-queued_example :
    (t' : Uart.Trace) × (Uart.txbuffer 2 port (codes "ok" ++ 10 ∷ []) [] ≡ some t')
    × (queued t' ≡ [] ++ with_returns (codes "ok" ++ 10 ∷ []))
txbuffer-queued_example = txbuffer-queued 2 port (codes "ok" ++ 10 ∷ []) [] port_ready

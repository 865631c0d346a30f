-- ===== src/Bsp/Uart.antt =====
-- The serial port of bsp/uart16550.c, with the device as the parameter `Env`: what it answers to a read
-- of a register, given the accesses before it.
pub mod Queued
use free_rtos_demos_cheri_ri.Prelude.{
  ℕ, zero, suc, ◌+◌, ◌*◌, ◌/◌, ◌%◌, ◌<◌, ◌≡◌, refl, sym, ap, ◌∙◌, Bool, true, false, List, [], ◌∷◌,
  ◌++◌, Option, none, some, Text, ◌==◌, if◌then◌else◌, ℤ, pos, negsuc, arith, Bool-cases, inl, inr,
  length,
}
use mathlib.Core.List.{append_assoc, append-nil}
use Prim.Native.Nat.{bit_and}

-- An access of a register, by its number
pub data Event : Type 0 where
  read : ℕ → Event
  write : ℕ → ℕ → Event

abbrev pub Trace : Type 0
Trace = List Event

pub record Env : Type 0 where
  pub read : Trace → ℕ → ℕ
  pub clock_hz : ℕ  -- configPERIPH_CLOCK_HZ
  pub baud : ℕ  -- configUART16550_BAUD

-- UART_REG_QUEUE, UART_REG_LINESTAT, UART_REG_STATUS_RX, UART_REG_STATUS_TX
abbrev pub reg_queue : ℕ
reg_queue = 0

abbrev pub reg_linestat : ℕ
reg_linestat = 5

abbrev pub status_rx : ℕ
status_rx = 0x01

abbrev pub status_tx : ℕ
status_tx = 0x20

-- Whether a character can be written
unfoldable pub is_full : Env → Trace → Bool
is_full e t = bit_and (e.read t reg_linestat) status_tx == 0

-- The loop of uart16550_putchar(); `none` if the fuel runs out
unfoldable pub putchar : ℕ → Env → ℕ → Trace → Option Trace
unfolding is_full
putchar zero e ch t = none
putchar (suc fuel) e ch t =
    let t' = Event.read reg_linestat ∷ t in
    let again = putchar fuel e ch t' in
    if is_full e t then again else some (Event.write reg_queue ch ∷ t')

-- uart16550_getchar()
unfoldable pub getchar : Env → Trace → ℤ × Trace
getchar e t =
    let t' = Event.read reg_linestat ∷ t in
    if bit_and (e.read t reg_linestat) status_rx == 0
    then (negsuc 0, t')
    else (pos (e.read t' reg_queue), Event.read reg_queue ∷ t')

unfoldable pub and_then : (Trace → Option Trace) → Option Trace → Option Trace
and_then next none = none
and_then next (some t) = next t

-- A character, and a carriage return behind a line feed
unfoldable pub put_text_char : ℕ → Env → ℕ → Trace → Option Trace
unfolding putchar and_then
put_text_char fuel e ch t =
    let line_end = and_then (putchar fuel e b'\r') (putchar fuel e ch t) in
    if ch == b'\n' then line_end else putchar fuel e ch t

-- uart16550_txbuffer(), which returns the length that it is given
unfoldable pub txbuffer : ℕ → Env → Text → Trace → Option Trace
unfolding put_text_char
txbuffer fuel e [] t = some t
txbuffer fuel e (ch ∷ s) t = and_then (txbuffer fuel e s) (put_text_char fuel e ch t)

-- uart16550_init(): interrupts off, the divisor behind DLAB, the format, and the FIFO
unfoldable pub init : Env → Trace → Trace
init e t =
    let divisor = e.clock_hz / (16 * e.baud) in
    Event.write 2 0xC7
    ∷ (Event.write 3 0x03
        ∷ (Event.write 1 (divisor / 256 % 256)
            ∷ (Event.write 0 (divisor % 256) ∷ (Event.write 3 0x80 ∷ (Event.write 1 0x00 ∷ t)))))

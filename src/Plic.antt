-- ===== src/Plic.antt =====
-- The driver of the interrupt controller, bsp/plic_driver.c, with the handler table of
-- plic_instance_t and the registers of the device as words by their address. The option
-- configCHERI_COMPARTMENTALIZATION is off.
pub mod Enable
pub mod Table
pub mod Reset
pub mod Examples
use free_rtos_demos_cheri_ri.Prelude.{
  update, ℕ, zero, suc, ◌+◌, ◌-◌, ◌*◌, ◌/◌, ◌%◌, ◌^◌, Bool, true, false, not, ◌&&◌, Option, none,
  some, ◌==◌, ltb, leb, if◌then◌else◌, is_some,
}
use Prim.Native.Nat.{bit_and, bit_or}

-- PLIC_BASE_ADDR of the boards
abbrev pub plic_base_addr : ℕ
plic_base_addr = 0xC000000

abbrev pub enable_offset : ℕ
enable_offset = 0x2000

abbrev pub threshold_offset : ℕ
threshold_offset = 0x200000

abbrev pub claim_offset : ℕ
claim_offset = 0x200004

-- PLIC_NUM_INTERRUPTS
abbrev pub num_interrupts : ℕ
num_interrupts = 16

-- plic_instance_t; HandlerTable by its index, and the two fields of its entries
pub record Plic : Type 0 where
  pub base_addr : ℕ
  pub num_sources : ℕ
  pub num_priorities : ℕ
  pub handler : ℕ → Option ℕ
  pub callback_ref : ℕ → ℕ
  pub registers : ℕ → ℕ  -- 32-bit words by address

-- A 32-bit store.
unfoldable pub write_register : ℕ → ℕ → Plic → Plic
unfolding update
write_register addr v p = record p { registers = update p.registers addr v }

-- The loop from `ptr` to `end`; `n` is the fuel.
unfoldable pub memzero_loop : ℕ → ℕ → ℕ → (ℕ → ℕ) → ℕ → ℕ
memzero_loop zero ptr end m = m
memzero_loop (suc n) ptr end m =
    let rest = memzero_loop n (ptr + 4) end (update m ptr 0) in
    if ltb ptr end && not (ptr == plic_base_addr) then rest else m

-- One round for each word: `size` rounds are more than enough.
unfoldable pub volatile_memzero : ℕ → ℕ → (ℕ → ℕ) → ℕ → ℕ
volatile_memzero base size m = memzero_loop size base (base + size) m

unfoldable pub clear_handlers : ℕ → (ℕ → Option ℕ) → ℕ → Option ℕ
unfolding update
clear_handlers zero h = h
clear_handlers (suc n) h = update (clear_handlers n h) n none

unfoldable pub init : Plic → ℕ → ℕ → ℕ → Plic
init p base_addr num_sources num_priorities = record p {
  base_addr = base_addr;
  num_sources = num_sources;
  num_priorities = num_priorities;
  handler = clear_handlers num_interrupts p.handler;
  registers =
      update
        (volatile_memzero base_addr ((num_sources + 1) * 4)
          (volatile_memzero (base_addr + enable_offset) ((num_sources + 8) / 8) p.registers))
        (base_addr + threshold_offset) 0;
}

unfoldable pub set_threshold : Plic → ℕ → Plic
unfolding write_register
set_threshold p threshold = write_register (p.base_addr + threshold_offset) threshold p

-- The address of the enable word of a source: base + offset + ( ( source >> 5 ) << 2 )
unfoldable pub enable_addr : Plic → ℕ → ℕ
enable_addr p source = p.base_addr + enable_offset + source / 32 * 4

unfoldable pub enable_interrupt : Plic → ℕ → Plic
unfolding write_register enable_addr
enable_interrupt p source =
    write_register (enable_addr p source)
      (bit_or (p.registers (enable_addr p source)) (2 ^ (source % 32))) p

unfoldable pub disable_interrupt : Plic → ℕ → Plic
unfolding write_register enable_addr
disable_interrupt p source =
    write_register (enable_addr p source)
      (bit_and (p.registers (enable_addr p source)) (2 ^ 32 - 1 - 2 ^ (source % 32))) p

unfoldable pub set_priority : Plic → ℕ → ℕ → Plic
unfolding write_register
set_priority p source priority =
    if ltb 0 p.num_priorities then write_register (p.base_addr + source * 4) priority p else p

-- What the claim register answers is the device's: the word at its address.
unfoldable pub claim_interrupt : Plic → ℕ
claim_interrupt p = p.registers (p.base_addr + claim_offset)

unfoldable pub complete_interrupt : Plic → ℕ → Plic
unfolding write_register
complete_interrupt p source = write_register (p.base_addr + claim_offset) source p

-- 1 <= source_id < PLIC_NUM_INTERRUPTS
unfoldable pub is_source : ℕ → Bool
is_source source_id = leb 1 source_id && ltb source_id num_interrupts

-- The entry of the table, and the source enabled.
unfoldable pub add_handler : Plic → ℕ → ℕ → ℕ → Plic
add_handler p source_id h ref =
    enable_interrupt
      (record p {
        handler = update p.handler source_id (some h);
        callback_ref = update p.callback_ref source_id ref;
      })
      source_id

unfoldable pub remove_handler : Plic → ℕ → Plic
remove_handler p source_id = record (disable_interrupt p source_id) {
  handler = update (disable_interrupt p source_id).handler source_id none;
}

-- The result is `source_id`, or 0 for a refusal.
unfoldable pub register_interrupt_handler : Plic → ℕ → ℕ → ℕ → ℕ × Plic
register_interrupt_handler p source_id h ref =
    if is_source source_id && not (is_some (p.handler source_id))
    then (source_id, add_handler p source_id h ref)
    else (0, p)

unfoldable pub unregister_interrupt_handler : Plic → ℕ → Plic
unregister_interrupt_handler p source_id =
    if is_source source_id then remove_handler p source_id else p

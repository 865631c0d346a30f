-- ===== src/Bsp/Iic/Examples.antt =====
-- Transactions on a bus with one device: witnesses of the theorems.
use free_rtos_demos_cheri_ri.Prelude.{◌+◌, ◌≡◌, refl, pos, Bool, true, false, [], ◌∷◌, some}
use free_rtos_demos_cheri_ri.Plic.{plic_base_addr}
use free_rtos_demos_cheri_ri.Plic.Enable.{enabled}
use free_rtos_demos_cheri_ri.Bsp.Iic.{
  Callback, Env, State, ◌>>=◌, ◌>>◌, bind_to, gets, asks, call, emit, modify, assert, pure,
  branch◌then◌else◌,
}
use free_rtos_demos_cheri_ri.Bsp.Iic.Driver.{
  transmit, await, master_reset, interrupt_handler, timeout, send_and_wait, when_free, prepare,
  notify_wait, run_callbacks, on_callback, notify_task, notify_handle, outcome, slave_failed,
  on_timeout, release,
}
use free_rtos_demos_cheri_ri.Bsp.Iic.Mutex.{takes, gives, transmit-mutex}
use free_rtos_demos_cheri_ri.Bsp.Iic.Errors.{await-result}
use free_rtos_demos_cheri_ri.Bsp.Iic.Reset.{master_reset-registers}

-- While a task waits the device reports an error and then the end of a transfer.
abbrev bus : Bool → Env
bus in_time = record {
  new_mutex = λ t. some 1;
  take = λ t. true;
  is_busy = λ t. false;
  set_address = λ t addr. true;
  master_send = λ t text n. true;
  master_recv = λ t n. true;
  current_task = λ t. some 5;
  callbacks = λ t. Callback.status (pos 4) ∷ Callback.send (pos 0) ∷ [];
  notified = λ t. in_time;
  initialize = λ t. true;
  self_test = λ t. true;
}

abbrev driver : State
driver = record {
  total_error_count = 0;
  errors = pos 0;
  trans_len = 3;
  mutex = some 1;
  task_handle = some 5;
  plic = record {
    base_addr = plic_base_addr;
    num_sources = 16;
    num_priorities = 16;
    handler = λ i. some 9;
    callback_ref = λ i. 0;
    registers = λ i. 128;
  };
  trace = [];
}

transmit-mutex_example :
    (takes (transmit 72 (1 ∷ 2 ∷ []) 2 (bus true) driver).1.trace ≡ 1 + 0)
    × (gives (transmit 72 (1 ∷ 2 ∷ []) 2 (bus true) driver).1.trace ≡ 1 + 0)
unfolding transmit send_and_wait when_free prepare await notify_wait run_callbacks on_callback
    notify_task notify_handle outcome slave_failed on_timeout release ◌>>=◌ ◌>>◌ bind_to gets asks
    call emit modify assert pure branch◌then◌else◌
transmit-mutex_example = transmit-mutex (bus true) driver 72 (1 ∷ 2 ∷ []) 2 refl

await-result_example :
    ((await (bus false) driver).0 ≡ some timeout) × ((await (bus false) driver).1.errors ≡ pos 4)
await-result_example = await-result (bus false) driver 5 refl refl

master_reset-registers_example :
    ((master_reset (bus true) driver).0 ≡ some tt)
    × ((master_reset (bus true) driver).1.plic.handler 7 ≡ some interrupt_handler)
    × (enabled (master_reset (bus true) driver).1.plic 7 ≡ 1)
    × ((master_reset (bus true) driver).1.errors ≡ pos 0)
master_reset-registers_example = master_reset-registers (bus true) driver (λ t. refl) (λ t. refl)

-- ===== src/Bsp/Iic.antt =====
-- bsp/iic.c: the driver of the I2C device, on top of the driver of Xilinx and of the semaphores
-- and notifications of the kernel, which are the parameter `Env`. An assertion that fails stops
-- the system: `none`.
pub mod Driver
pub mod Mutex
pub mod Errors
pub mod Reset
pub mod Examples
use free_rtos_demos_cheri_ri.Prelude.{
  ℕ, zero, suc, ◌+◌, ◌%◌, ◌^◌, ℤ, pos, negsuc, is_zero, Bool, true, false, not, Text, List, [], ◌∷◌,
  ◌==◌, leb, if◌then◌else◌, Option, none, some, is_some,
}
use free_rtos_demos_cheri_ri.Plic.{Plic, register_interrupt_handler, unregister_interrupt_handler}

-- What the interrupt handler of XIic calls.
pub data Callback : Type 0 where
  recv : ℤ → Callback  -- RecvHandler() with the byte count
  send : ℤ → Callback  -- SendHandler() with the status
  status : ℤ → Callback  -- StatusHandler() with the status

pub data Event : Type 0 where
  create_mutex take give : Event
  set_address : ℕ → Event
  master_send : Text → ℕ → Event
  master_recv : ℕ → Event
  wait_notification stop_waiting reset delay stop_device start_device : Event
  initialize self_test set_handlers : Event
  notify : ℕ → Event  -- vTaskNotifyGiveFromISR()

abbrev pub Trace : Type 0
Trace = List Event

pub record Env : Type 0 where
  pub new_mutex : Trace → Option ℕ
  pub take : Trace → Bool  -- xSemaphoreTake() with no time limit
  pub is_busy : Trace → Bool
  pub set_address : Trace → ℕ → Bool  -- XST_SUCCESS
  pub master_send : Trace → Text → ℕ → Bool
  pub master_recv : Trace → ℕ → Bool
  pub current_task : Trace → Option ℕ
  pub callbacks : Trace → List Callback  -- what the device reports while the task waits
  pub notified : Trace → Bool  -- xTaskNotifyWait() with 500 ms
  pub initialize : Trace → Bool
  pub self_test : Trace → Bool

-- struct IicDriver, the interrupt controller, and the calls made so far
pub record State : Type 0 where
  pub total_error_count : ℕ
  pub errors : ℤ
  pub trans_len : ℕ
  pub mutex : Option ℕ
  pub task_handle : Option ℕ
  pub plic : Plic
  pub trace : Trace

abbrev pub M : Type 0 → Type 0
M A = Env → State → Option A × State

unfoldable pub bind_to : {A B : Type 0} → (A → M B) → Env → Option A × State → Option B × State
bind_to f e (none, s) = (none, s)
bind_to f e (some a, s) = f a e s

infixl 5 ◌>>=◌ ◌>>◌
unfoldable pub ◌>>=◌ : {A B : Type 0} → M A → (A → M B) → M B
unfolding bind_to
◌>>=◌ m f e s = bind_to f e (m e s)

unfoldable pub ◌>>◌ : {A B : Type 0} → M A → M B → M B
unfolding bind_to
◌>>◌ m k e s = bind_to (λ a. k) e (m e s)

unfoldable pub pure : {A : Type 0} → A → M A
pure a e s = (some a, s)

unfoldable pub gets : {A : Type 0} → (State → A) → M A
gets f e s = (some (f s), s)

unfoldable pub asks : {A : Type 0} → (Env → Trace → A) → M A
asks f e s = (some (f e s.trace), s)

-- A call of a library: the answer to the calls made so far, and the call added to them.
unfoldable pub call : {A : Type 0} → (Env → Trace → A) → Event → M A
call f event e s = (some (f e s.trace), record s { trace = event ∷ s.trace })

unfoldable pub emit : Event → M (Unit {0})
emit event e s = (some tt, record s { trace = event ∷ s.trace })

unfoldable pub modify : (State → State) → M (Unit {0})
modify f e s = (some tt, f s)

-- configASSERT()
unfoldable pub assert : Bool → M (Unit {0})
assert true e s = (some tt, s)
assert false e s = (none, s)

infix 1 branch◌then◌else◌
unfoldable pub branch◌then◌else◌ : {A : Type 0} → Bool → M A → M A → M A
branch true then m else n = m
branch false then m else n = n

-- ===== src/Bsp/Interrupts.antt =====
-- external_interrupt_handler() of bsp/bsp.c, and the stores of PLIC_register_interrupt_handler() and
-- PLIC_unregister_interrupt_handler() of bsp/plic_driver.c one by one, for an interrupt may come
-- between any two of them.
use free_rtos_demos_cheri_ri.Prelude.{update, ℕ, ◌+◌, ◌≡◌, true, if◌then◌else◌, Option, none, some}
use free_rtos_demos_cheri_ri.Plic.{
  Plic, write_register, claim_offset, claim_interrupt, complete_interrupt, is_source,
  enable_interrupt, disable_interrupt,
}
use free_rtos_demos_cheri_ri.Plic.Table.{is_granted}

-- What the handler of an interrupt called: the function of the table with its reference, or NULL.
pub data Outcome : Type 0 where
  not_called null_called : Outcome
  called : ℕ → ℕ → Outcome

-- The handlers are code elsewhere: `callback h ref` is the result of a call of `h`.
pub record Handled : Type 0 where
  pub woken : ℕ  -- pxHigherPriorityTaskWoken
  pub outcome : Outcome
  pub plic : Plic

-- HandlerTable[ source_id ].Handler( HandlerTable[ source_id ].CallBackRef )
unfoldable pub call_handler : (ℕ → ℕ → ℕ) → Option ℕ → ℕ → ℕ × Outcome
call_handler callback none ref = (0, Outcome.null_called)
call_handler callback (some h) ref = (callback h ref, Outcome.called h ref)

-- The assertion on the cause is a hypothesis of the call, not a part of it.
unfoldable pub external_interrupt_handler : (ℕ → ℕ → ℕ) → Plic → Handled
unfolding call_handler
external_interrupt_handler callback p =
    let source_id = claim_interrupt p in
    let (woken, outcome) =
      if is_source source_id
      then call_handler callback (p.handler source_id) (p.callback_ref source_id)
      else (0, Outcome.not_called) in
    record { woken = woken; outcome = outcome; plic = complete_interrupt p source_id }

-- Where the task that registers or unregisters a handler is.
pub data Task : Type 0 where
  idle : Task
  storing enabling clearing : ℕ → Task

pub record Machine : Type 0 where
  pub task : Task
  pub plic : Plic

-- The device answers the next read of the claim register with a source.
unfoldable pub raise : ℕ → Plic → Plic
unfolding write_register
raise source_id p = write_register (p.base_addr + claim_offset) source_id p

-- One store of the task, or a whole interrupt.
pub data Step (callback : ℕ → ℕ → ℕ) (m : Machine) : Machine → Type 0 where
  store_handler :
      (source_id h : ℕ)
      → m.task ≡ Task.idle
      → is_granted m.plic source_id ≡ true
      → Step callback m record {
        task = Task.storing source_id;
        plic = record m.plic { handler = update m.plic.handler source_id (some h) };
      }
  store_reference :
      (source_id ref : ℕ)
      → m.task ≡ Task.storing source_id
      → Step callback m record {
        task = Task.enabling source_id;
        plic = record m.plic { callback_ref = update m.plic.callback_ref source_id ref };
      }
  enable :
      (source_id : ℕ)
      → m.task ≡ Task.enabling source_id
      → Step callback m record { task = Task.idle; plic = enable_interrupt m.plic source_id }
  disable :
      (source_id : ℕ)
      → m.task ≡ Task.idle
      → is_source source_id ≡ true
      → Step callback m
          record { task = Task.clearing source_id; plic = disable_interrupt m.plic source_id }
  clear_handler :
      (source_id : ℕ)
      → m.task ≡ Task.clearing source_id
      → Step callback m record {
        task = Task.idle;
        plic = record m.plic { handler = update m.plic.handler source_id none };
      }
  interrupt :
      (source_id : ℕ)
      → Step callback m
          record m { plic = (external_interrupt_handler callback (raise source_id m.plic)).plic }

pub data Reach (callback : ℕ → ℕ → ℕ) (m : Machine) : Machine → Type 0 where
  here : Reach callback m m
  next : {a b : Machine} → Reach callback m a → Step callback a b → Reach callback m b

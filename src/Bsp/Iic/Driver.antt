-- ===== src/Bsp/Iic/Driver.antt =====
-- The functions of bsp/iic.c.
use free_rtos_demos_cheri_ri.Prelude.{
  ℕ, ◌+◌, ℤ, pos, negsuc, is_zero, Bool, false, not, Text, List, [], ◌∷◌, ◌==◌, if◌then◌else◌,
  Option, none, some, is_some,
}
use free_rtos_demos_cheri_ri.Plic.{register_interrupt_handler, unregister_interrupt_handler}
use free_rtos_demos_cheri_ri.Bsp.Iic.{
  Callback, Event, M, ◌>>=◌, ◌>>◌, pure, gets, asks, call, emit, modify, assert, branch◌then◌else◌,
}

-- enum iic_error
abbrev pub timeout : ℤ
timeout = negsuc 0

abbrev pub slave_no_ack : ℤ
slave_no_ack = negsuc 1

abbrev pub master_send_error : ℤ
master_send_error = negsuc 2

abbrev pub master_recv_error : ℤ
master_recv_error = negsuc 3

abbrev pub bus_is_busy : ℤ
bus_is_busy = negsuc 4

-- The end of each of the three handlers: the task that waits is notified.
unfoldable pub notify_handle : Option ℕ → M (Unit {0})
unfolding assert emit
notify_handle none = assert false
notify_handle (some task) = emit (Event.notify task)

unfoldable pub notify_task : M (Unit {0})
unfolding notify_handle ◌>>=◌ gets
notify_task = do task ← gets (λ s. s.task_handle); notify_handle task

-- RecvHandler(), SendHandler(), StatusHandler()
unfoldable pub on_callback : Callback → M (Unit {0})
unfolding notify_task ◌>>◌ assert modify pure branch◌then◌else◌
on_callback (Callback.recv n) = branch is_zero n then notify_task else pure tt
on_callback (Callback.send n) = do assert (is_zero n); notify_task
on_callback (Callback.status n) = do
  modify (λ s. record s { total_error_count = s.total_error_count + 1; errors = n })
  notify_task

unfoldable pub run_callbacks : List Callback → M (Unit {0})
unfolding ◌>>◌ pure
run_callbacks [] = pure tt
run_callbacks (c ∷ cs) = do on_callback c; run_callbacks cs

-- The answer to xTaskNotifyWait(), with the interrupts that come before it.
unfoldable pub notify_wait : M Bool
unfolding ◌>>◌ ◌>>=◌ call
notify_wait = do
  callbacks ← call (λ e. e.callbacks) Event.wait_notification
  run_callbacks callbacks
  call (λ e. e.notified) Event.stop_waiting

unfoldable pub slave_failed : M ℤ
unfolding ◌>>◌ modify pure
slave_failed = do modify (λ s. record s { errors = pos 0 }); pure slave_no_ack

-- What follows a notification.
unfoldable pub outcome : M ℤ
unfolding ◌>>=◌ gets branch◌then◌else◌
outcome = do
  errors ← gets (λ s. s.errors)
  branch not (is_zero errors) then slave_failed else gets (λ s. pos s.trans_len)

unfoldable pub on_timeout : M ℤ
unfolding ◌>>◌ emit pure
on_timeout = do emit Event.reset; pure timeout

-- The mutex is released, and the result returned.
unfoldable pub release : ℤ → M ℤ
unfolding ◌>>◌ emit pure
release returnval = do emit Event.give; pure returnval

-- The second half of both functions
unfoldable pub await : M ℤ
unfolding notify_wait ◌>>=◌ branch◌then◌else◌
await = do
  notified ← notify_wait
  returnval ← branch notified then outcome else on_timeout
  release returnval

-- The first half: the mutex is taken, and the rest runs unless the bus is busy.
unfoldable pub when_free : M ℤ → M ℤ
unfolding ◌>>◌ ◌>>=◌ gets asks call assert branch◌then◌else◌
when_free rest = do
  mutex ← gets (λ s. s.mutex)
  assert (is_some mutex)
  taken ← call (λ e. e.take) Event.take
  assert taken
  busy ← asks (λ e. e.is_busy)
  branch busy then release bus_is_busy else rest

-- The address is set, and the task and the length are noted.
unfoldable pub prepare : ℕ → ℕ → M (Unit {0})
unfolding ◌>>◌ ◌>>=◌ asks call assert modify
prepare addr len = do
  done ← call (λ e t. e.set_address t addr) (Event.set_address addr)
  assert done
  task ← asks (λ e. e.current_task)
  modify (λ s. record s { task_handle = task; trans_len = len })

unfoldable pub send_and_wait : ℕ → Text → ℕ → M ℤ
unfolding ◌>>◌ ◌>>=◌ call branch◌then◌else◌
send_and_wait addr tx_data tx_len = do
  prepare addr tx_len
  sent ← call (λ e t. e.master_send t tx_data tx_len) (Event.master_send tx_data tx_len)
  branch sent then await else release master_send_error

-- iic_transmit()
unfoldable pub transmit : ℕ → Text → ℕ → M ℤ
transmit addr tx_data tx_len = when_free (send_and_wait addr tx_data tx_len)

unfoldable pub receive_and_wait : ℕ → ℕ → M ℤ
unfolding ◌>>◌ ◌>>=◌ call branch◌then◌else◌
receive_and_wait addr rx_len = do
  prepare addr rx_len
  started ← call (λ e t. e.master_recv t rx_len) (Event.master_recv rx_len)
  branch started then await else release master_recv_error

-- iic_receive()
unfoldable pub receive : ℕ → ℕ → M ℤ
receive addr rx_len = when_free (receive_and_wait addr rx_len)

-- XIic_InterruptHandler() in the table of the interrupt controller, with the device as reference
abbrev pub interrupt_handler : ℕ
interrupt_handler = 1

abbrev pub device : ℕ
device = 0

unfoldable pub register_handler : ℕ → M ℕ
register_handler plic_source_id e s =
    let r = register_interrupt_handler s.plic plic_source_id interrupt_handler device in
    (some r.0, record s { plic = r.1 })

-- iic_init(), for a device identifier that is configured
unfoldable pub init : ℕ → M (Unit {0})
unfolding ◌>>◌ ◌>>=◌ call assert modify emit register_handler
init plic_source_id = do
  mutex ← call (λ e. e.new_mutex) Event.create_mutex
  modify
      (λ s. record s { mutex = mutex; task_handle = none; total_error_count = 0; errors = pos 0 })
  initialized ← call (λ e. e.initialize) Event.initialize
  assert initialized
  tested ← call (λ e. e.self_test) Event.self_test
  assert tested
  emit Event.set_handlers
  source ← register_handler plic_source_id
  assert (not (source == 0))
  emit Event.start_device

-- iic_stop()
unfoldable pub stop : ℕ → M (Unit {0})
unfolding ◌>>◌ modify emit
stop plic_source_id = do
  modify (λ s. record s { plic = unregister_interrupt_handler s.plic plic_source_id })
  emit Event.stop_device

abbrev pub plic_source_iic0 : ℕ
plic_source_iic0 = 7

-- iic0_master_reset()
unfoldable pub master_reset : M (Unit {0})
unfolding ◌>>◌ emit
master_reset = do stop plic_source_iic0; emit Event.delay; init plic_source_iic0

-- ===== src/Bsp/Iic/Mutex.antt =====
-- The mutex of the bus: iic_transmit() and iic_receive() give it back on every path.
use free_rtos_demos_cheri_ri.Prelude.{
  ℕ, ◌+◌, ◌≡◌, refl, ℤ, pos, is_zero, Bool, true, false, not, Text, List, [], ◌∷◌, Option, none,
  some, is_some, arith,
}
use free_rtos_demos_cheri_ri.Bsp.Iic.{
  Callback, Event, Trace, Env, State, M, bind_to, ◌>>=◌, ◌>>◌, pure, gets, asks, call, emit, modify,
  assert, branch◌then◌else◌,
}
use free_rtos_demos_cheri_ri.Bsp.Iic.Driver.{
  notify_task, notify_handle, on_callback, run_callbacks, notify_wait, outcome, slave_failed,
  on_timeout, release, await, when_free, prepare, send_and_wait, transmit, receive_and_wait,
  receive, timeout, slave_no_ack, master_send_error, master_recv_error, bus_is_busy,
}

abbrev pub takes : Trace → ℕ
takes [] = 0
takes (Event.take ∷ t) = 1 + takes t
takes (_ ∷ t) = takes t

abbrev pub gives : Trace → ℕ
gives [] = 0
gives (Event.give ∷ t) = 1 + gives t
gives (_ ∷ t) = gives t

-- Unless an assertion fails, a call takes the mutex `a` times and gives it `b` times.
record Counts {A : Type 0} (a b : ℕ) (m : M A) : Type 0 where
  counts :
      (e : Env) (s : State)
      → is_some (m e s).0 ≡ true
      → (takes (m e s).1.trace ≡ a + takes s.trace) × (gives (m e s).1.trace ≡ b + gives s.trace)

module _ {A B : Type 0} where
  after :
      (a b c d : ℕ) (f : A → M B) (e : Env) (s : State) (r : Option A × State)
      → (is_some r.0 ≡ true
          → (takes r.1.trace ≡ a + takes s.trace) × (gives r.1.trace ≡ b + gives s.trace))
      → ((x : A) → Counts c d (f x))
      → is_some (bind_to f e r).0 ≡ true
      → (takes (bind_to f e r).1.trace ≡ a + c + takes s.trace)
        × (gives (bind_to f e r).1.trace ≡ b + d + gives s.trace)
  unfolding bind_to
  after a b c d f e s (none, t) h k y = absurd (ground arith)
  after a b c d f e s (some x, t) h k y =
      let (p, q) = h refl in
      let (u, v) = (k x).counts e t y in (omega (arith, p, u), omega (arith, q, v))

  bind-Counts :
      {a b c d : ℕ} {m : M A} {f : A → M B}
      → Counts a b m
      → ((x : A) → Counts c d (f x))
      → Counts (a + c) (b + d) (m >>= f)
  unfolding ◌>>=◌
  bind-Counts {a} {b} {c} {d} {m} {f} h k = record {
    counts = λ e s. after a b c d f e s (m e s) (h.counts e s) k;
  }

  then-Counts :
      {a b c d : ℕ} {m : M A} {k : M B}
      → Counts a b m
      → Counts c d k
      → Counts (a + c) (b + d) (m >> k)
  unfolding ◌>>◌
  then-Counts {a} {b} {c} {d} {m} {k} h g = record {
    counts = λ e s. after a b c d (λ x. k) e s (m e s) (h.counts e s) (λ x. g);
  }

branch-Counts :
    {A : Type 0} {a b : ℕ} (x : Bool) {m n : M A}
    → Counts a b m
    → Counts a b n
    → Counts a b (branch x then m else n)
unfolding branch◌then◌else◌
branch-Counts true h k = h
branch-Counts false h k = k

-- The primitive calls
assert-Counts : (b : Bool) → Counts 0 0 (assert b)
unfolding assert
assert-Counts b = record { counts = λ e s y. ground arith }

notify_handle-Counts : (h : Option ℕ) → Counts 0 0 (notify_handle h)
unfolding notify_handle assert emit
notify_handle-Counts none = record { counts = λ e s y. (omega arith, omega arith) }
notify_handle-Counts (some t) = record { counts = λ e s y. (omega arith, omega arith) }

gets-Counts : {A : Type 0} (f : State → A) → Counts 0 0 (gets f)
unfolding gets
gets-Counts f = record { counts = λ e s y. (omega arith, omega arith) }

pure-Counts : {A : Type 0} (x : A) → Counts 0 0 (pure x)
unfolding pure
pure-Counts x = record { counts = λ e s y. (omega arith, omega arith) }

-- A call that is not one of the mutex
quiet : Event → Bool
quiet Event.take = false
quiet Event.give = false
quiet _ = true

quiet-counts :
    (event : Event) (t : Trace)
    → quiet event ≡ true
    → (takes (event ∷ t) ≡ 0 + takes t) × (gives (event ∷ t) ≡ 0 + gives t)
unfolding quiet
quiet-counts Event.take t h = absurd (ground arith)
quiet-counts Event.give t h = absurd (ground arith)
quiet-counts _ t h = (omega arith, omega arith)

call-Counts :
    {A : Type 0} (f : Env → Trace → A) (event : Event)
    → quiet event ≡ true
    → Counts 0 0 (call f event)
unfolding call
call-Counts f event h = record { counts = λ e s y. quiet-counts event s.trace h }

emit-Counts : (event : Event) → quiet event ≡ true → Counts 0 0 (emit event)
unfolding emit
emit-Counts event h = record { counts = λ e s y. quiet-counts event s.trace h }

asks-Counts : {A : Type 0} (f : Env → Trace → A) → Counts 0 0 (asks f)
unfolding asks
asks-Counts f = record { counts = λ e s y. (omega arith, omega arith) }

modify-Counts : (f : State → State) → ((s : State) → (f s).trace ≡ s.trace) → Counts 0 0 (modify f)
unfolding modify
modify-Counts f h = record { counts = λ e s y. (rw (h s) (omega arith), rw (h s) (omega arith)) }

take-Counts : {A : Type 0} (f : Env → Trace → A) → Counts 1 0 (call f Event.take)
unfolding call
take-Counts f = record { counts = λ e s y. (omega arith, omega arith) }

give-Counts : Counts 0 1 (emit Event.give)
unfolding emit
give-Counts = record { counts = λ e s y. (omega arith, omega arith) }

notify_task-Counts : Counts 0 0 notify_task
unfolding notify_task
notify_task-Counts = bind-Counts (gets-Counts (λ s. s.task_handle)) notify_handle-Counts

on_callback-Counts : (c : Callback) → Counts 0 0 (on_callback c)
unfolding on_callback
on_callback-Counts (Callback.recv n) = branch-Counts (is_zero n) notify_task-Counts (pure-Counts tt)
on_callback-Counts (Callback.send n) = then-Counts (assert-Counts (is_zero n)) notify_task-Counts
on_callback-Counts (Callback.status n) =
    then-Counts (modify-Counts _ (λ s. refl)) notify_task-Counts

run_callbacks-Counts : (cs : List Callback) → Counts 0 0 (run_callbacks cs)
unfolding run_callbacks
run_callbacks-Counts [] = pure-Counts tt
run_callbacks-Counts (c ∷ cs) = then-Counts (on_callback-Counts c) (run_callbacks-Counts cs)

notify_wait-Counts : Counts 0 0 notify_wait
unfolding notify_wait quiet
notify_wait-Counts =
    bind-Counts (call-Counts (λ e. e.callbacks) Event.wait_notification refl) (λ cs.
      then-Counts (run_callbacks-Counts cs) (call-Counts (λ e. e.notified) Event.stop_waiting refl))

outcome-Counts : Counts 0 0 outcome
unfolding outcome slave_failed
outcome-Counts = bind-Counts (gets-Counts (λ s. s.errors)) (λ n.
    branch-Counts (not (is_zero n))
      (then-Counts (modify-Counts _ (λ s. refl)) (pure-Counts slave_no_ack))
      (gets-Counts (λ s. pos s.trans_len)))

on_timeout-Counts : Counts 0 0 on_timeout
unfolding on_timeout quiet
on_timeout-Counts = then-Counts (emit-Counts Event.reset refl) (pure-Counts timeout)

release-Counts : (r : ℤ) → Counts 0 1 (release r)
unfolding release
release-Counts r = then-Counts give-Counts (pure-Counts r)

await-Counts : Counts 0 1 await
unfolding await
await-Counts =
    bind-Counts notify_wait-Counts
      (λ n. bind-Counts (branch-Counts n outcome-Counts on_timeout-Counts) release-Counts)

prepare-Counts : (addr len : ℕ) → Counts 0 0 (prepare addr len)
unfolding prepare quiet
prepare-Counts addr len =
    bind-Counts (call-Counts (λ e t. e.set_address t addr) (Event.set_address addr) refl) (λ d.
      then-Counts (assert-Counts d) (
        bind-Counts (asks-Counts (λ e. e.current_task)) (λ task.
          modify-Counts (λ s. record s { task_handle = task; trans_len = len }) (λ s. refl))))

when_free-Counts : {rest : M ℤ} → Counts 0 1 rest → Counts 1 1 (when_free rest)
unfolding when_free
when_free-Counts h = bind-Counts (gets-Counts (λ s. s.mutex)) (λ x.
    then-Counts (assert-Counts (is_some x)) (
      bind-Counts (take-Counts (λ e. e.take)) (λ t. then-Counts (assert-Counts t) (
        bind-Counts (asks-Counts (λ e. e.is_busy))
          (λ busy. branch-Counts busy (release-Counts bus_is_busy) h)))))

transmit-Counts : (addr : ℕ) (tx_data : Text) (len : ℕ) → Counts 1 1 (transmit addr tx_data len)
unfolding transmit send_and_wait quiet
transmit-Counts addr tx_data len = when_free-Counts (
    then-Counts (prepare-Counts addr len) (
      bind-Counts
        (call-Counts (λ e t. e.master_send t tx_data len) (Event.master_send tx_data len) refl)
        (λ sent. branch-Counts sent await-Counts (release-Counts master_send_error))))

receive-Counts : (addr len : ℕ) → Counts 1 1 (receive addr len)
unfolding receive receive_and_wait quiet
receive-Counts addr len = when_free-Counts (
    then-Counts (prepare-Counts addr len) (
      bind-Counts (call-Counts (λ e t. e.master_recv t len) (Event.master_recv len) refl)
        (λ started. branch-Counts started await-Counts (release-Counts master_recv_error))))

-- A call of iic_transmit() takes the mutex of the bus once and gives it back once, whatever the
-- device, the kernel and the interrupts answer and whichever result it returns: for a busy bus, a
-- refused start, an error of the slave, a time-out and a success. The condition is that it returns,
-- that is, that no assertion fails.
pub transmit-mutex :
    (e : Env) (s : State) (addr : ℕ) (tx_data : Text) (len : ℕ)
    → is_some (transmit addr tx_data len e s).0 ≡ true
    → (takes (transmit addr tx_data len e s).1.trace ≡ 1 + takes s.trace)
      × (gives (transmit addr tx_data len e s).1.trace ≡ 1 + gives s.trace)
transmit-mutex e s addr tx_data len = (transmit-Counts addr tx_data len).counts e s

-- The same holds of a call of iic_receive() that returns: the mutex is taken once and given back
-- once, whatever the answers and the result are.
receive-mutex :
    (e : Env) (s : State) (addr len : ℕ)
    → is_some (receive addr len e s).0 ≡ true
    → (takes (receive addr len e s).1.trace ≡ 1 + takes s.trace)
      × (gives (receive addr len e s).1.trace ≡ 1 + gives s.trace)
receive-mutex e s addr len = (receive-Counts addr len).counts e s

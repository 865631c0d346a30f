-- ===== src/Bsp/Iic/Errors.antt =====
-- The result of a transaction, by what the device reported while the task waited.
use free_rtos_demos_cheri_ri.Prelude.{
  ℕ, ◌≡◌, refl, ap, ◌∙◌, ℤ, pos, is_zero, Bool, true, not, ◌&&◌, List, [], ◌∷◌, Option, some,
  Bool-cases, inl, inr, arith, if◌then◌else◌,
}
use free_rtos_demos_cheri_ri.Bsp.Iic.{
  Callback, Event, Env, State, bind_to, ◌>>=◌, ◌>>◌, pure, gets, call, emit, modify, assert,
  branch◌then◌else◌,
}
use free_rtos_demos_cheri_ri.Bsp.Iic.Driver.{
  notify_task, notify_handle, on_callback, run_callbacks, notify_wait, outcome, slave_failed,
  on_timeout, release, await, timeout, slave_no_ack,
}

-- SendHandler() is only called with the status 0, as it asserts.
abbrev pub sends_succeed : List Callback → Bool
sends_succeed [] = true
sends_succeed (Callback.send n ∷ cs) = is_zero n && sends_succeed cs
sends_succeed (_ ∷ cs) = sends_succeed cs

-- The status that was reported last, or the value before.
abbrev pub last_status : List Callback → ℤ → ℤ
last_status [] n = n
last_status (Callback.status m ∷ cs) n = last_status cs m
last_status (_ ∷ cs) n = last_status cs n

-- What handlers leave behind in a state that they began in `s`: they return, with these errors.
Leaves : State → ℤ → Option (Unit {0}) × State → Type 0
Leaves s n r =
    (r.0 ≡ some tt)
    × (r.1.errors ≡ n)
    × (r.1.trans_len ≡ s.trans_len)
    × (r.1.task_handle ≡ s.task_handle)

on_callback-Leaves :
    (c : Callback) (cs : List Callback) (e : Env) (s : State) (task : ℕ)
    → s.task_handle ≡ some task
    → sends_succeed (c ∷ cs) ≡ true
    → Leaves s (last_status (c ∷ []) s.errors) (on_callback c e s)
unfolding Leaves on_callback notify_task notify_handle ◌>>=◌ ◌>>◌ bind_to pure gets emit modify
    assert branch◌then◌else◌
on_callback-Leaves (Callback.recv n) cs e s task h k = rw h (ground arith)
on_callback-Leaves (Callback.send n) cs e s task h k = rw h (ground arith)
on_callback-Leaves (Callback.status n) cs e s task h k = rw h (refl, refl, refl, refl)

sends_succeed-tail :
    (c : Callback) (cs : List Callback) → sends_succeed (c ∷ cs) ≡ true → sends_succeed cs ≡ true
sends_succeed-tail (Callback.recv n) cs h = h
sends_succeed-tail (Callback.send n) cs h = ground arith
sends_succeed-tail (Callback.status n) cs h = h

last_status-cons :
    (c : Callback) (cs : List Callback) (n : ℤ)
    → last_status cs (last_status (c ∷ []) n) ≡ last_status (c ∷ cs) n
last_status-cons (Callback.recv m) cs n = refl
last_status-cons (Callback.send m) cs n = refl
last_status-cons (Callback.status m) cs n = refl

run_callbacks-Leaves :
    (cs : List Callback) (e : Env) (s : State) (task : ℕ)
    → s.task_handle ≡ some task
    → sends_succeed cs ≡ true
    → Leaves s (last_status cs s.errors) (run_callbacks cs e s)
unfolding Leaves run_callbacks ◌>>◌ bind_to pure
run_callbacks-Leaves [] e s task h k = (refl, refl, refl, refl)
run_callbacks-Leaves (c ∷ cs) e s task h k =
    let (a, b, d, f) = on_callback-Leaves c cs e s task h k in
    let t = (on_callback c e s).1 in
    let (a2, b2, d2, f2) = run_callbacks-Leaves cs e t task (f ∙ h) (sends_succeed-tail c cs k) in
    rw a (a2, b2 ∙ ap (last_status cs) b ∙ last_status-cons c cs s.errors, d2 ∙ d, f2 ∙ f)

-- The state after the interrupts that come while the task waits, and what the wait returns then.
unfoldable pub after_wait : Env → State → State
after_wait e s =
    (run_callbacks (e.callbacks s.trace) e record s { trace = Event.wait_notification ∷ s.trace }).1

-- After the transfer was started, for a task that is noted in the driver and a device that reports
-- any sequence of events in which the sends succeed: a notification in time gives the length that
-- was asked for, if the last status reported, or else the error left over from before, is 0, and
-- IIC_SLAVE_NO_ACK otherwise, which clears the error; without a notification the result is
-- IIC_TIMEOUT, and the error stays for the next transaction.
pub await-result :
    (e : Env) (s : State) (task : ℕ)
    → s.task_handle ≡ some task
    → sends_succeed (e.callbacks s.trace) ≡ true
    → ((await e s).0
        ≡ some (
            if e.notified (after_wait e s).trace
            then if is_zero (last_status (e.callbacks s.trace) s.errors)
              then pos s.trans_len
              else slave_no_ack
            else timeout))
      × ((await e s).1.errors ≡ (
          if e.notified (after_wait e s).trace
            && not (is_zero (last_status (e.callbacks s.trace) s.errors))
          then pos 0
          else last_status (e.callbacks s.trace) s.errors))
unfolding Leaves await notify_wait after_wait outcome slave_failed on_timeout release ◌>>=◌ ◌>>◌
    bind_to gets emit call modify pure branch◌then◌else◌
await-result e s task h k =
    let s0 : State = record s { trace = Event.wait_notification ∷ s.trace } in
    let cs = e.callbacks s.trace in
    let (a, b, d, f) = run_callbacks-Leaves cs e s0 task h k in
    let t = (run_callbacks cs e s0).1.trace in
    rw (a, b, d)
      (elim (Bool-cases (e.notified t)) [
        | inl y ↦ elim (Bool-cases (is_zero (last_status cs s.errors))) [
          | inl z ↦ rw (y, z) (refl, refl)
          | inr z ↦ rw (y, z) (refl, refl)
        ]
        | inr n ↦ rw n (refl, refl)
      ])

-- ===== src/Echo/Server.antt =====
-- prvServerConnectionInstance() of demo/SimpleTCPEchoServer.c: the task that serves one connection.
pub mod Sending
pub mod Partial
pub mod Ending
use free_rtos_demos_cheri_ri.Prelude.{
  zeros, ℕ, zero, suc, ◌+◌, ◌-◌, ◌%◌, ◌^◌, Bool, true, false, List, [], ◌∷◌, ◌++◌, Option, none,
  some, Text, length, take, overlay, ltb, if◌then◌else◌, ℤ, pos, negsuc,
}

pub data Received : Type 0 where
  failed : ℕ → Received  -- the error -(n + 1)
  bytes : Text → Received  -- at most as many as were asked for

pub data Event : Type 0 where
  malloc : Bool → Event  -- pvPortMalloc(), and whether it gave a buffer
  free : Bool → Event  -- vPortFree() of the buffer, or of NULL
  recv : Received → Event  -- FreeRTOS_recv() into the buffer
  recv_null : Event  -- FreeRTOS_recv() to NULL
  send : Text → ℤ → Event  -- FreeRTOS_send() of these bytes, and its result
  shutdown close : Event

abbrev pub Trace : Type 0
Trace = List Event

-- What each call answers, given the calls before it.
pub record Env : Type 0 where
  pub malloc : Trace → Bool
  pub recv : Trace → Received
  pub send : Trace → Text → ℤ
  pub tick_count : Trace → ℕ
  pub tick_bits : ℕ  -- the width of TickType_t
  pub shutdown_delay : ℕ  -- tcpechoSHUTDOWN_DELAY
  pub tcp_mss : ℕ  -- ipconfigTCP_MSS

-- The buffer pucRxBuffer, with all its bytes, and the calls
pub record State : Type 0 where
  pub rx_buffer : Text
  pub trace : Trace

-- A call of FreeRTOS_send() with the buffer from its start
unfoldable pub send_call : Env → ℕ → State → ℤ × State
send_call e n s =
    let sent = e.send s.trace (take n s.rx_buffer) in
    (sent, record s { trace = Event.send (take n s.rx_buffer) sent ∷ s.trace })

-- What the loop of FreeRTOS_send() ends with: whether lSent is negative; none if the fuel runs out.
abbrev pub Sent : Type 0
Sent = Option (Bool × State)

unfoldable pub after_send : (ℕ → State → Sent) → ℕ → ℤ × State → Sent
after_send again left (pos n, s) = again (left - n) s
after_send again left (negsuc n, s) = some (true, s)

-- `while( ( lSent >= 0 ) && ( lTotalSent < lBytes ) )`, on the number of bytes that are left
unfoldable pub send_loop : ℕ → Env → ℕ → State → Sent
unfolding after_send send_call
send_loop zero e zero s = some (false, s)
send_loop zero e (suc n) s = none
send_loop (suc fuel) e zero s = some (false, s)
send_loop (suc fuel) e (suc n) s = after_send (send_loop fuel e) (suc n) (send_call e (suc n) s)

-- The rest of a round, by the result of FreeRTOS_recv(): whether the loop is left
unfoldable pub on_received : ℕ → Env → Received → State → Sent
unfolding send_loop zeros
on_received fuel e (Received.failed n) s = some (
  true,
  record s { rx_buffer = zeros e.tcp_mss; trace = Event.recv (Received.failed n) ∷ s.trace },
)
on_received fuel e (Received.bytes b) s = send_loop fuel e (length b) record s {
  rx_buffer = overlay b (zeros e.tcp_mss);
  trace = Event.recv (Received.bytes b) ∷ s.trace;
}

unfoldable pub echo_round : ℕ → Env → State → Sent
unfolding on_received
echo_round fuel e s = on_received fuel e (e.recv s.trace) s

unfoldable pub go_on : (State → Sent) → Sent → Sent
go_on again none = none
go_on again (some (true, s)) = some (true, s)
go_on again (some (false, s)) = again s

-- At most `n` rounds of the loop; the result is whether it was left.
unfoldable pub echo_rounds : ℕ → ℕ → Env → State → Sent
unfolding go_on echo_round
echo_rounds zero fuel e s = some (false, s)
echo_rounds (suc n) fuel e s = go_on (echo_rounds n fuel e) (echo_round fuel e s)

-- FreeRTOS_recv() after the shutdown, into the buffer or to NULL
unfoldable pub drain : Bool → Received → State → State
drain true (Received.bytes b) s = record s {
  rx_buffer = overlay b s.rx_buffer;
  trace = Event.recv (Received.bytes b) ∷ s.trace;
}
drain true (Received.failed n) s = record s { trace = Event.recv (Received.failed n) ∷ s.trace }
drain false r s = record s { trace = Event.recv_null ∷ s.trace }

unfoldable pub is_failed : Received → Bool
is_failed (Received.failed n) = true
is_failed (Received.bytes b) = false

-- The loop that waits for an error of FreeRTOS_recv(), from the tick count `since` on; `none` if the
-- fuel runs out
unfoldable pub shutdown_loop : ℕ → Env → Bool → ℕ → State → Option State
unfolding drain is_failed
shutdown_loop zero e buffer since s = none
shutdown_loop (suc fuel) e buffer since s =
    let r = e.recv s.trace in
    let s' = drain buffer r s in
    let waited = (e.tick_count s'.trace + 2 ^ e.tick_bits - since) % 2 ^ e.tick_bits in
    let again = shutdown_loop fuel e buffer since s' in
    if is_failed r then some s' else if ltb waited e.shutdown_delay then again else some s'

unfoldable pub finish : Bool → Option State → Option State
finish buffer none = none
finish buffer (some s) = some record s { trace = Event.close ∷ (Event.free buffer ∷ s.trace) }

unfoldable pub shut_down : ℕ → Env → Bool → State → Option State
unfolding finish shutdown_loop
shut_down fuel e buffer s =
    let s' = record s { trace = Event.shutdown ∷ s.trace } in
    finish buffer (shutdown_loop fuel e buffer (e.tick_count s'.trace) s')

-- The end of the loop, if it was left
unfoldable pub after_loop : ℕ → Env → Sent → Option State
unfolding shut_down
after_loop fuel e none = none
after_loop fuel e (some (false, s)) = none
after_loop fuel e (some (true, s)) = shut_down fuel e true s

-- The task, with fuel for each of its loops
unfoldable pub connection_instance : ℕ → Env → State → Option State
unfolding after_loop echo_rounds shut_down
connection_instance fuel e s =
    let buffer = e.malloc s.trace in
    let s' = record s { trace = Event.malloc buffer ∷ s.trace } in
    if buffer then after_loop fuel e (echo_rounds fuel fuel e s') else shut_down fuel e false s'

-- ===== src/Echo/Client.antt =====
-- prvEchoClientTask(), prvCreateTxData() and xAreSingleTaskTCPEchoClientsStillRunning() of
-- demo/TCPEchoClient_SingleTasks.c, for its one instance of the client.
pub mod Connection
pub mod Check
pub mod Reply
use free_rtos_demos_cheri_ri.Prelude.{
  zeros, ℕ, zero, suc, ◌+◌, ◌-◌, ◌*◌, ◌%◌, ◌^◌, Bool, true, false, ◌&&◌, ◌||◌, List, [], ◌∷◌, ◌++◌,
  Option, none, some, Text, codes, dec, length, take, drop, overlay, ◌==◌, ltb, if◌then◌else◌, ℤ,
  pos, negsuc,
}

pub data Received : Type 0 where
  failed : ℕ → Received  -- the error -(n + 1)
  bytes : Text → Received  -- at most as many as were asked for; none after the time out

pub data Event : Type 0 where
  rand : Event  -- ipconfigRAND32()
  connect : Bool → Event  -- FreeRTOS_connect(), and whether it succeeded
  send : Text → ℤ → Event  -- FreeRTOS_send() of these bytes, and its result
  recv : ℕ → Event  -- FreeRTOS_recv() of at most so many bytes
  shutdown close : Event

abbrev pub Trace : Type 0
Trace = List Event

pub record Env : Type 0 where
  pub rand : Trace → ℕ
  pub connect : Trace → Bool
  pub send : Trace → Text → ℤ
  pub recv : Trace → ℕ → Received
  pub tick_count : Trace → ℕ
  pub tick_bits : ℕ  -- the width of TickType_t
  pub receive_time_out : ℕ  -- xReceiveTimeOut
  pub buffer_size : ℕ  -- echoBUFFER_SIZES

-- The buffers, with all their bytes, and the counters of the client
pub record State : Type 0 where
  pub tx_buffer : Text
  pub rx_buffer : Text
  pub tx_count : ℕ
  pub tx_rx_cycles : ℕ
  pub tx_rx_failures : ℕ
  pub connections : ℕ
  pub trace : Trace

-- lMinimumLength
abbrev pub minimum_length : ℕ
minimum_length = 60

-- ipconfigRAND32() % ( ulBufferLength - 20UL ), with an unsigned long of 64 bits
unfoldable pub length_of : ℕ → ℕ → ℕ
length_of r size = r % ((size % 2 ^ 32 + 2 ^ 64 - 20) % 2 ^ 64)

-- The loop that draws a length; `none` if the fuel runs out
unfoldable pub draw_length : ℕ → Env → State → Option (ℕ × State)
unfolding length_of
draw_length zero e s = none
draw_length (suc fuel) e s =
    let n = length_of (e.rand s.trace) e.buffer_size in
    let s' = record s { trace = Event.rand ∷ s.trace } in
    let again = draw_length fuel e s' in
    if n == 0 || ltb n minimum_length then again else some (n, s')

-- The character after `c` in the data
unfoldable pub next_char : ℕ → ℕ
next_char c = if ltb b'~' (c + 1) then b'0' else c + 1

unfoldable pub fill : ℕ → ℕ → Text
unfolding next_char
fill zero c = []
fill (suc n) c = c ∷ fill n (next_char c)

unfoldable pub filled : Option (ℕ × State) → Option (ℕ × State)
unfolding fill
filled none = none
filled (some (n, s)) = some (n, record s { tx_buffer = overlay (fill n b'0') s.tx_buffer })

-- prvCreateTxData( pcTransmittedString, echoBUFFER_SIZES )
unfoldable pub create_tx_data : ℕ → Env → State → Option (ℕ × State)
unfolding filled draw_length
create_tx_data fuel e s = filled (draw_length fuel e s)

-- The text that sprintf() writes to the start of the data, without its NUL
unfoldable pub header : ℕ → Text
unfolding codes dec
header tx_count = codes "TxRx message number " ++ dec tx_count

unfoldable pub number_message : State → State
unfolding header
number_message s = record s {
  tx_buffer = overlay (header s.tx_count ++ (0 ∷ [])) s.tx_buffer;
  tx_count = (s.tx_count + 1) % 2 ^ 32;
}

-- What the loop of FreeRTOS_recv() leaves in xReceivedBytes: an error, or a number of bytes
pub data Total : Type 0 where
  error : Total
  received : ℕ → Total

-- FreeRTOS_recv() to an offset of the buffer
unfoldable pub store_at : ℕ → Text → State → State
store_at offset b s = record s {
  rx_buffer = take offset s.rx_buffer ++ overlay b (drop offset s.rx_buffer);
}

unfoldable pub after_recv : (ℕ → State → Total × State) → ℕ → Received → State → Total × State
unfolding store_at
after_recv again total (Received.failed n) s = (Total.error, s)
after_recv again total (Received.bytes []) s = (Total.received total, s)
after_recv again total (Received.bytes (x ∷ b)) s =
    again (total + length (x ∷ b)) (store_at total (x ∷ b) s)

-- `while( xReceivedBytes < lTransmitted )`: the rounds are at most the bytes that are missing, since
-- each round that goes on has received one.
unfoldable pub recv_loop : ℕ → Env → ℕ → ℕ → ℕ → State → Total × State
unfolding after_recv
recv_loop zero e size transmitted total s = (Total.received total, s)
recv_loop (suc left) e size transmitted total s =
    let s' = record s { trace = Event.recv (size - total) ∷ s.trace } in
    let r =
      after_recv (recv_loop left e size transmitted) total (e.recv s.trace (size - total)) s' in
    if ltb total transmitted then r else (Total.received total, s)

-- strncmp( a, b, n ) == 0, for arrays of at least n bytes
unfoldable pub same_start : ℕ → Text → Text → Bool
same_start zero a b = true
same_start (suc n) (x ∷ a) (y ∷ b) = (x == y) && ((x == 0) || same_start n a b)
same_start (suc n) a b = true

-- How a request ends: an assertion fails, the loop is left, or it goes on.
pub data Outcome : Type 0 where
  asserted : Outcome
  broke again : State → Outcome

-- The comparison; the assertion stands before the test of the same condition.
unfoldable pub compare_reply : ℕ → State → Outcome
unfolding same_start
compare_reply transmitted s =
    if same_start transmitted s.rx_buffer s.tx_buffer
    then Outcome.again record s { tx_rx_cycles = (s.tx_rx_cycles + 1) % 2 ^ 32 }
    else Outcome.asserted

unfoldable pub on_total : ℕ → Total × State → Outcome
unfolding compare_reply
on_total transmitted (Total.error, s) = Outcome.broke s
on_total transmitted (Total.received zero, s) = Outcome.broke s
on_total transmitted (Total.received (suc n), s) = compare_reply transmitted s

-- The request after its FreeRTOS_send(), whose result is lTransmitted
unfoldable pub on_transmitted : Env → ℕ → ℤ → State → Outcome
unfolding recv_loop on_total zeros
on_transmitted e size (negsuc n) s = Outcome.broke s
on_transmitted e size (pos transmitted) s =
    on_total transmitted
      (recv_loop transmitted e size transmitted 0 record s { rx_buffer = zeros e.buffer_size })

unfoldable pub send_request : Env → ℕ → State → Outcome
unfolding on_transmitted
send_request e size s =
    let d = take size s.tx_buffer in
    let r = e.send s.trace d in
    on_transmitted e size r record s { trace = Event.send d r ∷ s.trace }

unfoldable pub on_created : Env → Option (ℕ × State) → Option Outcome
unfolding number_message send_request
on_created e none = none
on_created e (some (size, s)) = some (send_request e size (number_message s))

-- One turn of the loop over the echo requests
unfoldable pub echo_request : ℕ → Env → State → Option Outcome
unfolding create_tx_data on_created
echo_request fuel e s = on_created e (create_tx_data fuel e s)

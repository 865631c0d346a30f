-- ===== src/Udp.antt =====
-- The UDP client and server of demo/SimpleUDPClientAndServer.c, which pass buffers to FreeRTOS+TCP and
-- take them from it without a copy. The kernel and FreeRTOS+TCP are the parameter `Env`.
pub mod Buffers
pub mod Examples
use free_rtos_demos_cheri_ri.Prelude.{
  ℕ, zero, suc, ◌+◌, Bool, true, false, List, [], ◌∷◌, ◌++◌, Option, none, some, Text, codes, dec,
  length, ◌==◌, if◌then◌else◌, ℤ, pos, negsuc, is_neg, is_pos, is_zero,
}

-- What FreeRTOS_recvfrom() gives: an error, or a buffer and the number of bytes in it.
pub data Received : Type 0 where
  failed : ℕ → Received
  datagram : ℕ → ℕ → Received

-- A buffer is an address.
pub data Event : Type 0 where
  new_socket close_socket : Event
  get_buffer : ℕ → Event  -- FreeRTOS_GetUDPPayloadBuffer(), 0 for NULL
  release_buffer : ℕ → Event  -- FreeRTOS_ReleaseUDPPayloadBuffer()
  recvfrom : Received → Event
  -- FreeRTOS_sendto() of so many bytes of a buffer with FREERTOS_ZERO_COPY, and its result
  sendto : ℕ → ℕ → ℤ → Event

abbrev pub Trace : Type 0
Trace = List Event

pub record Env : Type 0 where
  pub get_buffer : Trace → ℕ → ℕ  -- for a length
  pub recvfrom : Trace → Received
  pub sendto : Trace → ℕ → ℕ → ℤ

-- pcStringToSend
unfoldable pub string_to_send : Text
unfolding codes
string_to_send = codes "Server received (using zero copy): Message number "

-- xStringLength
unfoldable pub string_length : ℕ
unfolding string_to_send
string_length = length string_to_send + 15

-- The text of a message, without its NUL
unfoldable pub message_text : ℕ → Text
unfolding string_to_send dec
message_text count = string_to_send ++ (dec count ++ (13 ∷ 10 ∷ []))

-- The loop that waits for a buffer; `none` if the fuel runs out
unfoldable pub wait_for_buffer : ℕ → Env → Trace → Option (ℕ × Trace)
wait_for_buffer zero e t = none
wait_for_buffer (suc fuel) e t =
    let b = e.get_buffer t string_length in
    let t' = Event.get_buffer b ∷ t in
    let again = wait_for_buffer fuel e t' in if b == 0 then again else some (b, t')

-- A message in a buffer: the result of FreeRTOS_sendto(). The buffer is given back after a 0.
unfoldable pub send_message : Env → ℕ → ℕ → Trace → ℤ × Trace
unfolding message_text
send_message e count b t =
    let n = length (message_text count) + 1 in
    let r = e.sendto t b n in
    let t' = Event.sendto b n r ∷ t in (r, (if is_zero r then Event.release_buffer b ∷ t' else t'))

-- lReturned != FREERTOS_SOCKET_ERROR
unfoldable pub is_socket_error : ℤ → Bool
is_socket_error (negsuc zero) = true
is_socket_error _ = false

unfoldable pub after_message : (ℕ → Trace → Option Trace) → ℕ → ℤ × Trace → Option Trace
unfolding is_socket_error
after_message again count (r, t) =
    let rest = again (count + 1) t in if is_socket_error r then some t else rest

unfoldable pub with_buffer :
    (ℕ → Trace → Option Trace) → Env → ℕ → Option (ℕ × Trace) → Option Trace
unfolding send_message after_message
with_buffer again e count none = none
with_buffer again e count (some (b, t)) = after_message again count (send_message e count b t)

-- The messages on a socket, of which `left` are left
unfoldable pub messages : ℕ → ℕ → Env → ℕ → Trace → Option Trace
unfolding with_buffer wait_for_buffer
messages zero fuel e count t = some t
messages (suc left) fuel e count t =
    with_buffer (messages left fuel e) e count (wait_for_buffer fuel e t)

-- ulLoopsPerSocket
abbrev pub loops_per_socket : ℕ
loops_per_socket = 10

unfoldable pub closed : Option Trace → Option Trace
closed none = none
closed (some t) = some (Event.close_socket ∷ t)

-- One turn of the loop of the client; the assertion that a socket was created is left out.
unfoldable pub client_round : ℕ → Env → Trace → Option Trace
unfolding messages closed
client_round fuel e t = closed (messages loops_per_socket fuel e 0 (Event.new_socket ∷ t))

-- The end of a turn of the server, by lBytes
unfoldable pub release_unless_error : ℕ → ℤ → Trace → Trace
release_unless_error b r t = if is_neg r then t else Event.release_buffer b ∷ t

-- What the server does with a datagram; the result of FreeRTOS_sendto() is assigned to lBytes.
unfoldable pub on_received : Env → Received → Trace → Trace
unfolding release_unless_error
on_received e (Received.failed n) t = t
on_received e (Received.datagram b zero) t = release_unless_error b (pos 0) t
on_received e (Received.datagram b (suc n)) t =
    let r = e.sendto t b (suc n) in release_unless_error b r (Event.sendto b (suc n) r ∷ t)

-- One turn of the loop of the server
unfoldable pub server_round : Env → Trace → Trace
unfolding on_received
server_round e t = on_received e (e.recvfrom t) (Event.recvfrom (e.recvfrom t) ∷ t)

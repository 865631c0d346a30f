-- ===== src/Cyberphys/CanRx.antt =====
-- process_j1939() and the loop of prvCanRxTask() in demo/cyberphys/main_besspin.c. The CAN library,
-- which is not in the repository, is the parameter `Env`: what recv_can_message() delivers.
use free_rtos_demos_cheri_ri.Prelude.{
  ℕ, ◌^◌, ◌≤◌, ◌<◌, ◌≡◌, refl, ap, ℤ, pos, negsuc, Bool, true, false, ◌||◌, Text, List, [], ◌∷◌,
  ◌++◌, ◌==◌, ltb, if◌then◌else◌, arith, take, length, overlay, length-take, min,
}
use free_rtos_demos_cheri_ri.Cyberphys.Scaling.{to_int16}

pub data Received : Type 0 where
  failed : Received
  message : ℕ → Text → Received  -- the CAN identifier, and the msg_len bytes of msg

-- send_can_message() of a reply to a heartbeat
pub data Event : Type 0 where
  recv : Event
  send_heartbeat_ack : Text → Event

abbrev pub Trace : Type 0
Trace = List Event

pub record Env : Type 0 where
  pub recv : Trace → Received
  pub pgn_bam : ℕ  -- PGN_BAM
  pub can_id_heartbeat_req : ℕ  -- CAN_ID_HEARTBEAT_REQ

pub record State : Type 0 where
  pub j1939_rx_buf : Text  -- all bytes of the array
  pub request_id : Text  -- the four bytes of the variable
  pub target_id : Text  -- four bytes
  pub has_overflow : Bool  -- whether a copy went past the end of its target
  pub trace : Trace

-- min( 4, b ) of an int16_t, converted to a size_t, and whether it is negative: for such a size,
-- which is beyond every buffer, stands 2 ^ 32.
min_size : ℤ → ℕ × Bool
min_size (pos n) = (min 4 n, false)
min_size (negsuc n) = (2 ^ 32, true)

-- memcpy( j1939_rx_buf, msg, *msg_len )
unfoldable pub copy_bam : Text → State → State
copy_bam msg s = record s {
  j1939_rx_buf = overlay msg s.j1939_rx_buf;
  has_overflow = s.has_overflow || ltb (length s.j1939_rx_buf) (length msg);
}

-- memcpy( msg_buf, msg, min( 4, *msg_len ) ); the length is passed to min() as an int16_t, and a
-- negative one becomes a size_t beyond every buffer.
unfoldable pub copy_request : Text → State → State
unfolding min_size
copy_request msg s =
    let (n, is_negative) = min_size (to_int16 (pos (length msg))) in
    record s {
      request_id = overlay (take n msg) s.request_id;
      has_overflow = s.has_overflow || is_negative;
    }

-- process_j1939(), for a message that was received
unfoldable pub process_j1939 : Env → ℕ → Text → State → State
process_j1939 e can_id msg s = if can_id == e.pgn_bam then copy_bam msg s else copy_request msg s

-- The reply to a heartbeat: eight bytes of cBuffer
unfoldable pub reply_heartbeat : Env → ℕ → State → State
reply_heartbeat e can_id s =
    if can_id == e.can_id_heartbeat_req
    then record s { trace = Event.send_heartbeat_ack (s.target_id ++ s.request_id) ∷ s.trace }
    else s

unfoldable pub on_received : Env → Received → State → State
on_received e Received.failed s = s
on_received e (Received.message can_id msg) s =
    reply_heartbeat e can_id (process_j1939 e can_id msg s)

-- One round of the loop
unfoldable pub can_round : Env → State → State
can_round e s = on_received e (e.recv s.trace) record s { trace = Event.recv ∷ s.trace }

or_false : (b : Bool) → (b || false) ≡ b
or_false true = refl
or_false false = refl

to_int16_small : (n : ℕ) → n < 2 ^ 15 → to_int16 (pos n) ≡ pos n
unfolding to_int16
to_int16_small n h = ground arith

-- Bytes that fill an array are its content.
overlay_all : (xs array : Text) → length xs ≡ length array → overlay xs array ≡ xs
unfolding overlay
overlay_all [] [] h = refl
overlay_all [] (y ∷ array) h = absurd (omega (arith, h))
overlay_all (x ∷ xs) [] h = absurd (omega (arith, h))
overlay_all (x ∷ xs) (y ∷ array) h = ap (λ l. x ∷ l) (overlay_all xs array (omega (arith, h)))

-- A heartbeat request is answered by the identifier of the board and the first four bytes of the
-- request, in this order, for any request of 4 to 32767 bytes; no buffer overflows, and the buffer of
-- the J1939 messages is not touched.
can_round-heartbeat :
    (e : Env) (s : State) (msg : Text)
    → e.recv s.trace ≡ Received.message e.can_id_heartbeat_req msg
    → (e.can_id_heartbeat_req == e.pgn_bam) ≡ false
    → length s.request_id ≡ 4
    → 4 ≤ length msg
    → length msg < 2 ^ 15
    → ((can_round e s).trace
        ≡ Event.send_heartbeat_ack (s.target_id ++ take 4 msg) ∷ (Event.recv ∷ s.trace))
      × ((can_round e s).has_overflow ≡ s.has_overflow)
      × ((can_round e s).j1939_rx_buf ≡ s.j1939_rx_buf)
unfolding can_round on_received process_j1939 reply_heartbeat copy_request
can_round-heartbeat e s msg r n q a b =
    let i : (e.can_id_heartbeat_req == e.can_id_heartbeat_req) ≡ true = ground arith in
    let t = to_int16_small (length msg) b in
    let m : min 4 (length msg) ≡ 4 = omega (arith, a) in
    let o : overlay (take 4 msg) s.request_id ≡ take 4 msg =
      overlay_all (take 4 msg) s.request_id (omega (arith, length-take 4 msg, a, q)) in
    rw (r, n, t) (rw (m, i) (rw o (refl, or_false s.has_overflow, refl)))

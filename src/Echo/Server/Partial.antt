-- ===== src/Echo/Server/Partial.antt =====
-- What the task of one connection sends when FreeRTOS_send() takes over a part of the data, in
-- demo/SimpleTCPEchoServer.c.
use free_rtos_demos_cheri_ri.Prelude.{
  ℕ, suc, ◌-◌, ◌≤◌, ◌<◌, ◌≡◌, ap, ◌∙◌, false, ◌++◌, some, Text, length, take, pos, arith,
  length-take, take_all,
}
use free_rtos_demos_cheri_ri.Echo.Server.{Env, State, Received, on_received}
use free_rtos_demos_cheri_ri.Echo.Server.Sending.{
  sent_bytes, received_state, sent_state, send_loop-zero, send_loop-turn, received_start,
  received_whole,
}

-- When FreeRTOS_send() takes over the first k of the bytes received, and then all that it is given,
-- the client is sent these k bytes and after them the bytes from the start of the data again, not
-- those that are left.
pub on_received-restarts :
    (fuel : ℕ) (e : Env) (b : Text) (k : ℕ) (s : State)
    → length b ≤ e.tcp_mss
    → 0 < k
    → k < length b
    → e.send (received_state e b s).trace b ≡ pos k
    → e.send (sent_state b k (received_state e b s)).trace (take (length b - k) b)
      ≡ pos (length b - k)
    → (s' : State) × (on_received (suc (suc fuel)) e (Received.bytes b) s ≡ some (false, s'))
      × (sent_bytes s'.trace ≡ (sent_bytes s.trace ++ take k b) ++ take (length b - k) b)
unfolding on_received
on_received-restarts fuel e b k s fits some_taken some_left first second =
    let r = received_state e b s in
    let m : ℕ = length b - k in
    let z : m - m ≡ 0 = omega arith in
    let again = take m b in
    (
      sent_state again m (sent_state b k r),
      send_loop-turn (suc fuel) e (length b) k b r (omega arith) (received_whole e b fits) first
          ∙ send_loop-turn fuel e m m again (sent_state b k r) (omega arith)
              (received_start e m b (omega arith) fits) second
          ∙ (rw z (send_loop-zero fuel e (sent_state again m (sent_state b k r)))),
      ap (λ t. (sent_bytes s.trace ++ take k b) ++ t)
          (take_all m again (omega (arith, length-take m b))),
    )

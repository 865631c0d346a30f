-- ===== src/Echo/Client/Reply.antt =====
-- What prvEchoClientTask() of demo/TCPEchoClient_SingleTasks.c takes for a right echo, and what it
-- sends.
use free_rtos_demos_cheri_ri.Prelude.{
  zeros, ℕ, zero, suc, ◌+◌, ◌-◌, ◌%◌, ◌^◌, ◌≤◌, ◌<◌, ◌≡◌, refl, ap, ◌∙◌, true, false, [], ◌∷◌, ◌++◌,
  Text, length, overlay, ltb, arith, pos, length-append,
}
use mathlib.Core.List.{append_assoc}
use free_rtos_demos_cheri_ri.Echo.Client.{
  Env, State, Event, Received, Total, Outcome, same_start, compare_reply, on_total, recv_loop,
  after_recv, store_at, on_transmitted,
}

-- strncmp() does not look behind a NUL.
same_start-nul : (n : ℕ) (h a b : Text) → same_start n (h ++ 0 ∷ a) (h ++ 0 ∷ b) ≡ true
unfolding same_start
same_start-nul zero h a b = refl
same_start-nul (suc n) [] a b = refl
same_start-nul (suc n) (x ∷ h) a b = ground (arith, same_start-nul n h a b)

-- What lies in an array behind data that fit
overlay-append :
    (b array : Text) → length b ≤ length array → (rest : Text) × (overlay b array ≡ b ++ rest)
unfolding overlay
overlay-append [] array fits = (array, refl)
overlay-append (x ∷ b) [] fits = absurd (omega arith)
overlay-append (x ∷ b) (y ∷ array) fits =
    let (rest, e) = overlay-append b array (omega arith) in (rest, ap (λ t. x ∷ t) e)

length-zeros : (n : ℕ) → length (zeros n) ≡ n
unfolding zeros
length-zeros zero = refl
length-zeros (suc n) = ap suc (length-zeros n)

recv_loop-done :
    (left : ℕ) (e : Env) (size transmitted total : ℕ) (s : State)
    → ltb total transmitted ≡ false
    → recv_loop left e size transmitted total s ≡ (Total.received total, s)
unfolding recv_loop
recv_loop-done zero e size transmitted total s h = refl
recv_loop-done (suc left) e size transmitted total s h = rw h refl

-- The state when a reply has come in one piece
abbrev pub replied : Env → ℕ → Text → State → State
replied e size r s = record s {
  rx_buffer = overlay r (zeros e.buffer_size);
  trace = Event.recv size ∷ s.trace;
}

recv_loop-one :
    (e : Env) (size : ℕ) (r : Text) (s : State)
    → 0 < length r
    → e.recv s.trace size ≡ Received.bytes r
    → recv_loop (length r) e size (length r) 0 record s { rx_buffer = zeros e.buffer_size }
      ≡ (Total.received (length r), replied e size r s)
unfolding recv_loop after_recv store_at
recv_loop-one e size [] s some_bytes h = absurd (omega arith)
recv_loop-one e size (x ∷ r) s some_bytes h =
    let n : ℕ = length r in
    let f : ltb (suc n) (suc n) ≡ false = ground arith in
    let t : ltb 0 (suc n) ≡ true = ground arith in
    let z : size - 0 ≡ size = omega arith in
    let w : 0 + suc n ≡ suc n = omega arith in
    rw (t, z) (rw h (rw w (recv_loop-done n e size (suc n) (suc n) (replied e size (x ∷ r) s) f)))

on_total-received :
    (transmitted n : ℕ) (s : State)
    → 0 < n
    → on_total transmitted (Total.received n, s) ≡ compare_reply transmitted s
unfolding on_total
on_total-received transmitted zero s h = elim h [ ]
on_total-received transmitted (suc n) s h = refl

-- A reply that comes in one piece, agrees with the data sent up to a NUL and has it there too is
-- counted as right, whatever stands behind the NUL.
pub on_transmitted-nul :
    (e : Env) (size : ℕ) (h a b : Text) (s : State)
    → s.tx_buffer ≡ h ++ 0 ∷ b
    → e.recv s.trace size ≡ Received.bytes (h ++ 0 ∷ a)
    → length (h ++ 0 ∷ a) ≤ e.buffer_size
    → on_transmitted e size (pos (length (h ++ 0 ∷ a))) s
      ≡ Outcome.again
          record (replied e size (h ++ 0 ∷ a) s) { tx_rx_cycles = (s.tx_rx_cycles + 1) % 2 ^ 32 }
unfolding on_transmitted compare_reply
on_transmitted-nul e size h a b s tx rx fits =
    let r : Text = h ++ 0 ∷ a in
    let some_bytes : 0 < length r = omega (arith, length-append h (0 ∷ a)) in
    let (rest, is_rest) =
      overlay-append r (zeros e.buffer_size) (omega (arith, length-zeros e.buffer_size)) in
    let same : same_start (length r) (overlay r (zeros e.buffer_size)) s.tx_buffer ≡ true =
      rw (is_rest, tx, append_assoc h (0 ∷ a) rest) (same_start-nul (length r) h (a ++ rest) b) in
    ap (on_total (length r)) (recv_loop-one e size r s some_bytes rx)
    ∙ on_total-received (length r) (length r) (replied e size r s) some_bytes
    ∙ (rw same refl)

-- ===== src/Udp/Buffers.antt =====
-- Who owns the buffers of demo/SimpleUDPClientAndServer.c: a task that has got or received a buffer
-- hands it over by FreeRTOS_sendto(), if that takes it, or gives it back.
use free_rtos_demos_cheri_ri.Prelude.{
  ℕ, zero, suc, ◌+◌, ◌≡◌, ◌≢◌, refl, ap, Bool, true, false, [], ◌∷◌, Option, some, ◌==◌,
  if◌then◌else◌, ℤ, pos, negsuc, is_neg, is_zero, arith, Bool-cases, inl, inr, length,
}
use free_rtos_demos_cheri_ri.Udp.{
  Received, Event, Trace, Env, string_length, message_text, wait_for_buffer, send_message,
  is_socket_error, after_message, with_buffer, messages, loops_per_socket, closed, client_round,
  release_unless_error, on_received, server_round,
}

abbrev one_if : Bool → ℕ
one_if true = 1
one_if false = 0

-- How often a buffer was got or received, handed over, and given back
abbrev pub got : ℕ → Trace → ℕ
got b [] = 0
got b (Event.get_buffer a ∷ t) = one_if (a == b) + got b t
got b (Event.recvfrom (Received.datagram a n) ∷ t) = one_if (a == b) + got b t
got b (_ ∷ t) = got b t

abbrev pub handed : ℕ → Trace → ℕ
handed b [] = 0
handed b (Event.sendto a n (pos (suc k)) ∷ t) = one_if (a == b) + handed b t
handed b (_ ∷ t) = handed b t

abbrev pub released : ℕ → Trace → ℕ
released b [] = 0
released b (Event.release_buffer a ∷ t) = one_if (a == b) + released b t
released b (_ ∷ t) = released b t

-- A buffer that is no longer the task's
abbrev pub IsBalanced : ℕ → Trace → Type 0
IsBalanced b t = got b t ≡ handed b t + released b t

module _ (e : Env) (b : ℕ) where
  -- A result that is not negative leaves the buffer with one owner.
  sent-IsBalanced :
      (a n : ℕ) (r : ℤ) (t : Trace)
      → is_neg r ≡ false
      → got b t ≡ handed b t + released b t + one_if (a == b)
      → IsBalanced b (
          if is_zero r
          then Event.release_buffer a ∷ (Event.sendto a n r ∷ t)
          else Event.sendto a n r ∷ t)
  sent-IsBalanced a n (pos zero) t h p = omega (arith, p)
  sent-IsBalanced a n (pos (suc k)) t h p = ground arith
  sent-IsBalanced a n (negsuc k) t h p = cc

  after_message-IsBalanced :
      (again : ℕ → Trace → Option Trace) (count : ℕ) (r : ℤ) (t : Trace)
      → IsBalanced b t
      → ((t : Trace)
          → IsBalanced b t
          → (t' : Trace) × (again (count + 1) t ≡ some t') × IsBalanced b t')
      → (t' : Trace) × (after_message again count (r, t) ≡ some t') × IsBalanced b t'
  unfolding after_message
  after_message-IsBalanced again count r t p next = elim (Bool-cases (is_socket_error r)) [
    | inl y ↦ (t, rw y refl, p)
    | inr n ↦ let (t', ends, q) = next t p in (t', rw n ends, q)
  ]

  messages-IsBalanced :
      (left fuel count : ℕ) (t : Trace)
      → ((t : Trace) → e.get_buffer t string_length ≢ 0)
      → ((t : Trace) (a n : ℕ) → is_neg (e.sendto t a n) ≡ false)
      → IsBalanced b t
      → (t' : Trace) × (messages left (suc fuel) e count t ≡ some t') × IsBalanced b t'
  unfolding messages wait_for_buffer with_buffer send_message
  messages-IsBalanced zero fuel count t has sends p = (t, refl, p)
  messages-IsBalanced (suc left) fuel count t has sends p =
      let a : ℕ = e.get_buffer t string_length in
      let z : (e.get_buffer t string_length == 0) ≡ false = let h = has t in ground arith in
      let t1 : Trace = Event.get_buffer a ∷ t in
      let n : ℕ = length (message_text count) + 1 in
      let r : ℤ = e.sendto t1 a n in
      rw z (
        after_message-IsBalanced (messages left (suc fuel) e) count r _
          (sent-IsBalanced a n r t1 (sends t1 a n) (omega (arith, p)))
          (λ t' q. messages-IsBalanced left fuel (count + 1) t' has sends q))

-- If FreeRTOS+TCP always gives a buffer, and FreeRTOS_sendto() never returns an error, a turn of the
-- client comes to an end with its socket closed, and each buffer that it got was handed over or given
-- back, exactly once.
pub client_round-IsBalanced :
    (e : Env) (b fuel : ℕ) (t : Trace)
    → ((t : Trace) → e.get_buffer t string_length ≢ 0)
    → ((t : Trace) (a n : ℕ) → is_neg (e.sendto t a n) ≡ false)
    → IsBalanced b t
    → (t' : Trace) × (client_round (suc fuel) e t ≡ some (Event.close_socket ∷ t'))
      × IsBalanced b (Event.close_socket ∷ t')
unfolding client_round closed
client_round-IsBalanced e b fuel t has sends p =
    let (t', ends, q) =
      messages-IsBalanced e b loops_per_socket fuel 0 (Event.new_socket ∷ t) has sends p in
    (t', ap closed ends, q)

-- When FreeRTOS_sendto() takes over the buffer of a datagram, the server gives it back as well: a
-- buffer that was balanced is then handed over and given back once more than it was received.
pub server_round-twice :
    (e : Env) (b n k : ℕ) (t : Trace)
    → e.recvfrom t ≡ Received.datagram b (suc n)
    → e.sendto (Event.recvfrom (Received.datagram b (suc n)) ∷ t) b (suc n) ≡ pos (suc k)
    → IsBalanced b t
    → handed b (server_round e t) + released b (server_round e t) ≡ got b (server_round e t) + 1
unfolding server_round on_received release_unless_error
server_round-twice e b n k t r sent p =
    let same : (b == b) ≡ true = ground arith in rw r (rw sent (rw same (omega (arith, p))))

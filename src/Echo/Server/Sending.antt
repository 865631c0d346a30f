-- ===== src/Echo/Server/Sending.antt =====
-- What the task of one connection sends back, in demo/SimpleTCPEchoServer.c.
use free_rtos_demos_cheri_ri.Prelude.{
  zeros, ℕ, zero, suc, ◌-◌, ◌≤◌, ◌<◌, ◌≡◌, refl, sym, ap, ◌∙◌, Bool, true, false, [], ◌∷◌, ◌++◌,
  some, Text, length, take, overlay, pos, arith, take_all,
}
use mathlib.Core.List.{append-nil}
use free_rtos_demos_cheri_ri.Echo.Server.{
  Env, State, Event, Received, Trace, Sent, send_call, after_send, send_loop, on_received,
  echo_round, go_on, echo_rounds,
}

-- The bytes that FreeRTOS_send() took over, and the bytes that FreeRTOS_recv() delivered
abbrev pub sent_bytes : Trace → Text
sent_bytes [] = []
sent_bytes (Event.send b (pos n) ∷ t) = sent_bytes t ++ take n b
sent_bytes (_ ∷ t) = sent_bytes t

abbrev pub received_bytes : Trace → Text
received_bytes [] = []
received_bytes (Event.recv (Received.bytes b) ∷ t) = received_bytes t ++ b
received_bytes (_ ∷ t) = received_bytes t

-- What is at the start of the buffer is the start of the data, if they fit.
take-overlay :
    (m : ℕ) (b array : Text)
    → m ≤ length b
    → length b ≤ length array
    → take m (overlay b array) ≡ take m b
unfolding overlay
take-overlay zero b array le fits = refl
take-overlay (suc m) [] array le fits = absurd (omega arith)
take-overlay (suc m) (x ∷ b) [] le fits = absurd (omega arith)
take-overlay (suc m) (x ∷ b) (y ∷ array) le fits =
    ap (λ t. x ∷ t) (take-overlay m b array (omega arith) (omega arith))

length-zeros : (n : ℕ) → length (zeros n) ≡ n
unfolding zeros
length-zeros zero = refl
length-zeros (suc n) = ap suc (length-zeros n)

-- The state in which the data were received
abbrev pub received_state : Env → Text → State → State
received_state e b s = record s {
  rx_buffer = overlay b (zeros e.tcp_mss);
  trace = Event.recv (Received.bytes b) ∷ s.trace;
}

pub received_start :
    (e : Env) (m : ℕ) (b : Text)
    → m ≤ length b
    → length b ≤ e.tcp_mss
    → take m (overlay b (zeros e.tcp_mss)) ≡ take m b
received_start e m b le fits =
    take-overlay m b (zeros e.tcp_mss) le (omega (arith, length-zeros e.tcp_mss))

pub send_loop-zero : (fuel : ℕ) (e : Env) (s : State) → send_loop fuel e 0 s ≡ some (false, s)
unfolding send_loop
send_loop-zero zero e s = refl
send_loop-zero (suc fuel) e s = refl

-- The state after a send of these bytes with this result
abbrev pub sent_state : Text → ℕ → State → State
sent_state d k s = record s { trace = Event.send d (pos k) ∷ s.trace }

send_call-sent :
    (e : Env) (n k : ℕ) (d : Text) (s : State)
    → take n s.rx_buffer ≡ d
    → e.send s.trace d ≡ pos k
    → send_call e n s ≡ (pos k, sent_state d k s)
unfolding send_call
send_call-sent e n k d s buf h =
    ap (λ x. (e.send s.trace x, record s { trace = Event.send x (e.send s.trace x) ∷ s.trace })) buf
    ∙ ap (λ r. (r, record s { trace = Event.send d r ∷ s.trace })) h

-- One turn of the loop, by the data at the start of the buffer and the number that is taken over
pub send_loop-turn :
    (fuel : ℕ) (e : Env) (n k : ℕ) (d : Text) (s : State)
    → 0 < n
    → take n s.rx_buffer ≡ d
    → e.send s.trace d ≡ pos k
    → send_loop (suc fuel) e n s ≡ send_loop fuel e (n - k) (sent_state d k s)
unfolding send_loop after_send
send_loop-turn fuel e zero k d s lt buf h = elim lt [ ]
send_loop-turn fuel e (suc n) k d s lt buf h =
    ap (after_send (send_loop fuel e) (suc n)) (send_call-sent e (suc n) k d s buf h)

-- The whole of the data is at the start of the buffer.
pub received_whole :
    (e : Env) (b : Text) → length b ≤ e.tcp_mss → take (length b) (overlay b (zeros e.tcp_mss)) ≡ b
received_whole e b fits =
    received_start e (length b) b (omega arith) fits ∙ take_all (length b) b (omega arith)

-- One round in which FreeRTOS_send() takes over everything: the data received are sent.
on_received-whole :
    (fuel : ℕ) (e : Env) (b : Text) (s : State)
    → length b ≤ e.tcp_mss
    → ((t : Trace) (d : Text) → e.send t d ≡ pos (length d))
    → (s' : State) × (on_received (suc fuel) e (Received.bytes b) s ≡ some (false, s'))
      × (sent_bytes s'.trace ≡ sent_bytes s.trace ++ b)
      × (received_bytes s'.trace ≡ received_bytes s.trace ++ b)
unfolding on_received send_loop
on_received-whole fuel e [] s fits whole =
    (received_state e [] s, refl, sym (append-nil (sent_bytes s.trace)), refl)
on_received-whole fuel e (x ∷ b) s fits whole =
    let d : Text = x ∷ b in
    let n : ℕ = length d in
    let z : n - n ≡ 0 = omega arith in
    let r = received_state e d s in
    (
      sent_state d n r,
      send_loop-turn fuel e n n d r (omega arith) (received_whole e d fits) (whole r.trace d)
          ∙ (rw z (send_loop-zero fuel e (sent_state d n r))),
      ap (λ t. sent_bytes s.trace ++ t) (take_all n d (omega arith)),
      refl,
    )

-- A round, whatever FreeRTOS_recv() gives
on_received-echoes :
    (fuel : ℕ) (e : Env) (r : Received) (s : State)
    → ((b : Text) → r ≡ Received.bytes b → length b ≤ e.tcp_mss)
    → ((t : Trace) (d : Text) → e.send t d ≡ pos (length d))
    → sent_bytes s.trace ≡ received_bytes s.trace
    → (o : Bool × State) × (on_received (suc fuel) e r s ≡ some o)
      × (sent_bytes o.1.trace ≡ received_bytes o.1.trace)
unfolding on_received
on_received-echoes fuel e (Received.failed n) s fits whole h = (
  (
    true,
    record s { rx_buffer = zeros e.tcp_mss; trace = Event.recv (Received.failed n) ∷ s.trace },
  ),
  refl,
  h,
)
on_received-echoes fuel e (Received.bytes b) s fits whole h =
    let (s', ends, sent, received) = on_received-whole fuel e b s (fits b refl) whole in
    ((false, s'), ends, sent ∙ ap (λ t. t ++ b) h ∙ sym received)

after_round :
    (again : State → Sent) (r : Sent) (o : Bool × State)
    → r ≡ some o
    → sent_bytes o.1.trace ≡ received_bytes o.1.trace
    → ((s : State)
        → sent_bytes s.trace ≡ received_bytes s.trace
        → (o : Bool × State) × (again s ≡ some o)
          × (sent_bytes o.1.trace ≡ received_bytes o.1.trace))
    → (o : Bool × State) × (go_on again r ≡ some o)
      × (sent_bytes o.1.trace ≡ received_bytes o.1.trace)
unfolding go_on
after_round again r (true, s) ends h next = ((true, s), ap (go_on again) ends, h)
after_round again r (false, s) ends h next =
    let (o, ends', h') = next s h in (o, ap (go_on again) ends ∙ ends', h')

-- If FreeRTOS_recv() gives at most ipconfigTCP_MSS bytes and FreeRTOS_send() takes over all that it is
-- given, any number of rounds of the loop comes to an end, and the bytes sent to the client are then
-- the bytes received from it, in their order.
pub echo_rounds-echoes :
    (n fuel : ℕ) (e : Env) (s : State)
    → ((t : Trace) (b : Text) → e.recv t ≡ Received.bytes b → length b ≤ e.tcp_mss)
    → ((t : Trace) (d : Text) → e.send t d ≡ pos (length d))
    → sent_bytes s.trace ≡ received_bytes s.trace
    → (o : Bool × State) × (echo_rounds n (suc fuel) e s ≡ some o)
      × (sent_bytes o.1.trace ≡ received_bytes o.1.trace)
unfolding echo_rounds echo_round
echo_rounds-echoes zero fuel e s fits whole h = ((false, s), refl, h)
echo_rounds-echoes (suc n) fuel e s fits whole h =
    let (o, ends, h') = on_received-echoes fuel e (e.recv s.trace) s (fits s.trace) whole h in
    after_round (echo_rounds n (suc fuel) e) (on_received (suc fuel) e (e.recv s.trace) s) o ends h'
      (λ s' h''. echo_rounds-echoes n fuel e s' fits whole h'')

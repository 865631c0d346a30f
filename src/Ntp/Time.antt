-- ===== src/Ntp/Time.antt =====
-- The time that is read from an answer, and how an exchange with a server ends.
use free_rtos_demos_cheri_ri.Prelude.{
  ℕ, ◌+◌, ◌-◌, ◌*◌, ◌/◌, ◌%◌, ◌^◌, ◌≤◌, ◌<◌, ◌≡◌, refl, ap, ◌∙◌, false, ltb, [], ◌∷◌, arith,
}
use native.Mathlib.Nat.{mod-eq_of_lt, add-mod_right, pow-le-pow_right}
use free_rtos_demos_cheri_ri.Ntp.{
  Status, Timestamp, Packet, Received, Event, Env, State, signal_task, dns_callback, swap_fields,
  swap_timestamp, packet_init, read_time, request, clock_time, time1970, on_lookup, on_asking,
  on_status, on_answer, on_received, task_round, Input, step, run, packet_size,
}

seconds_lem :
    (m seconds carry : ℕ)
    → 2 ^ 32 ≤ m
    → time1970 ≤ seconds
    → seconds < 2 ^ 32
    → carry ≤ 1
    → ((seconds + m - time1970) % m + carry) % m ≡ seconds - time1970 + carry
seconds_lem m seconds carry b h k c =
    let a : (seconds + m - time1970) % m ≡ seconds - time1970 =
      ap (λ x. x % m) (omega arith)
      ∙ add-mod_right (seconds - time1970) m
      ∙ mod-eq_of_lt (omega arith) in
    ap (λ x. (x + carry) % m) a ∙ mod-eq_of_lt (omega arith)

-- The time that prvReadTime() sets is that of the stamp: for a stamp from 1970 on, with fields of 32
-- bits and an unsigned long of at least 32 bits, the seconds and milliseconds together are a thousand
-- times the seconds since 1970 and the fraction in units of 4294967, and the milliseconds are below
-- 1000, also where the fraction rounds up to a whole second.
clock_time-milliseconds :
    (time_bits seconds fraction : ℕ)
    → 32 ≤ time_bits
    → time1970 ≤ seconds
    → seconds < 2 ^ 32
    → fraction < 2 ^ 32
    → ((clock_time time_bits record { seconds = seconds; fraction = fraction }).0 * 1000
          + (clock_time time_bits record { seconds = seconds; fraction = fraction }).1
        ≡ (seconds - time1970) * 1000 + fraction / 4294967)
      × ((clock_time time_bits record { seconds = seconds; fraction = fraction }).1 < 1000)
unfolding clock_time
clock_time-milliseconds time_bits seconds fraction b h k l =
    let m : 2 ^ 32 ≤ 2 ^ time_bits = pow-le-pow_right (omega arith) b in
    let c : fraction / 4294967 / 1000 ≤ 1 = omega (arith, l) in
    rw (seconds_lem (2 ^ time_bits) seconds (fraction / 4294967 / 1000) m h k c)
      (omega arith, omega arith)

-- The ten fields that are swapped are words of 32 bits.
abbrev IsStamp : Timestamp → Type 0
IsStamp t = (t.seconds < 2 ^ 32) × (t.fraction < 2 ^ 32)

abbrev pub IsPacket : Packet → Type 0
IsPacket p =
    (p.root_delay < 2 ^ 32)
    × (p.root_dispersion < 2 ^ 32)
    × IsStamp p.reference_timestamp
    × IsStamp p.originate_timestamp
    × IsStamp p.receive_timestamp
    × IsStamp p.transmit_timestamp

-- prvSwapFields() is its own inverse on a packet whose fields are words of 32 bits, for any byte order
-- of the machine, that is, if FreeRTOS_htonl() is its own inverse on such words: an answer is read
-- by the function that wrote the request.
swap_fields-swap_fields :
    (e : Env) (p : Packet)
    → ((x : ℕ) → x < 2 ^ 32 → e.htonl (e.htonl x) ≡ x)
    → IsPacket p
    → swap_fields e (swap_fields e p) ≡ p
unfolding swap_fields swap_timestamp
swap_fields-swap_fields e p h (a, b, (c1, c2), (d1, d2), (e1, e2), (f1, f2)) =
    rw (h _ a, h _ b, h _ c1, h _ c2, h _ d1, h _ d2, h _ e1, h _ e2, h _ f1, h _ f2) refl

-- FreeRTOS_set_secs_msec() with the time of an answer.
unfoldable pub set_clock : Env → Packet → Event
set_clock e p =
    let (secs, ms) = clock_time e.time_bits (swap_fields e p).receive_timestamp in
    Event.set_time secs ms

on_lookup-address : (s : State) → (on_lookup s).ip_address_found ≡ s.ip_address_found
unfolding on_lookup
on_lookup-address s = ground arith

on_asking-trace :
    (e : Env) (s : State) (ip : ℕ)
    → s.ip_address_found ≡ ip
    → (on_asking e s).trace ≡ Event.sendto (swap_fields e (request (e.time s.trace))) ip ∷ s.trace
unfolding on_asking packet_init
on_asking-trace e s ip h =
    ap (λ a. Event.sendto (swap_fields e (request (e.time s.trace))) a ∷ s.trace) h

lookup_round :
    (e : Env) (s : State)
    → s.status ≡ Status.lookup
    → s.ip_address_found ≡ 0
    → e.recvfrom (on_lookup s).trace ≡ Received.eagain
    → (task_round e s).ip_address_found ≡ 0
unfolding task_round on_status on_received
lookup_round e s a b q =
    let asked : on_status e s.status s ≡ on_lookup s = ap (λ x. on_status e x s) a in
    rw asked (rw q (on_lookup-address s ∙ b))

dns_callback-asks :
    (e : Env) (ip : ℕ) (s : State)
    → s.ip_address_found ≡ 0
    → 0 < ip
    → ((dns_callback e ip s).status ≡ Status.asking) × ((dns_callback e ip s).ip_address_found ≡ ip)
unfolding dns_callback signal_task
dns_callback-asks e ip s b c = ground arith

asking_round :
    (e : Env) (s : State) (n : ℕ) (p : Packet)
    → s.status ≡ Status.asking
    → e.recvfrom (on_asking e s).trace ≡ Received.bytes n p
    → packet_size ≤ n
    → ((task_round e s).status ≡ Status.pause)
      × ((task_round e s).trace ≡ set_clock e p ∷ (Event.recvfrom ∷ (on_asking e s).trace))
unfolding task_round on_status on_received on_answer read_time set_clock on_asking packet_init
asking_round e s n p a b k =
    let z : ltb n packet_size ≡ false = ground arith in rw a (rw b (rw z (refl, refl)))

-- The client after a round that looks up a server, and the answer of the name server.
unfoldable pub found : Env → ℕ → State → State
found e ip s = dns_callback e ip (task_round e s)

-- An exchange succeeds: a client that looks up a server and has no address, whose name server answers
-- with an address that is not 0, and that then receives an answer of full length, has set the clock to
-- the time of the answer and rests, after two rounds of its task; the request before it went to the
-- address that the name server gave.
pub exchange-sets_clock :
    (e : Env) (s : State) (ip n : ℕ) (p : Packet)
    → s.status ≡ Status.lookup
    → s.ip_address_found ≡ 0
    → 0 < ip
    → e.recvfrom (on_lookup s).trace ≡ Received.eagain
    → e.recvfrom (on_asking e (found e ip s)).trace ≡ Received.bytes n p
    → packet_size ≤ n
    → ((run e (Input.round ∷ (Input.dns ip ∷ (Input.round ∷ []))) s).status ≡ Status.pause)
      × ((run e (Input.round ∷ (Input.dns ip ∷ (Input.round ∷ []))) s).trace
          ≡ set_clock e p
            ∷ (Event.recvfrom
                ∷ (Event.sendto (swap_fields e (request (e.time (found e ip s).trace))) ip
                    ∷ (found e ip s).trace)))
unfolding run step found
exchange-sets_clock e s ip n p a b c q r k =
    let t = found e ip s in
    let (x, y) = dns_callback-asks e ip (task_round e s) (lookup_round e s a b q) c in
    let (u, v) = asking_round e t n p x r k in
    (u, v ∙ ap (λ l. set_clock e p ∷ (Event.recvfrom ∷ l)) (on_asking-trace e t ip y))

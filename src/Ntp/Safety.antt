-- ===== src/Ntp/Safety.antt =====
-- What holds along every run of the NTP client.
use free_rtos_demos_cheri_ri.Prelude.{
  ℕ, ◌+◌, ◌-◌, ◌^◌, ◌≤◌, ◌<◌, ◌≡◌, refl, Bool, true, false, ◌==◌, ltb, ◌||◌, List, [], ◌∷◌,
  if◌then◌else◌, arith, Bool-cases, inl, inr,
}
use mathlib.Core.Path.{subst}
use free_rtos_demos_cheri_ri.Ntp.{
  Status, Received, Event, Trace, Env, State, signal_task, wake_task, start_ntp_task, dns_callback,
  packet_init, read_time, num_servers, on_lookup, on_asking, on_status, on_answer, on_received,
  task_round, Input, step, run, packet_size,
}

-- Each name server that was asked for stands in the table, and each request went to an address.
unfoldable pub IsAddressed : Trace → Type 0
IsAddressed [] = Unit {0}
IsAddressed (Event.gethostbyname i ∷ t) = (i < num_servers) × IsAddressed t
IsAddressed (Event.sendto p a ∷ t) = (0 < a) × IsAddressed t
IsAddressed (_ ∷ t) = IsAddressed t

-- With this status an address is known.
abbrev pub knows : Status → ℕ
knows Status.lookup = 0
knows Status.asking = 1
knows Status.pause = 1
knows Status.failed = 0

abbrev pub is_failed : Status → Bool
is_failed Status.failed = true
is_failed _ = false

-- 1 if a request was sent
abbrev pub sent : Trace → ℕ
sent [] = 0
sent (Event.sendto p a ∷ t) = 1
sent (_ ∷ t) = sent t

-- Nothing was received.
abbrev pub is_quiet : Received → Bool
is_quiet Received.eagain = true
is_quiet Received.eintr = true
is_quiet _ = false

-- The status, the address and the index of the server fit, and so do the calls made so far.
abbrev pub IsSound : State → Type 0
IsSound s =
    (is_failed s.status ≡ false)
    × (knows s.status ≤ s.ip_address_found)
    × (s.server_index < num_servers)
    × (sent s.trace ≤ s.ip_address_found)
    × IsAddressed s.trace

sent_le : (t : Trace) → sent t ≤ 1
sent_le [] = omega arith
sent_le (Event.sendto p a ∷ t) = omega arith
sent_le (_ ∷ t) = sent_le t

either : (b : Bool) (s t : State) → IsSound s → IsSound t → IsSound (if b then s else t)
either true s t h k = h
either false s t h k = k

signal_task-IsSound : (s : State) → IsSound s → IsSound (signal_task s)
unfolding signal_task IsAddressed
signal_task-IsSound s h = either s.has_socket record s { trace = Event.signal ∷ s.trace } s h h

wake_task-IsSound : (s : State) (x : Status) → IsSound s → s.status ≡ x → IsSound (wake_task x s)
unfolding wake_task
wake_task-IsSound s Status.lookup h e = h
wake_task-IsSound s Status.asking h e = h
wake_task-IsSound s Status.failed (a, b, c, x, d) e = absurd (ground arith)
wake_task-IsSound s Status.pause (a, b, c, x, d) e =
    let known : 1 ≤ s.ip_address_found = subst (λ z. knows z ≤ s.ip_address_found) e b in
    signal_task-IsSound record s { status = Status.asking } (refl, known, c, x, d)

start-IsSound : (e : Env) (s : State) → IsSound s → IsSound (start_ntp_task e s)
unfolding start_ntp_task IsAddressed
start-IsSound e s (a, b, c, x, d) =
    either s.has_task _ _ (wake_task-IsSound s s.status (a, b, c, x, d) refl) (
      either (e.socket s.trace) _
        record s { has_socket = false; trace = Event.new_socket ∷ s.trace }
        (refl, omega arith, omega arith, x, d) (a, b, c, x, d))

dns_callback-IsSound :
    (e : Env) (ip : ℕ) (s : State) → 0 < e.known_server → IsSound s → IsSound (dns_callback e ip s)
unfolding dns_callback
dns_callback-IsSound e ip s k (a, b, c, x, d) =
    let found = if s.ip_address_found == 0 then ip else s.ip_address_found in
    let known : 1 ≤ (if found == 0 then e.known_server else found) = ground arith in
    signal_task-IsSound
      record s {
        ip_address_found = if found == 0 then e.known_server else found;
        status = Status.asking;
      }
      (refl, known, c, omega (arith, sent_le s.trace), d)

on_lookup-IsSound : (s : State) → IsSound s → s.status ≡ Status.lookup → IsSound (on_lookup s)
unfolding on_lookup IsAddressed
on_lookup-IsSound s (a, b, c, x, d) q =
    let next = if s.server_index + 1 == num_servers then 0 else s.server_index + 1 in
    let n : next < num_servers = ground arith in
    elim (Bool-cases ((s.ip_address_found == 0) || (s.ip_address_found == 2 ^ 64 - 1))) [
      | inl y ↦ rw y (a, b, n, x, (n, d))
      | inr m ↦ rw m (refl, ground arith, c, x, d)
    ]

on_status-IsSound :
    (e : Env) (s : State) (x : Status) → IsSound s → s.status ≡ x → IsSound (on_status e x s)
unfolding on_status on_asking packet_init IsAddressed
on_status-IsSound e s Status.lookup h q = on_lookup-IsSound s h q
on_status-IsSound e s Status.asking (a, b, c, x, d) q =
    let k : 1 ≤ s.ip_address_found = subst (λ z. knows z ≤ s.ip_address_found) q b in
    (a, b, c, k, (k, d))
on_status-IsSound e s Status.pause h q = h
on_status-IsSound e s Status.failed h q = h

on_answer-IsSound :
    (e : Env) (s : State) → 0 < s.ip_address_found → IsSound s → IsSound (on_answer e s)
unfolding on_answer read_time IsAddressed
on_answer-IsSound e s k (a, b, c, x, d) = (refl, omega (arith, k), c, omega (arith, x), d)

-- Round of the loop of the task: what is received comes after a request.
on_received-IsSound :
    (e : Env) (r : Received) (s : State)
    → (sent s.trace ≡ 0 → is_quiet r ≡ true)
    → IsSound s
    → IsSound (on_received e r s)
unfolding on_received
on_received-IsSound e Received.eagain s k h = h
on_received-IsSound e Received.eintr s k h = h
on_received-IsSound e (Received.other_error n) s k (a, b, c, x, d) =
    on_answer-IsSound e s (ground arith) (a, b, c, x, d)
on_received-IsSound e (Received.bytes n p) s k (a, b, c, x, d) =
    let r : State = record s { buffer = p } in
    either (ltb n packet_size) r (on_answer e r) (a, b, c, x, d)
      (on_answer-IsSound e r (ground arith) (a, b, c, x, d))

-- Nothing is received before the first request.
abbrev pub IsAsked : Env → Type 0
IsAsked e = (t : Trace) → sent t ≡ 0 → is_quiet (e.recvfrom t) ≡ true

step-IsSound :
    (e : Env) (i : Input) (s : State)
    → 0 < e.known_server
    → IsAsked e
    → IsSound s
    → IsSound (step e i s)
unfolding step task_round IsAddressed
step-IsSound e Input.start s k q h = start-IsSound e s h
step-IsSound e (Input.dns ip) s k q h = dns_callback-IsSound e ip s k h
step-IsSound e Input.round s k q h =
    let asked = on_status e s.status s in
    on_received-IsSound e (e.recvfrom asked.trace)
      record asked { trace = Event.recvfrom ∷ asked.trace } (q asked.trace)
      (on_status-IsSound e s s.status h refl)

-- Take any sequence of rounds of the task, answers of the name server and calls of vStartNTPTask(), of a
-- client whose status, address and calls so far fit, with a known server that is not 0.0.0.0, and
-- with nothing received before the first request. The client does not come to the status
-- EStatusFailed; every name that it looks up stands in the table of six servers; and no request is
-- sent to the address 0.0.0.0.
pub run-IsSound :
    (e : Env) (inputs : List Input) (s : State)
    → 0 < e.known_server
    → IsAsked e
    → IsSound s
    → IsSound (run e inputs s)
unfolding run
run-IsSound e [] s k q h = h
run-IsSound e (i ∷ inputs) s k q h =
    run-IsSound e inputs (step e i s) k q (step-IsSound e i s k q h)

-- ===== src/Echo/Examples.antt =====
-- A connection served and an echo checked: witnesses of the theorems.
use free_rtos_demos_cheri_ri.Prelude.{
  ◌≤◌, ◌<◌, ◌≡◌, ◌⊎◌, refl, Bool, true, false, some, [], ◌∷◌, Text, length, pos, arith, ◌==◌,
  if◌then◌else◌, Bool-cases, inl, inr,
}
use free_rtos_demos_cheri_ri.Echo.Server as Server
use free_rtos_demos_cheri_ri.Echo.Server.Sending.{sent_bytes, received_bytes, echo_rounds-echoes}
use free_rtos_demos_cheri_ri.Echo.Server.Partial.{on_received-restarts}
use free_rtos_demos_cheri_ri.Echo.Server.Ending.{accepted, IsProgress, send_loop-ends}
use free_rtos_demos_cheri_ri.Echo.Client as Client
use free_rtos_demos_cheri_ri.Echo.Client.Connection.{Last}
use free_rtos_demos_cheri_ri.Echo.Client.Check.{checks, expected, AreFew, checks-since}
use free_rtos_demos_cheri_ri.Echo.Client.Reply.{replied, on_transmitted-nul}

-- A client that sends three bytes again and again, and a network that takes over everything
abbrev network : Server.Env
network = record {
  malloc = λ t. true;
  recv = λ t. Server.Received.bytes (1 ∷ 2 ∷ 3 ∷ []);
  send = λ t d. pos (length d);
  tick_count = λ t. 0;
  tick_bits = 32;
  shutdown_delay = 5000;
  tcp_mss = 4;
}

abbrev connected : Server.State
connected = record { rx_buffer = 0 ∷ 0 ∷ 0 ∷ 0 ∷ []; trace = [] }

fits_buffer :
    (t : Server.Trace) (b : Text)
    → network.recv t ≡ Server.Received.bytes b
    → length b ≤ network.tcp_mss
fits_buffer t b h = ground arith

echo_rounds-echoes_example :
    (o : Bool × Server.State) × (Server.echo_rounds 2 1 network connected ≡ some o)
    × (sent_bytes o.1.trace ≡ received_bytes o.1.trace)
echo_rounds-echoes_example = echo_rounds-echoes 2 0 network connected fits_buffer (λ t d. refl) refl

-- A network that takes over one byte of three
abbrev slow_network : Server.Env
slow_network = record network { send = λ t d. if length d == 3 then pos 1 else pos (length d) }

on_received-restarts_example :
    (s' : Server.State) × (Server.on_received 2 slow_network
        (Server.Received.bytes (1 ∷ 2 ∷ 3 ∷ []))
        connected
      ≡ some (false, s'))
    × (sent_bytes s'.trace ≡ 1 ∷ 1 ∷ 2 ∷ [])
on_received-restarts_example =
    on_received-restarts 0 slow_network (1 ∷ 2 ∷ 3 ∷ []) 1 connected (omega arith) (omega arith)
      (omega arith) refl refl

progress :
    (t : Server.Trace) (d : Text) → 0 < length d → IsProgress (slow_network.send t d) (length d)
progress t d h = elim (Bool-cases (length d == 3)) [
  | inl y ↦ rw y (omega arith, ground arith)
  | inr n ↦ rw n (h, omega arith)
]

send_loop-ends_example :
    (o : Bool × Server.State) × (Server.send_loop 3 slow_network 3 connected ≡ some o)
    × ((o.0 ≡ true) ⊎ (accepted o.1.trace ≡ 3))
send_loop-ends_example =
    send_loop-ends 3 slow_network 3 connected (omega arith) (omega arith) progress

-- An echo whose bytes behind the NUL are not those that were sent
abbrev wrong_echo : Client.Env
wrong_echo = record {
  rand = λ t. 100;
  connect = λ t. true;
  send = λ t d. pos (length d);
  recv = λ t n. Client.Received.bytes (7 ∷ 0 ∷ 99 ∷ []);
  tick_count = λ t. 0;
  tick_bits = 32;
  receive_time_out = 4000;
  buffer_size = 4;
}

abbrev waiting : Client.State
waiting = record {
  tx_buffer = 7 ∷ 0 ∷ 48 ∷ 49 ∷ [];
  rx_buffer = [];
  tx_count = 1;
  tx_rx_cycles = 5;
  tx_rx_failures = 0;
  connections = 1;
  trace = [];
}

on_transmitted-nul_example :
    Client.on_transmitted wrong_echo 3 (pos 3) waiting
    ≡ Client.Outcome.again
        record (replied wrong_echo 3 (7 ∷ 0 ∷ 99 ∷ []) waiting) { tx_rx_cycles = 6 }
on_transmitted-nul_example =
    on_transmitted-nul wrong_echo 3 (7 ∷ []) (99 ∷ []) (48 ∷ 49 ∷ []) waiting refl refl
      (omega arith)

abbrev unchecked : Last
unchecked = record { echo_socket_count = 5; connections = 1 }

checks-since_example :
    ((checks unchecked waiting ((3, 1) ∷ (2, 0) ∷ [])).0 ≡ expected ((3, 1) ∷ (2, 0) ∷ []))
    × ((checks unchecked waiting ((3, 1) ∷ (2, 0) ∷ [])).1.connections ≡ 1)
unfolding AreFew
checks-since_example =
    checks-since unchecked waiting ((3, 1) ∷ (2, 0) ∷ [])
      (omega arith, omega arith, (omega arith, omega arith, tt))
      (refl, refl, omega arith, omega arith)

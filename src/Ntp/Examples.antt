-- ===== src/Ntp/Examples.antt =====
-- A client that finds a server and is answered: witnesses of the theorems on the NTP client.
use free_rtos_demos_cheri_ri.Prelude.{◌≡◌, refl, true, [], ◌∷◌, arith}
use free_rtos_demos_cheri_ri.Ntp.{
  Status, Packet, Received, Event, Trace, Env, State, Input, run, request, swap_fields,
  zero_timestamp, on_asking, on_lookup, packet_init,
}
use free_rtos_demos_cheri_ri.Ntp.Safety.{IsSound, IsAddressed, run-IsSound, IsAsked}
use free_rtos_demos_cheri_ri.Ntp.Time.{set_clock, found, exchange-sets_clock}

-- The answer of a server, half a second after a time of 2020.
abbrev answer : Packet
answer = record {
  flags = 0xDC;
  stratum = 1;
  poll = 10;
  precision = 0xFA;
  root_delay = 0;
  root_dispersion = 0;
  reference_id = 0;
  reference_timestamp = zero_timestamp;
  originate_timestamp = zero_timestamp;
  receive_timestamp = record { seconds = 3800000000; fraction = 2147483648 };
  transmit_timestamp = record { seconds = 3800000000; fraction = 2147483648 };
}

-- What the network gives, by the calls so far: an answer once a request was sent.
abbrev after_request : Trace → Received
after_request (Event.sendto p a ∷ t) = Received.bytes 48 answer
after_request _ = Received.eagain

abbrev after_error : Trace → Received
after_error t = Received.other_error 10

-- A machine whose byte order is that of the network.
abbrev network : (Trace → Received) → Env
network recvfrom = record {
  htonl = λ x. x;
  socket = λ t. true;
  time = λ t. 100;
  recvfrom = recvfrom;
  known_server = 0xB869B607;
  time_bits = 32;
}

abbrev client : Status → State
client status = record {
  status = status;
  ip_address_found = 0;
  has_socket = true;
  has_task = true;
  server_index = 3;
  packet = answer;
  buffer = answer;
  trace = [];
}

asked : IsAsked (network after_request)
asked [] h = refl
asked (Event.sendto p a ∷ t) h = absurd (omega (arith, h))
asked (_ ∷ t) h = refl

run-IsSound_example : IsSound (
    run
      (network after_request)
      (Input.round ∷ (Input.dns 9 ∷ (Input.round ∷ (Input.start ∷ (Input.round ∷ [])))))
      (client Status.lookup))
unfolding IsAddressed
run-IsSound_example =
    run-IsSound (network after_request)
      (Input.round ∷ (Input.dns 9 ∷ (Input.round ∷ (Input.start ∷ (Input.round ∷ [])))))
      (client Status.lookup) (omega arith) asked (refl, omega arith, omega arith, omega arith, tt)

exchange-sets_clock_example :
    ((run
        (network after_request)
        (Input.round ∷ (Input.dns 9 ∷ (Input.round ∷ [])))
        (client Status.lookup)).status
      ≡ Status.pause)
    × ((run
          (network after_request)
          (Input.round ∷ (Input.dns 9 ∷ (Input.round ∷ [])))
          (client Status.lookup)).trace
        ≡ set_clock (network after_request) answer
          ∷ (Event.recvfrom
              ∷ (Event.sendto (swap_fields (network after_request) (request 100)) 9
                  ∷ (found (network after_request) 9 (client Status.lookup)).trace)))
unfolding on_lookup on_asking packet_init
exchange-sets_clock_example =
    exchange-sets_clock (network after_request) (client Status.lookup) 9 48 answer refl refl
      (omega arith) refl refl (omega arith)

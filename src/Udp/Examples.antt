-- ===== src/Udp/Examples.antt =====
-- A turn of the client and of the server: witnesses of the theorems.
use free_rtos_demos_cheri_ri.Prelude.{◌+◌, ◌≡◌, refl, [], ◌∷◌, some, pos, arith}
use free_rtos_demos_cheri_ri.Udp.{Env, Event, Received, Trace, client_round, server_round}
use free_rtos_demos_cheri_ri.Udp.Buffers.{
  IsBalanced, got, handed, released, client_round-IsBalanced, server_round-twice,
}

abbrev stack : Env
stack = record {
  get_buffer = λ t n. 7;
  recvfrom = λ t. Received.datagram 7 3;
  sendto = λ t b n. pos n;
}

client_round-IsBalanced_example :
    (t' : Trace) × (client_round 1 stack [] ≡ some (Event.close_socket ∷ t'))
    × IsBalanced 7 (Event.close_socket ∷ t')
client_round-IsBalanced_example =
    client_round-IsBalanced stack 7 0 [] (λ t. omega arith) (λ t a n. refl) refl

server_round-twice_example :
    handed 7 (server_round stack []) + released 7 (server_round stack [])
    ≡ got 7 (server_round stack []) + 1
server_round-twice_example = server_round-twice stack 7 2 2 [] refl refl refl

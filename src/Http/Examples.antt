-- ===== src/Http/Examples.antt =====
-- Runs of the HTTP service: witnesses of its theorems.
use free_rtos_demos_cheri_ri.Prelude.{
  overlay, ◌≡◌, refl, pos, Text, [], ◌∷◌, ◌++◌, false, none, some, codes, snprintf, has_prefix,
  length, dec, arith,
}
use free_rtos_demos_cheri_ri.Http.Commands.{patch, get, code_name, command_name, all_commands}
use free_rtos_demos_cheri_ri.Http.World.{
  Received, Event, Env, State, c_string, url_bytes, rest_bytes, read_memory,
}
use free_rtos_demos_cheri_ri.Http.PeekPoke.{write_memory, output_size}
use free_rtos_demos_cheri_ri.Http.Numbers.{get_next_number}
use free_rtos_demos_cheri_ri.Http.Work.{
  open_url, client_work, reply_text, content_length, received, trim_end, find_command,
}
use free_rtos_demos_cheri_ri.Http.Memory.{url_text, peek_sent, peek_head, open_url-peek}
use free_rtos_demos_cheri_ri.Http.Reading.{get_next_number-dec}
use free_rtos_demos_cheri_ri.Http.Poke.{method, method_of, open_url-poke, client_work-memory}
use free_rtos_demos_cheri_ri.Http.Buffers.{IsIdle, IsWhole}
use free_rtos_demos_cheri_ri.Http.Buffers.Replies.{client_work-IsIdle}

-- A request for eight bytes, on a board with a 32-bit size_t.
abbrev pub board : Env
board = record {
  recv = λ t. Received.bytes (codes "GET /peek/4096/8 HTTP/1.1" ++ 13 ∷ 10 ∷ []);
  send = λ t text n. pos n;
  pointer_text = λ a. codes "0x" ++ dec a;
  stack_address = λ t. 8192;
  size_bits = 32;
  command_buffer_size = 32;
  file_buffer_size = 512;
  after_commands = λ t. [];
  after_empty = λ t. [];
}

abbrev idle : Text → State
idle commands = record {
  command_buffer = commands;
  contents_type = [];
  extra_contents = [];
  url_data = 4;
  rest_data = some 17;
  current_filename = 0 ∷ 0 ∷ 0 ∷ 0 ∷ [];
  reply_sent = false;
  number_text = none;
  memory = λ a. a;
  trace = [];
}

-- The command buffer of 32 bytes, with what is left of an earlier request.
abbrev used_buffer : Text
used_buffer = codes "GET /hello HTTP/1.1" ++ 0 ∷ 0 ∷ 0 ∷ 0 ∷ 0 ∷ 0 ∷ 0 ∷ 0 ∷ 0 ∷ 0 ∷ 0 ∷ 0 ∷ 0 ∷ []

get_next_number-dec_example :
    (get_next_number (some (dec 4096 ++ (b'/' ∷ dec 8))) ≡ (pos 4096, some (dec 8)))
    × (get_next_number (some (dec 8)) ≡ (pos 8, some []))
get_next_number-dec_example =
    get_next_number-dec 4096 8 (omega arith) (omega arith) (omega arith) (omega arith)

-- The request lines as the work function leaves them: a NUL ends the URL.
abbrev peek_buffer : Text
peek_buffer = codes "GET /peek/4096/8" ++ 0 ∷ codes "HTTP/1.1" ++ 0 ∷ []

abbrev poke_buffer : Text
poke_buffer = codes "UTT /poke/4096/3" ++ 0 ∷ codes "abc" ++ 0 ∷ []

open_url-peek_example :
    ((open_url board get (idle peek_buffer)).1.trace
      ≡ Event.send (4096 ∷ 4097 ∷ 4098 ∷ 4099 ∷ []) 4
        ∷ (Event.send (peek_sent board 4) (length (peek_head 4)) ∷ []))
    × ((open_url board get (idle peek_buffer)).1.memory ≡ (λ a. a))
unfolding url_text codes c_string url_bytes output_size dec read_memory peek_head reply_text
    code_name content_length snprintf
open_url-peek_example =
    open_url-peek board (idle peek_buffer) 4096 8 refl (omega arith) (omega arith) (omega arith)
      (omega arith) (omega arith) (omega arith) refl

open_url-poke_example :
    (open_url board patch (idle poke_buffer)).1.memory
    ≡ write_memory (λ a. a) 4096 (codes "abc" ++ 0 ∷ []) 3
unfolding url_text codes c_string url_bytes rest_bytes dec
open_url-poke_example =
    open_url-poke board (idle poke_buffer) 4096 3 refl (omega arith) (omega arith) (omega arith)
      (omega arith) (omega arith)

-- A request of the method GET after an earlier one.
method_of-board : method_of board (idle used_buffer) (board.recv []) ≡ get
unfolding method_of method received overlay trim_end find_command all_commands command_name
    has_prefix codes
method_of-board = refl

client_work-memory_example : (client_work board (idle used_buffer)).1.memory ≡ (λ a. a)
client_work-memory_example =
    let e = method_of-board in client_work-memory board (idle used_buffer) (ground arith)

client_work-IsIdle_example : IsIdle 32 4 (client_work board (idle used_buffer)).1
unfolding IsIdle IsWhole codes
client_work-IsIdle_example =
    client_work-IsIdle board (idle used_buffer) 32 4 (omega arith) (refl, refl, refl, refl, tt)

-- ===== src/Ftp/Examples.antt =====
-- The theorems of the FTP server applied to a session with concrete libraries.
use free_rtos_demos_cheri_ri.Prelude.{
  ◌%◌, ◌*◌, ◌^◌, ℕ, ◌+◌, pos, negsuc, ◌≡◌, refl, true, false, Text, codes, List, [], ◌∷◌, ◌++◌,
  Option, none, some, ◌==◌, ltb, if◌then◌else◌, get_elem?, length, arith, ◌<◌, has_prefix_nocase,
}
use free_rtos_demos_cheri_ri.Ftp.Commands.{crlf}
use free_rtos_demos_cheri_ri.Ftp.Transfer.{store_file_work}
use free_rtos_demos_cheri_ri.Ftp.Counted.{bytes_to_file, store_file_work-recv_bytes}
use free_rtos_demos_cheri_ri.Ftp.World.{◌>>◌}
use free_rtos_demos_cheri_ri.Ftp.World.{
  Socket, wb, SocketResult, Event, Trace, Env, Client, State, Received, failed, bytes, DirEntry,
  Stat, enoent,
}
use free_rtos_demos_cheri_ri.Ftp.Handles.{opened, closed, held}
use free_rtos_demos_cheri_ri.Ftp.Handles.Balance.{client_delete-closes_all}
use free_rtos_demos_cheri_ri.Ftp.Login.{IsGuest, client_work-IsGuest}
use free_rtos_demos_cheri_ri.Ftp.Retrieve.{goes_on, retrieve_loop-leaves}
use free_rtos_demos_cheri_ri.Ftp.Confined.{make_absolute-under_root}
use free_rtos_demos_cheri_ri.Ftp.Path.{make_absolute}
use free_rtos_demos_cheri_ri.Ftp.Files.Retrieving.{retrieve_loop}
use free_rtos_demos_cheri_ri.Ftp.Parse.{parse_port_data}
use free_rtos_demos_cheri_ri.Ftp.Numbers.{port_text, parse_port_data-port_text}
use free_rtos_demos_cheri_ri.Ftp.Transfer.Connection.{client_delete}
use free_rtos_demos_cheri_ri.Ftp.Work.{client_work}

-- How often the control socket 1 has been read.
abbrev reads : Trace → ℕ
reads [] = 0
reads (Event.recv (some k) ∷ t) = (if k == 1 then 1 else 0) + reads t
reads (_ ∷ t) = reads t

-- What the client sends, one line at a time.
unfoldable said : List Text
unfolding codes crlf
said =
    (codes "USER anonymous" ++ crlf)
    ∷ (codes "PASS guest" ++ crlf)
    ∷ (codes "PASV" ++ crlf)
    ∷ (codes "STOR a.txt" ++ crlf)
    ∷ (codes "PORT 10,0,0,2,4,19" ++ crlf)
    ∷ (codes "RETR b.txt" ++ crlf)
    ∷ (codes "RNFR b.txt" ++ crlf)
    ∷ (codes "RNTO c.txt" ++ crlf)
    ∷ (codes "DELE c.txt" ++ crlf)
    ∷ []

abbrev next_line : Option Text → Received
next_line none = failed 127
next_line (some t) = bytes t

abbrev an_entry : DirEntry
an_entry = record {
  is_dir = false;
  read_only = false;
  month = 5;
  day = 17;
  hour = 12;
  minute = 30;
  file_size = 42;
  file_name = codes "a.txt";
}

abbrev a_stat : Stat
a_stat = record {
  rc = pos 0;
  size = 42;
  year = 2021;
  month = 5;
  day = 17;
  hour = 12;
  minute = 30;
  second = 1;
}

-- The listening socket 9 has one client, on the control socket 1.
abbrev accept_call : Trace → Socket → SocketResult
accept_call t none = SocketResult.no_socket
accept_call t (some k) =
    if k == 9
    then (if ltb (length t) 3 then SocketResult.socket 1 else SocketResult.no_socket)
    else SocketResult.socket 2

-- Libraries that grant what is asked for: the control socket is 1, the data socket 2, every file 7.
unfoldable pub lab : Env
unfolding said
lab = record {
  new_socket = λ t. SocketResult.socket 2;
  accept = accept_call;
  listen = λ t s. pos 0;
  connect = λ t s. pos 0;
  rx_size = λ t s. pos 0;
  is_connected = λ t s. pos 1;
  tx_space = λ t s. 4096;
  local_ip = λ t s. 167772161;
  local_port = λ t s. 1024;
  remote_ip = λ t s. 167772162;
  remote_port = λ t s. 1043;
  send = λ t s b n. pos n;
  shutdown = λ t s. pos 0;
  select = λ t. pos 1;
  recv = λ t s. next_line (get_elem? said (reads t));
  rx_burst = λ t s. record { chunks = (97 ∷ 98 ∷ []) ∷ []; last = pos 0 };
  fopen = λ t p m. some 7;
  open_size = λ t h. 3;
  fseek = λ t h n. pos 0;
  fread = λ t h n. 97 ∷ 98 ∷ 99 ∷ [];
  fwrite = λ t h b. pos (length b);
  remove = λ t p. pos 0;
  mkdir = λ t p. pos 0;
  rmdir = λ t p. pos 0;
  rename = λ t a b. pos 0;
  finddir = λ t p. true;
  fs_count = λ t. 1;
  findfirst = λ t p. pos 0;
  findnext = λ t. negsuc 0;
  found = λ t. an_entry;
  disk_total = λ t. 0;
  disk_free = λ t. 0;
  stat = λ t p. a_stat;
  errno = λ t. enoent;
  strerror = λ w. [];
  tick_count = λ t. length t;
  malloc = λ t. true;
}

-- A client that has just been accepted.
abbrev accepted : Client
accepted = record {
  root_dir = b'/' ∷ [];
  socket = some 1;
  restart_offset = 0;
  recv_bytes = 0;
  bytes_left = 0;
  client_ip = 0;
  start_time = 0;
  client_port = 0;
  transfer_socket = none;
  trans_type = 0;
  dir_count = 0;
  find_data = none;
  read_handle = none;
  write_handle = none;
  current_dir = [];
  file_name = [];
  connection_ack = [];
  client_ack = [];
  command_buffer = [];
  rest_command = 0;
  hello_sent = false;
  logged_in = false;
  status_user = false;
  in_rename = false;
  read_only = false;
  is_listen = false;
  dir_has_entry = false;
  client_connected = false;
  empty_file = false;
  had_error = false;
}

abbrev start : State
start = record { client = accepted; trace = [] }

-- The client holds the file 7 that it writes.
abbrev writing : State
writing = record {
  client = record accepted { write_handle = some 7; transfer_socket = some 2; logged_in = true };
  trace = Event.fopen (codes "/a.txt") wb (some 7) ∷ [];
}

client_delete-closes_all_example :
    (opened 7 (client_delete lab writing).1.trace
      ≡ closed 7 (client_delete lab writing).1.trace + 0)
    × (held 7 (client_delete lab writing).1.client ≡ 0)
client_delete-closes_all_example = client_delete-closes_all 7 0 lab writing refl

-- A client that has logged in
abbrev known_client : Client
known_client = record accepted { hello_sent = true; logged_in = true; current_dir = b'/' ∷ [] }

client_work-IsGuest_example : IsGuest 0 (client_work lab start).1
client_work-IsGuest_example = client_work-IsGuest 0 lab start (refl, refl, refl)

abbrev user_given : State
user_given = record start { client = record accepted { status_user = true } }

abbrev reading : State
reading = record start {
  client = record known_client { read_handle = some 7; bytes_left = 3; transfer_socket = some 2 };
}

retrieve_loop-leaves_example : goes_on (retrieve_loop 4 (pos 0) lab reading).0 ≡ false
retrieve_loop-leaves_example = retrieve_loop-leaves lab 4 (pos 0) reading (omega arith)

make_absolute-under_root_example :
    (has_prefix_nocase (b'/' ∷ []) (make_absolute known_client 255 (codes "a.txt")) ≡ true)
    × (length (make_absolute known_client 255 (codes "a.txt")) < 255)
make_absolute-under_root_example =
    make_absolute-under_root known_client 255 (codes "a.txt") (omega arith)

parse_port_data-port_text_example :
    parse_port_data (port_text 10 0 0 2 4 19)
    ≡ record { port = 4 * 2 ^ 8 + 19; ip = 10 * 2 ^ 24 + 0 * 2 ^ 16 + 0 * 2 ^ 8 + 2 }
parse_port_data-port_text_example =
    parse_port_data-port_text 10 0 0 2 4 19 (omega arith) (omega arith) (omega arith) (omega arith)
      (omega arith) (omega arith)

store_file_work-recv_bytes_example :
    ((store_file_work lab writing).1.client.recv_bytes + 0) % 2 ^ 32
    ≡ (0 + bytes_to_file (store_file_work lab writing).1.trace) % 2 ^ 32
store_file_work-recv_bytes_example = store_file_work-recv_bytes lab writing

-- RETR of a file while the acknowledgement "150 Accepted" is pending
abbrev retrieving : Client
retrieving = record accepted {
  connection_ack = codes "150 Accepted";
  command_buffer = codes "RETR a.txt";
  rest_command = 5;
}

-- ===== src/Ntp.antt =====
-- protocols/NTP/NTPDemo.c: the task that asks a time server and sets the clock, without callbacks
-- (ipconfigUSE_CALLBACKS is 0). FreeRTOS+TCP and the clock of FreeRTOS+FAT are the parameter `Env`.
-- What is only printed, the difference to the old time included, is left out.
pub mod Safety
pub mod Time
pub mod Examples
use free_rtos_demos_cheri_ri.Prelude.{
  ℕ, zero, suc, ◌+◌, ◌-◌, ◌*◌, ◌/◌, ◌%◌, ◌^◌, ℤ, pos, negsuc, Bool, true, false, not, ◌&&◌, ◌||◌,
  List, [], ◌∷◌, ◌==◌, ltb, if◌then◌else◌, Option, none, some,
}

-- enum EStatus
pub data Status : Type 0 where
  lookup asking pause failed : Status

-- struct _SNtpTimestamp
pub record Timestamp : Type 0 where
  pub seconds : ℕ
  pub fraction : ℕ

-- struct SNtpPacket; the fields of four bytes as words of 32 bits
pub record Packet : Type 0 where
  pub flags : ℕ
  pub stratum : ℕ
  pub poll : ℕ
  pub precision : ℕ
  pub root_delay : ℕ
  pub root_dispersion : ℕ
  pub reference_id : ℕ
  pub reference_timestamp : Timestamp
  pub originate_timestamp : Timestamp
  pub receive_timestamp : Timestamp
  pub transmit_timestamp : Timestamp

-- sizeof( struct SNtpPacket )
abbrev pub packet_size : ℕ
packet_size = 48

-- What FreeRTOS_recvfrom() returns: a number of bytes, with what the buffer holds then, or an error.
pub data Received : Type 0 where
  bytes : ℕ → Packet → Received
  eagain eintr : Received
  other_error : ℕ → Received

pub data Event : Type 0 where
  new_socket bind set_timeout create_task signal : Event
  gethostbyname : ℕ → Event  -- with the index of the server
  sendto : Packet → ℕ → Event  -- with the address
  recvfrom : Event
  set_time : ℕ → ℕ → Event  -- FreeRTOS_set_secs_msec()

abbrev pub Trace : Type 0
Trace = List Event

pub record Env : Type 0 where
  pub htonl : ℕ → ℕ
  pub socket : Trace → Bool  -- whether FreeRTOS_socket() gives a socket
  pub time : Trace → ℕ  -- FreeRTOS_time()
  pub recvfrom : Trace → Received
  pub known_server : ℕ  -- FreeRTOS_inet_addr_quick( 184, 105, 182, 7 )
  pub time_bits : ℕ  -- the width of unsigned long

pub record State : Type 0 where
  pub status : Status
  pub ip_address_found : ℕ
  pub has_socket : Bool  -- xUDPSocket != NULL
  pub has_task : Bool  -- xNTPTaskhandle != NULL
  pub server_index : ℕ
  pub packet : Packet  -- xNTPPacket
  pub buffer : Packet  -- the start of cRecvBuffer
  pub trace : Trace

-- vSignalTask(), without the semaphore that only the callbacks create
unfoldable pub signal_task : State → State
signal_task s = if s.has_socket then record s { trace = Event.signal ∷ s.trace } else s

-- The case of vStartNTPTask() for a task that runs.
unfoldable pub wake_task : Status → State → State
wake_task Status.pause s = signal_task record s { status = Status.asking }
wake_task Status.lookup s = s
wake_task Status.asking s = s
wake_task Status.failed s = signal_task record s { ip_address_found = 0; status = Status.lookup }

-- vStartNTPTask(); the new task begins with the status of the lookup, and with server 3.
unfoldable pub start_ntp_task : Env → State → State
start_ntp_task e s =
    if s.has_task
    then wake_task s.status s
    else if e.socket s.trace
    then record s {
      has_socket = true;
      has_task = true;
      status = Status.lookup;
      server_index = 3;
      trace = Event.create_task ∷ (Event.set_timeout ∷ (Event.bind ∷ (Event.new_socket ∷ s.trace)));
    }
    else record s { has_socket = false; trace = Event.new_socket ∷ s.trace }

-- vDNS_callback()
unfoldable pub dns_callback : Env → ℕ → State → State
dns_callback e ip_address s =
    let found = if s.ip_address_found == 0 then ip_address else s.ip_address_found in
    signal_task record s {
      ip_address_found = if found == 0 then e.known_server else found;
      status = Status.asking;
    }

unfoldable pub swap_timestamp : Env → Timestamp → Timestamp
swap_timestamp e t = record { seconds = e.htonl t.seconds; fraction = e.htonl t.fraction }

-- prvSwapFields()
unfoldable pub swap_fields : Env → Packet → Packet
unfolding swap_timestamp
swap_fields e p = record p {
  root_delay = e.htonl p.root_delay;
  root_dispersion = e.htonl p.root_dispersion;
  reference_timestamp = swap_timestamp e p.reference_timestamp;
  originate_timestamp = swap_timestamp e p.originate_timestamp;
  receive_timestamp = swap_timestamp e p.receive_timestamp;
  transmit_timestamp = swap_timestamp e p.transmit_timestamp;
}

abbrev pub zero_timestamp : Timestamp
zero_timestamp = record { seconds = 0; fraction = 0 }

-- The packet of prvNTPPacketInit() before its fields are swapped
unfoldable pub request : ℕ → Packet
request secs = record {
  flags = 0xDB;
  stratum = 0;
  poll = 10;
  precision = 0xFA;
  root_delay = 0x5D2E;
  root_dispersion = 0x0008CAC8;
  reference_id = 0;
  reference_timestamp = record { seconds = secs % 2 ^ 32; fraction = 0 };
  originate_timestamp = zero_timestamp;
  receive_timestamp = zero_timestamp;
  transmit_timestamp = record { seconds = (secs + 3) % 2 ^ 32; fraction = 0 };
}

-- prvNTPPacketInit()
unfoldable pub packet_init : Env → State → State
packet_init e s = record s { packet = swap_fields e (request (e.time s.trace)) }

-- TIME1970
abbrev pub time1970 : ℕ
time1970 = 2208988800

-- The seconds and milliseconds that prvReadTime() computes of a time stamp
unfoldable pub clock_time : ℕ → Timestamp → ℕ × ℕ
clock_time time_bits t =
    let secs = (t.seconds + 2 ^ time_bits - time1970) % 2 ^ time_bits in
    let ms = t.fraction / 4294967 in ((secs + ms / 1000) % 2 ^ time_bits, ms % 1000)

-- prvReadTime()
unfoldable pub read_time : Env → State → State
read_time e s =
    let p = swap_fields e s.buffer in
    let (secs, ms) = clock_time e.time_bits p.receive_timestamp in
    record s { buffer = p; trace = Event.set_time secs ms ∷ s.trace }

-- The number of entries of pcTimeServers
abbrev pub num_servers : ℕ
num_servers = 6

-- The case EStatusLookup of the loop; ~0ul has 64 bits
unfoldable pub on_lookup : State → State
on_lookup s =
    let next = if s.server_index + 1 == num_servers then 0 else s.server_index + 1 in
    if (s.ip_address_found == 0) || (s.ip_address_found == 2 ^ 64 - 1)
    then record s { server_index = next; trace = Event.gethostbyname next ∷ s.trace }
    else record s { status = Status.asking }

-- The case EStatusAsking
unfoldable pub on_asking : Env → State → State
on_asking e s =
    let r = packet_init e s in
    record r { trace = Event.sendto r.packet r.ip_address_found ∷ r.trace }

unfoldable pub on_status : Env → Status → State → State
on_status e Status.lookup s = on_lookup s
on_status e Status.asking s = on_asking e s
on_status e Status.pause s = s
on_status e Status.failed s = s

-- An answer of full length sets the clock.
unfoldable pub on_answer : Env → State → State
on_answer e s = record (read_time e s) { status = Status.pause }

-- The switch on xReturned; `other_error` is a negative number, which is compared as a size_t.
unfoldable pub on_received : Env → Received → State → State
on_received e Received.eagain s = s
on_received e Received.eintr s = s
on_received e (Received.other_error n) s = on_answer e s
on_received e (Received.bytes n p) s =
    let r : State = record s { buffer = p } in if ltb n packet_size then r else on_answer e r

-- One round of the loop of prvNTPTask()
unfoldable pub task_round : Env → State → State
task_round e s =
    let asked = on_status e s.status s in
    on_received e (e.recvfrom asked.trace) record asked { trace = Event.recvfrom ∷ asked.trace }

-- What may happen: a round of the task, an answer of the name server, a call of vStartNTPTask().
pub data Input : Type 0 where
  round start : Input
  dns : ℕ → Input

unfoldable pub step : Env → Input → State → State
step e Input.round s = task_round e s
step e Input.start s = start_ntp_task e s
step e (Input.dns ip) s = dns_callback e ip s

unfoldable pub run : Env → List Input → State → State
run e [] s = s
run e (i ∷ l) s = run e l (step e i s)

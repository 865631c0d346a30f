-- ===== src/Server/Create.antt =====
-- FreeRTOS_CreateTCPServer(), strnew(), FreeRTOS_TCPServerSignal() and its form for interrupts in
-- protocols/Common/FreeRTOS_TCP_server.c, with ipconfigHTTP_RX_BUFSIZE at 0. FreeRTOS+TCP and the
-- heap are the parameter `Setup`; where the code follows a NULL pointer the result is `crashed`.
pub mod Served
use free_rtos_demos_cheri_ri.Prelude.{
  ℕ, ◌+◌, ◌<◌, ◌≤◌, ◌≡◌, refl, Bool, true, false, ◌||◌, ◌&&◌, Text, List, [], ◌∷◌, ◌==◌, ltb,
  if◌then◌else◌, Option, none, some, is_some, length, arith, ltb→lt,
}
use free_rtos_demos_cheri_ri.Server.{ServerType, Listener, remove_slash}

-- struct xSERVER_CONFIG
pub record Config : Type 0 where
  pub server_type : ServerType
  pub port_number : ℕ  -- 0 if the service is not wanted
  pub back_log : ℕ
  pub root_dir : Text

pub data Event : Type 0 where
  create_socket_set delete_socket_set : Event
  new_socket : Event
  bind listen : ℕ → ℕ → Event  -- with the port, and with the backlog
  set_timeouts fd_set signal : ℕ → Event

abbrev pub Trace : Type 0
Trace = List Event

pub record Setup : Type 0 where
  pub has_socket_set : Bool
  pub has_server : Bool  -- pvPortMallocLarge()
  pub socket : Trace → Option ℕ  -- FreeRTOS_socket(); `none` is FREERTOS_NO_SOCKET, and
  -- FREERTOS_INVALID_SOCKET counts as a socket, as in the code
  pub has_string : Trace → Bool  -- pvPortMalloc() in strnew()

pub data Result (A : Type 0) : Type 0 where
  crashed : Result A
  no_server : Trace → Result A
  done : A → Trace → Result A

-- The entry after memset()
abbrev pub empty_service : Listener
empty_service = record { server_type = ServerType.server_none; root_dir = []; socket = none }

-- What is done with a socket; strnew() may return NULL, which prvRemoveSlash() does not expect.
unfoldable pub open_service : Setup → Config → ℕ → Trace → Result Listener
open_service e c k t =
    let opened =
      Event.fd_set k
      ∷ (Event.set_timeouts k ∷ (Event.listen k c.back_log ∷ (Event.bind k c.port_number ∷ t))) in
    if e.has_string opened
    then Result.done
        record { server_type = c.server_type; root_dir = remove_slash c.root_dir; socket = some k }
        opened
    else Result.crashed

unfoldable pub with_socket : Setup → Config → Option ℕ → Trace → Result Listener
with_socket e c none t = Result.done empty_service t
with_socket e c (some k) t = open_service e c k t

unfoldable pub create_service : Setup → Config → Trace → Result Listener
create_service e c t =
    if ltb 0 c.port_number
    then with_socket e c (e.socket t) (Event.new_socket ∷ t)
    else Result.done empty_service t

unfoldable pub add_to : Listener → Result (List Listener) → Result (List Listener)
add_to s Result.crashed = Result.crashed
add_to s (Result.no_server t) = Result.no_server t
add_to s (Result.done l t) = Result.done (s ∷ l) t

unfoldable pub then_rest :
    Result Listener → (Trace → Result (List Listener)) → Result (List Listener)
then_rest Result.crashed rest = Result.crashed
then_rest (Result.no_server t) rest = Result.no_server t
then_rest (Result.done s t) rest = add_to s (rest t)

-- The loop over the configurations
unfoldable pub create_services : Setup → List Config → Trace → Result (List Listener)
create_services e [] t = Result.done [] t
create_services e (c ∷ cs) t = then_rest (create_service e c t) (λ u. create_services e cs u)

-- FreeRTOS_CreateTCPServer(); `no_server` is NULL.
unfoldable pub create_server : Setup → List Config → Trace → Result (List Listener)
create_server e configs t =
    let u = Event.create_socket_set ∷ t in
    let made = create_services e configs u in
    let unmade = Result.no_server (Event.delete_socket_set ∷ u) in
    if e.has_socket_set then if e.has_server then made else unmade else Result.no_server u

signal_first : Option ℕ → Bool × Trace → Trace → Bool × Trace
signal_first none rest t = rest
signal_first (some k) rest t = (true, Event.signal k ∷ t)

-- FreeRTOS_TCPServerSignal(): the first socket is signalled.
unfoldable pub signal_server : List Listener → Trace → Bool × Trace
unfolding signal_first
signal_server [] t = (false, t)
signal_server (s ∷ l) t = signal_first s.socket (signal_server l t) t

-- ===== src/Server.antt =====
-- protocols/Common/FreeRTOS_TCP_server.c: a server of FTP and HTTP clients. The work and delete
-- functions of a client are those of the FTP server and of the HTTP server.
pub mod Cycle
pub mod Leaving
pub mod Handles
pub mod Slash
pub mod Create
pub mod Examples
use free_rtos_demos_cheri_ri.Prelude.{
  zeros, ℕ, zero, suc, ◌+◌, ℤ, is_neg, is_zero, Bool, true, false, not, Text, List, [], ◌∷◌, ◌++◌,
  ◌==◌, if◌then◌else◌, Option, none, some,
}
use free_rtos_demos_cheri_ri.Ftp.World.{
  Socket, SocketResult, no_socket, invalid_socket, select_read_except, Event, Trace, Env, Client,
  State,
}
use free_rtos_demos_cheri_ri.Ftp.Transfer.Connection.{client_delete}
use free_rtos_demos_cheri_ri.Ftp.Work.{client_work}
use free_rtos_demos_cheri_ri.Http.World as Http
use free_rtos_demos_cheri_ri.Http.Work as HttpWork

-- enum eSERVER_TYPE
pub data ServerType : Type 0 where
  server_none server_http server_ftp : ServerType

-- One of pxServer->xServers[]: its type, the listening socket and the root directory.
pub record Listener : Type 0 where
  pub server_type : ServerType
  pub socket : Socket
  pub root_dir : Text

-- The fields of an HTTP client, besides its socket
pub record HttpClient : Type 0 where
  pub url_data : ℕ
  pub rest_data : Option ℕ
  pub current_filename : Text
  pub reply_sent : Bool

-- TCPClient_t: the type of a client says which its work and delete functions are.
pub data TcpClient : Type 0 where
  ftp : Client → TcpClient
  http : ℕ → HttpClient → TcpClient  -- the socket, and the other fields

-- The buffers of the server that HTTP clients use, the static variable of peekpoke.c and the memory
pub record Shared : Type 0 where
  pub command_buffer : Text
  pub contents_type : Text
  pub extra_contents : Text
  pub number_text : Option Text
  pub memory : ℕ → ℕ

-- The calls made so far, and what the clients share
pub record World : Type 0 where
  pub shared : Shared
  pub trace : Trace

-- TCPServer_t; the clients in the order of the list pxClients
pub record Server : Type 0 where
  pub listeners : List Listener
  pub clients : List TcpClient
  pub world : World

-- The libraries: for a call of the FTP server, for a call of the HTTP server with its socket, and
-- what a call of the FTP server leaves in the command buffer, which the clients share.
pub record ServerEnv : Type 0 where
  pub ftp : Env
  pub http : Trace → ℕ → Http.Env
  pub ftp_leaves : Trace → Text
  pub max_filename : ℕ  -- ffconfigMAX_FILENAME

-- A client after memset(), with the fields that prvReceiveNewClient() sets.
unfoldable pub fresh_client : Text → ℕ → Client
fresh_client root_dir k = record {
  root_dir = root_dir;
  socket = some k;
  restart_offset = 0;
  recv_bytes = 0;
  bytes_left = 0;
  client_ip = 0;
  start_time = 0;
  client_port = 0;
  transfer_socket = none;
  trans_type = 0;
  dir_count = 0;
  find_data = none;
  read_handle = none;
  write_handle = none;
  current_dir = [];
  file_name = [];
  connection_ack = [];
  client_ack = [];
  command_buffer = [];
  rest_command = 0;
  hello_sent = false;
  logged_in = false;
  status_user = false;
  in_rename = false;
  read_only = false;
  is_listen = false;
  dir_has_entry = false;
  client_connected = false;
  empty_file = false;
  had_error = false;
}

-- An HTTP client after memset(); its pointers are set before they are used.
unfoldable pub fresh_http_client : ℕ → HttpClient
fresh_http_client size = record {
  url_data = 0;
  rest_data = none;
  current_filename = zeros size;
  reply_sent = false;
}

-- The new client by the type of the service; `none` for a type that has no work function
unfoldable pub client_of : ServerType → ServerEnv → Text → ℕ → Option TcpClient
unfolding fresh_client fresh_http_client
client_of ServerType.server_none e root_dir k = none
client_of ServerType.server_http e root_dir k =
    some (TcpClient.http k (fresh_http_client e.max_filename))
client_of ServerType.server_ftp e root_dir k = some (TcpClient.ftp (fresh_client root_dir k))

-- prvRemoveSlash()
unfoldable pub remove_onto : ℕ → Text → Text
remove_onto c [] = if c == b'/' then [] else c ∷ []
remove_onto c (d ∷ s) = c ∷ d ∷ s

unfoldable pub remove_slash : Text → Text
remove_slash [] = []
remove_slash (c ∷ s) = remove_onto c (remove_slash s)

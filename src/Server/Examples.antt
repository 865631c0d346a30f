-- ===== src/Server/Examples.antt =====
-- The theorems of the TCP server applied to a session of one client.
use free_rtos_demos_cheri_ri.Prelude.{pos, ◌≡◌, true, refl, [], ◌∷◌, none, some, List}
use free_rtos_demos_cheri_ri.Ftp.Examples.{lab}
use free_rtos_demos_cheri_ri.Http.Examples.{board}
use free_rtos_demos_cheri_ri.Server.{Server, Listener, ServerEnv, ServerType, World}
use free_rtos_demos_cheri_ri.Server.Cycle.{server_cycles}
use free_rtos_demos_cheri_ri.Http.World.{Received}
use free_rtos_demos_cheri_ri.Server.{TcpClient, fresh_http_client}
use free_rtos_demos_cheri_ri.Server.Cycle.{server_work}
use free_rtos_demos_cheri_ri.Server.Leaving.{closes, clears, server_cycles-http_open}
use free_rtos_demos_cheri_ri.Server.Handles.{IsShared, server_cycles-IsShared}
use free_rtos_demos_cheri_ri.Server.Create.{Config, Setup, Trace, Result, create_server}
use free_rtos_demos_cheri_ri.Server.Create.Served.{AreServed, create_server-IsMade}

-- The calls of a session of an FTP client, and requests of HTTP clients
abbrev servers : ServerEnv
servers = record { ftp = lab; http = λ t k. board; ftp_leaves = λ t. []; max_filename = 255 }

abbrev unused : World
unused = record {
  shared = record {
    command_buffer = [];
    contents_type = [];
    extra_contents = [];
    number_text = none;
    memory = λ a. 0;
  };
  trace = [];
}

abbrev listening : Server
listening = record {
  listeners =
      record { server_type = ServerType.server_http; socket = some 8; root_dir = [] }
      ∷ (record { server_type = ServerType.server_ftp; socket = some 9; root_dir = b'/' ∷ [] }
          ∷ []);
  clients = [];
  world = unused;
}

server_cycles-IsShared_example :
    IsShared 7 0
      ((server_cycles 12 servers listening).clients, (server_cycles 12 servers listening).world)
server_cycles-IsShared_example = server_cycles-IsShared 7 12 servers listening refl

-- An HTTP server with one client, whose connection was reset
abbrev reset_servers : ServerEnv
reset_servers = record servers {
  http = λ t k. record board { recv = λ h. Received.failed 103 };
  ftp = record lab { select = λ t. pos 0 };
}

abbrev visited : Server
visited = record listening {
  listeners = record { server_type = ServerType.server_http; socket = some 8; root_dir = [] } ∷ [];
  clients = TcpClient.http 4 (fresh_http_client 2) ∷ [];
}

server_cycles-http_open_example :
    ((server_work reset_servers visited).clients ≡ [])
    × (closes 4 (server_cycles 10 reset_servers visited).world.trace ≡ 0)
    × (clears 4 (server_cycles 10 reset_servers visited).world.trace ≡ 0)
unfolding lab
server_cycles-http_open_example =
    server_cycles-http_open 9 4 4 103 reset_servers (fresh_http_client 2) visited (λ t. refl)
      (refl, tt) refl refl refl

-- A network that gives its first socket to the service on port 21.
abbrev setup : Setup
setup = record {
  has_socket_set = true;
  has_server = true;
  socket = λ t. some 3;
  has_string = λ t. true;
}

abbrev configs : List Config
configs =
    record {
      server_type = ServerType.server_ftp;
      port_number = 21;
      back_log = 12;
      root_dir = b'/' ∷ [];
    }
    ∷ (record {
      server_type = ServerType.server_http;
      port_number = 0;
      back_log = 12;
      root_dir = [];
    }
        ∷ [])

create_server-IsMade_example :
    (l : List Listener) × (u : Trace) × (create_server setup configs [] ≡ Result.done l u)
    × AreServed configs l u
create_server-IsMade_example =
    create_server-IsMade setup configs [] refl refl (λ t. refl) (λ t. (3, refl))

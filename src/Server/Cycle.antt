-- ===== src/Server/Cycle.antt =====
-- FreeRTOS_TCPServerWork() of protocols/Common/FreeRTOS_TCP_server.c: a working cycle, in which clients
-- are accepted, served and deleted.
use free_rtos_demos_cheri_ri.Prelude.{
  ℕ, zero, suc, ℤ, is_neg, is_zero, List, [], ◌∷◌, ◌++◌, if◌then◌else◌, Option, none, some,
}
use free_rtos_demos_cheri_ri.Ftp.World.{
  Socket, SocketResult, no_socket, invalid_socket, select_read_except, Event, Trace,
}
use free_rtos_demos_cheri_ri.Ftp.Transfer.Connection.{client_delete}
use free_rtos_demos_cheri_ri.Ftp.Work.{client_work}
use free_rtos_demos_cheri_ri.Http.World as Http
use free_rtos_demos_cheri_ri.Http.Work as HttpWork
use free_rtos_demos_cheri_ri.Server.{
  Listener, HttpClient, TcpClient, Shared, World, Server, ServerEnv, client_of,
}

unfoldable pub call_event : Event → World → World
call_event ev w = record w { trace = ev ∷ w.trace }

-- prvReceiveNewClient(): in front of the list, or the socket is closed if there is no memory.
unfoldable pub add_client :
    ServerEnv → Option TcpClient → ℕ → List TcpClient → World → List TcpClient × World
unfolding call_event
add_client e none k clients w = (clients, call_event (Event.close_socket (some k)) w)
add_client e (some c) k clients w =
    if e.ftp.malloc w.trace
    then (c ∷ clients, call_event (Event.fd_set (some k) select_read_except) w)
    else (clients, call_event (Event.close_socket (some k)) w)

unfoldable pub receive_new_client :
    ServerEnv → Listener → ℕ → List TcpClient → World → List TcpClient × World
unfolding add_client client_of
receive_new_client e l k clients w =
    add_client e (client_of l.server_type e l.root_dir k) k clients w

unfoldable pub on_accepted :
    ServerEnv → Listener → SocketResult → List TcpClient → World → List TcpClient × World
unfolding receive_new_client
on_accepted e l (SocketResult.socket k) clients w = receive_new_client e l k clients w
on_accepted e l no_socket clients w = (clients, w)
on_accepted e l invalid_socket clients w = (clients, w)

unfoldable pub accept_one :
    ServerEnv → Listener → Socket → List TcpClient → World → List TcpClient × World
unfolding on_accepted call_event
accept_one e l none clients w = (clients, w)
accept_one e l (some k) clients w =
    on_accepted e l (e.ftp.accept w.trace (some k)) clients (call_event (Event.accept (some k)) w)

-- The loop over the listening sockets; an entry without a socket is skipped.
unfoldable pub accept_clients :
    ServerEnv → List Listener → List TcpClient → World → List TcpClient × World
unfolding accept_one
accept_clients e [] clients w = (clients, w)
accept_clients e (l ∷ ls) clients w =
    let r = accept_one e l l.socket clients w in accept_clients e ls r.0 r.1

-- The calls of the HTTP server on a socket, behind those made before
unfoldable pub http_event : ℕ → Http.Event → Event
http_event k Http.Event.recv = Event.recv (some k)
http_event k (Http.Event.send b n) = Event.send (some k) b n

unfoldable pub add_calls : ℕ → Http.Trace → Trace → Trace
unfolding http_event
add_calls k [] t = t
add_calls k (ev ∷ more) t = http_event k ev ∷ add_calls k more t

-- What an HTTP client sees of the server, and what is left of it after the call
unfoldable pub http_state : HttpClient → Shared → Http.State
http_state c w = record {
  command_buffer = w.command_buffer;
  contents_type = w.contents_type;
  extra_contents = w.extra_contents;
  url_data = c.url_data;
  rest_data = c.rest_data;
  current_filename = c.current_filename;
  reply_sent = c.reply_sent;
  number_text = w.number_text;
  memory = w.memory;
  trace = [];
}

unfoldable pub http_client : Http.State → HttpClient
http_client s = record {
  url_data = s.url_data;
  rest_data = s.rest_data;
  current_filename = s.current_filename;
  reply_sent = s.reply_sent;
}

unfoldable pub http_shared : Http.State → Shared
http_shared s = record {
  command_buffer = s.command_buffer;
  contents_type = s.contents_type;
  extra_contents = s.extra_contents;
  number_text = s.number_text;
  memory = s.memory;
}

-- The work function of a client: its result, the client and the world after it
unfoldable pub work : ServerEnv → TcpClient → World → ℤ × TcpClient × World
unfolding http_state http_client http_shared add_calls
work e (TcpClient.ftp c) w =
    let r = client_work e.ftp record { client = c; trace = w.trace } in
    (
      r.0,
      TcpClient.ftp r.1.client,
      record {
        shared = record w.shared { command_buffer = e.ftp_leaves r.1.trace };
        trace = r.1.trace;
      },
    )
work e (TcpClient.http k c) w =
    let r = HttpWork.client_work (e.http w.trace k) (http_state c w.shared) in
    (
      r.0,
      TcpClient.http k (http_client r.1),
      record { shared = http_shared r.1; trace = add_calls k r.1.trace w.trace },
    )

-- The delete function of a client, if it has one: HTTP clients have none.
unfoldable pub delete : ServerEnv → TcpClient → World → World
delete e (TcpClient.ftp c) w = record w {
  trace = (client_delete e.ftp record { client = c; trace = w.trace }).1.trace;
}
delete e (TcpClient.http k c) w = w

-- What becomes of a client after a call of its work function: with a negative result it is taken off
-- the list and deleted.
unfoldable pub after_work : ServerEnv → ℤ × TcpClient × World → List TcpClient × World
unfolding delete
after_work e r = if is_neg r.0 then ([], delete e r.1 r.2) else (r.1 ∷ [], r.2)

-- The loop over the clients.
unfoldable pub serve_clients : ServerEnv → List TcpClient → World → List TcpClient × World
unfolding after_work work
serve_clients e [] w = ([], w)
serve_clients e (c ∷ cs) w =
    let r = after_work e (work e c w) in
    let rest = serve_clients e cs r.1 in (r.0 ++ rest.0, rest.1)

-- FreeRTOS_TCPServerWork(): one working cycle
unfoldable pub server_work : ServerEnv → Server → Server
unfolding serve_clients accept_clients call_event
server_work e s =
    let w = call_event Event.select s.world in
    let accepted = accept_clients e s.listeners s.clients w in
    let now = if is_zero (e.ftp.select s.world.trace) then (s.clients, w) else accepted in
    let served = serve_clients e now.0 now.1 in record s { clients = served.0; world = served.1 }

-- The task calls it in an endless loop.
unfoldable pub server_cycles : ℕ → ServerEnv → Server → Server
unfolding server_work
server_cycles zero e s = s
server_cycles (suc n) e s = server_cycles n e (server_work e s)

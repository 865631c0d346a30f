-- ===== src/Server/Leaving.antt =====
-- What becomes of the sockets of a server that has HTTP clients only, in
-- protocols/Common/FreeRTOS_TCP_server.c.
use free_rtos_demos_cheri_ri.Prelude.{
  ℕ, zero, suc, ◌+◌, ◌≡◌, refl, ◌∙◌, is_neg, is_zero, true, List, [], ◌∷◌, ◌++◌, none, some, ◌==◌,
  if◌then◌else◌, Bool-cases, inl, inr,
}
use free_rtos_demos_cheri_ri.Ftp.World.{
  Socket, SocketResult, no_socket, invalid_socket, Event, Trace,
}
use free_rtos_demos_cheri_ri.Http.World as Http
use free_rtos_demos_cheri_ri.Http.Work as HttpWork
use free_rtos_demos_cheri_ri.Server.{
  Listener, ServerType, HttpClient, TcpClient, World, Server, ServerEnv, client_of,
}
use free_rtos_demos_cheri_ri.Server.Cycle.{
  call_event, add_client, receive_new_client, on_accepted, accept_one, accept_clients, add_calls,
  http_event, http_state, work, delete, after_work, serve_clients, server_work, server_cycles,
}

-- How often a socket was closed, and how often it was taken out of the socket set
abbrev pub closes : ℕ → Trace → ℕ
closes k [] = 0
closes k (Event.close_socket (some j) ∷ t) = (if j == k then 1 else 0) + closes k t
closes k (_ ∷ t) = closes k t

abbrev pub clears : ℕ → Trace → ℕ
clears k [] = 0
clears k (Event.fd_clr (some j) mask ∷ t) = (if j == k then 1 else 0) + clears k t
clears k (_ ∷ t) = clears k t

abbrev pub AllHttpClients : List TcpClient → Type 0
AllHttpClients [] = Unit {0}
AllHttpClients (TcpClient.http k c ∷ cs) = AllHttpClients cs
AllHttpClients (TcpClient.ftp c ∷ cs) = ⊥

abbrev pub AllHttp : List Listener → Type 0
AllHttp [] = Unit {0}
AllHttp (l ∷ ls) = (l.server_type ≡ ServerType.server_http) × AllHttp ls

-- The clients are HTTP clients, and a socket was closed and taken out `a` and `b` times.
abbrev IsLeft : ℕ → ℕ → ℕ → List TcpClient × World → Type 0
IsLeft j a b (cs, w) = AllHttpClients cs × (closes j w.trace ≡ a) × (clears j w.trace ≡ b)

module _ (e : ServerEnv) (j a b : ℕ) (memory : (t : Trace) → e.ftp.malloc t ≡ true) where
  on_accepted-IsLeft :
      (l : Listener) (r : SocketResult) (cs : List TcpClient) (w : World)
      → l.server_type ≡ ServerType.server_http
      → IsLeft j a b (cs, w)
      → IsLeft j a b (on_accepted e l r cs w)
  unfolding on_accepted receive_new_client add_client client_of call_event
  on_accepted-IsLeft l (SocketResult.socket k) cs w http p = rw (http, memory w.trace) p
  on_accepted-IsLeft l no_socket cs w http p = p
  on_accepted-IsLeft l invalid_socket cs w http p = p

  accept_one-IsLeft :
      (l : Listener) (k : Socket) (cs : List TcpClient) (w : World)
      → l.server_type ≡ ServerType.server_http
      → IsLeft j a b (cs, w)
      → IsLeft j a b (accept_one e l k cs w)
  unfolding accept_one call_event
  accept_one-IsLeft l none cs w http p = p
  accept_one-IsLeft l (some k) cs w http p =
      on_accepted-IsLeft l (e.ftp.accept w.trace (some k)) cs (call_event (Event.accept (some k)) w)
        http p

  accept_clients-IsLeft :
      (ls : List Listener) (cs : List TcpClient) (w : World)
      → AllHttp ls
      → IsLeft j a b (cs, w)
      → IsLeft j a b (accept_clients e ls cs w)
  unfolding accept_clients
  accept_clients-IsLeft [] cs w http p = p
  accept_clients-IsLeft (l ∷ ls) cs w http p =
      accept_clients-IsLeft ls (accept_one e l l.socket cs w).0 (accept_one e l l.socket cs w).1
        http.1 (accept_one-IsLeft l l.socket cs w http.0 p)

  -- The calls of an HTTP client close no socket.
  add_calls-closes :
      (k : ℕ) (ht : Http.Trace) (t : Trace)
      → (closes j (add_calls k ht t) ≡ closes j t) × (clears j (add_calls k ht t) ≡ clears j t)
  unfolding add_calls http_event
  add_calls-closes k [] t = (refl, refl)
  add_calls-closes k (Http.Event.recv ∷ more) t = add_calls-closes k more t
  add_calls-closes k (Http.Event.send x n ∷ more) t = add_calls-closes k more t

  work-IsLeft :
      (c : TcpClient) (w : World)
      → IsLeft j a b (c ∷ [], w)
      → IsLeft j a b (after_work e (work e c w))
  unfolding work after_work delete
  work-IsLeft (TcpClient.ftp c) w p = absurd p.0
  work-IsLeft (TcpClient.http k c) w (all, x, y) =
      let r = HttpWork.client_work (e.http w.trace k) (http_state c w.shared) in
      let (u, v) = add_calls-closes k r.1.trace w.trace in
      elim (Bool-cases (is_neg r.0)) [
        | inl m ↦ rw m (tt, u ∙ x, v ∙ y)
        | inr m ↦ rw m (tt, u ∙ x, v ∙ y)
      ]

  append-AllHttpClients :
      (cs ds : List TcpClient) → AllHttpClients cs → AllHttpClients ds → AllHttpClients (cs ++ ds)
  append-AllHttpClients [] ds p q = q
  append-AllHttpClients (TcpClient.http k c ∷ cs) ds p q = append-AllHttpClients cs ds p q
  append-AllHttpClients (TcpClient.ftp c ∷ cs) ds p q = p

  first-AllHttp :
      (c : TcpClient) (cs : List TcpClient)
      → AllHttpClients (c ∷ cs)
      → AllHttpClients (c ∷ []) × AllHttpClients cs
  first-AllHttp (TcpClient.http k c) cs p = (tt, p)
  first-AllHttp (TcpClient.ftp c) cs p = absurd p

  serve_clients-IsLeft :
      (cs : List TcpClient) (w : World) → IsLeft j a b (cs, w) → IsLeft j a b (serve_clients e cs w)
  unfolding serve_clients
  serve_clients-IsLeft [] w p = p
  serve_clients-IsLeft (c ∷ cs) w (all, x, y) =
      let (one, others) = first-AllHttp c cs all in
      let r = after_work e (work e c w) in
      let (kept, x1, y1) = work-IsLeft c w (one, x, y) in
      let (rest, x2, y2) = serve_clients-IsLeft cs r.1 (others, x1, y1) in
      (append-AllHttpClients r.0 (serve_clients e cs r.1).0 kept rest, x2, y2)

  server_work-IsLeft :
      (s : Server)
      → AllHttp s.listeners
      → IsLeft j a b (s.clients, s.world)
      → IsLeft j a b ((server_work e s).clients, (server_work e s).world)
  unfolding server_work call_event
  server_work-IsLeft s http p = elim (Bool-cases (is_zero (e.ftp.select s.world.trace))) [
    | inl y ↦ rw y (serve_clients-IsLeft s.clients (call_event Event.select s.world) p)
    | inr n ↦ rw n (
        serve_clients-IsLeft _ _
          (accept_clients-IsLeft s.listeners s.clients (call_event Event.select s.world) http p))
  ]

server_cycles-IsLeft :
    (n : ℕ) (e : ServerEnv) (j a b : ℕ) (s : Server)
    → ((t : Trace) → e.ftp.malloc t ≡ true)
    → AllHttp s.listeners
    → IsLeft j a b (s.clients, s.world)
    → IsLeft j a b ((server_cycles n e s).clients, (server_cycles n e s).world)
unfolding server_cycles server_work
server_cycles-IsLeft zero e j a b s memory http p = p
server_cycles-IsLeft (suc n) e j a b s memory http p =
    server_cycles-IsLeft n e j a b (server_work e s) memory http
      (server_work-IsLeft e j a b memory s http p)

serve_clients-drops :
    (e : ServerEnv) (k m : ℕ) (c : HttpClient) (w : World)
    → (e.http w.trace k).recv [] ≡ Http.Received.failed m
    → (serve_clients e (TcpClient.http k c ∷ []) w).0 ≡ []
unfolding serve_clients after_work work http_state HttpWork.client_work HttpWork.on_received
serve_clients-drops e k m c w fails = rw fails refl

-- Take a server with HTTP services only, while the allocations succeed. When FreeRTOS_recv() fails for
-- its only client, and no other client is there to be accepted, the working cycle takes the client off
-- the list. Neither in that cycle nor in any number of later ones, whatever clients come and go, is
-- its socket, or any other, closed or taken out of the socket set.
pub server_cycles-http_open :
    (n j k m : ℕ) (e : ServerEnv) (c : HttpClient) (s : Server)
    → ((t : Trace) → e.ftp.malloc t ≡ true)
    → AllHttp s.listeners
    → s.clients ≡ TcpClient.http k c ∷ []
    → is_zero (e.ftp.select s.world.trace) ≡ true
    → (e.http (Event.select ∷ s.world.trace) k).recv [] ≡ Http.Received.failed m
    → ((server_work e s).clients ≡ [])
      × (closes j (server_cycles (suc n) e s).world.trace ≡ closes j s.world.trace)
      × (clears j (server_cycles (suc n) e s).world.trace ≡ clears j s.world.trace)
unfolding server_work call_event
server_cycles-http_open n j k m e c s memory http only quiet fails =
    let all : AllHttpClients s.clients = rw only tt in
    let (left, x, y) =
      server_cycles-IsLeft (suc n) e j (closes j s.world.trace) (clears j s.world.trace) s memory
        http (all, refl, refl) in
    (rw (quiet, only) (serve_clients-drops e k m c (call_event Event.select s.world) fails), x, y)

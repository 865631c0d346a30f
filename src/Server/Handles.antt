-- ===== src/Server/Handles.antt =====
-- The file handles of all clients of a server together.
use free_rtos_demos_cheri_ri.Prelude.{
  ℕ, zero, suc, ◌+◌, ◌≡◌, refl, ℤ, is_neg, is_zero, Bool-cases, Option, inl, inr, Text, List, [],
  ◌∷◌, ◌++◌, none, some, arith,
}
use free_rtos_demos_cheri_ri.Ftp.World.{
  Socket, SocketResult, no_socket, invalid_socket, Event, Trace,
}
use free_rtos_demos_cheri_ri.Ftp.Handles.{opened, closed, held}
use free_rtos_demos_cheri_ri.Ftp.Handles.Balance.{client_work-IsBalanced, client_delete-closes_all}
use free_rtos_demos_cheri_ri.Http.World as Http
use free_rtos_demos_cheri_ri.Http.Work as HttpWork
use free_rtos_demos_cheri_ri.Server.{
  ServerType, Listener, TcpClient, World, Server, ServerEnv, fresh_client, client_of,
}
use free_rtos_demos_cheri_ri.Server.Cycle.{
  call_event, add_client, receive_new_client, on_accepted, accept_one, accept_clients, add_calls,
  http_event, http_state, work, delete, after_work, serve_clients, server_work, server_cycles,
}

-- How many handle fields of the clients hold h; an HTTP client has none.
abbrev pub client_held : ℕ → TcpClient → ℕ
client_held h (TcpClient.ftp c) = held h c
client_held h (TcpClient.http k c) = 0

abbrev pub all_held : ℕ → List TcpClient → ℕ
all_held h [] = 0
all_held h (c ∷ cs) = client_held h c + all_held h cs

-- Every open of h is matched by a close or a client that holds h, or one of `others`.
abbrev pub IsShared : ℕ → ℕ → List TcpClient × World → Type 0
IsShared h others s = opened h s.1.trace ≡ closed h s.1.trace + all_held h s.0 + others

module _ (h : ℕ) (e : ServerEnv) where
  -- A new client holds no file.
  client_of-held :
      (y : ServerType) (root : Text) (k : ℕ) (c : TcpClient)
      → client_of y e root k ≡ some c
      → client_held h c ≡ 0
  unfolding client_of fresh_client
  client_of-held ServerType.server_none root k c n = cc
  client_of-held ServerType.server_http root k c n = ground arith
  client_of-held ServerType.server_ftp root k c n = ground arith

  add_client-IsShared :
      (c : Option TcpClient) (k : ℕ) (cs : List TcpClient) (w : World)
      → ((d : TcpClient) → c ≡ some d → client_held h d ≡ 0)
      → IsShared h 0 (cs, w)
      → IsShared h 0 (add_client e c k cs w)
  unfolding add_client call_event
  add_client-IsShared none k cs w n p = p
  add_client-IsShared (some c) k cs w n p = elim (Bool-cases (e.ftp.malloc w.trace)) [
    | inl y ↦ rw y (omega (arith, p, n c refl))
    | inr x ↦ rw x p
  ]

  on_accepted-IsShared :
      (l : Listener) (r : SocketResult) (cs : List TcpClient) (w : World)
      → IsShared h 0 (cs, w)
      → IsShared h 0 (on_accepted e l r cs w)
  unfolding on_accepted receive_new_client
  on_accepted-IsShared l (SocketResult.socket k) cs w p =
      add_client-IsShared _ k cs w (client_of-held l.server_type l.root_dir k) p
  on_accepted-IsShared l no_socket cs w p = p
  on_accepted-IsShared l invalid_socket cs w p = p

  accept_one-IsShared :
      (l : Listener) (k : Socket) (cs : List TcpClient) (w : World)
      → IsShared h 0 (cs, w)
      → IsShared h 0 (accept_one e l k cs w)
  unfolding accept_one call_event
  accept_one-IsShared l none cs w p = p
  accept_one-IsShared l (some k) cs w p =
      on_accepted-IsShared l (e.ftp.accept w.trace (some k)) cs
        (call_event (Event.accept (some k)) w) p

  accept_clients-IsShared :
      (ls : List Listener) (cs : List TcpClient) (w : World)
      → IsShared h 0 (cs, w)
      → IsShared h 0 (accept_clients e ls cs w)
  unfolding accept_clients
  accept_clients-IsShared [] cs w p = p
  accept_clients-IsShared (l ∷ ls) cs w p =
      accept_clients-IsShared ls (accept_one e l l.socket cs w).0 (accept_one e l l.socket cs w).1
        (accept_one-IsShared l l.socket cs w p)

  all_held-append : (a b : List TcpClient) → all_held h (a ++ b) ≡ all_held h a + all_held h b
  all_held-append [] b = omega arith
  all_held-append (c ∷ a) b = omega (arith, all_held-append a b)

  -- The calls of an HTTP client are none on files.
  opened-add_calls :
      (k : ℕ) (ht : Http.Trace) (t : Trace) → opened h (add_calls k ht t) ≡ opened h t
  unfolding add_calls http_event
  opened-add_calls k [] t = refl
  opened-add_calls k (Http.Event.recv ∷ more) t = opened-add_calls k more t
  opened-add_calls k (Http.Event.send b n ∷ more) t = opened-add_calls k more t

  closed-add_calls :
      (k : ℕ) (ht : Http.Trace) (t : Trace) → closed h (add_calls k ht t) ≡ closed h t
  unfolding add_calls http_event
  closed-add_calls k [] t = refl
  closed-add_calls k (Http.Event.recv ∷ more) t = closed-add_calls k more t
  closed-add_calls k (Http.Event.send b n ∷ more) t = closed-add_calls k more t

  work-IsShared :
      (others : ℕ) (c : TcpClient) (w : World)
      → IsShared h others (c ∷ [], w)
      → IsShared h others ((work e c w).1 ∷ [], (work e c w).2)
  unfolding work
  work-IsShared others (TcpClient.ftp c) w p =
      let b =
        client_work-IsBalanced h others e.ftp record { client = c; trace = w.trace }
          (omega (arith, p)) in
      omega (arith, b)
  work-IsShared others (TcpClient.http k c) w p =
      let r = HttpWork.client_work (e.http w.trace k) (http_state c w.shared) in
      omega (arith, p, opened-add_calls k r.1.trace w.trace, closed-add_calls k r.1.trace w.trace)

  delete-IsShared :
      (others : ℕ) (c : TcpClient) (w : World)
      → IsShared h others (c ∷ [], w)
      → IsShared h others ([], delete e c w)
  unfolding delete
  delete-IsShared others (TcpClient.ftp c) w p =
      let d =
        client_delete-closes_all h others e.ftp record { client = c; trace = w.trace }
          (omega (arith, p)) in
      omega (arith, d.0)
  delete-IsShared others (TcpClient.http k c) w p = omega (arith, p)

  after_work-IsShared :
      (others : ℕ) (r : ℤ × TcpClient × World)
      → IsShared h others (r.1 ∷ [], r.2)
      → IsShared h others (after_work e r)
  unfolding after_work
  after_work-IsShared others r p = elim (Bool-cases (is_neg r.0)) [
    | inl y ↦ rw y (delete-IsShared others r.1 r.2 p)
    | inr n ↦ rw n p
  ]

  serve_clients-IsShared :
      (others : ℕ) (cs : List TcpClient) (w : World)
      → IsShared h others (cs, w)
      → IsShared h others (serve_clients e cs w)
  unfolding serve_clients
  serve_clients-IsShared others [] w p = p
  serve_clients-IsShared others (c ∷ cs) w p =
      let b = work-IsShared (all_held h cs + others) c w (omega (arith, p)) in
      let a = after_work-IsShared (all_held h cs + others) (work e c w) b in
      let r = after_work e (work e c w) in
      let k = serve_clients-IsShared (all_held h r.0 + others) cs r.1 (omega (arith, a)) in
      omega (arith, k, all_held-append r.0 (serve_clients e cs r.1).0)

  server_work-IsShared :
      (s : Server)
      → IsShared h 0 (s.clients, s.world)
      → IsShared h 0 ((server_work e s).clients, (server_work e s).world)
  unfolding server_work call_event
  server_work-IsShared s p =
      let w = call_event Event.select s.world in
      elim (Bool-cases (is_zero (e.ftp.select s.world.trace))) [
        | inl y ↦ rw y (serve_clients-IsShared 0 s.clients w p)
        | inr n ↦
            let a = accept_clients-IsShared s.listeners s.clients w p in
            let r = accept_clients e s.listeners s.clients w in
            rw n (serve_clients-IsShared 0 r.0 r.1 a)
      ]

-- For every file handle h, at every time of the life of a server of FTP and HTTP clients: the number of
-- times that ff_fopen() returned h is the number of times that h was passed to ff_fclose(), plus the
-- number of handle fields of the present clients that hold h. If this is so at the start, it is so
-- after any number of cycles of FreeRTOS_TCPServerWork(), in which clients are accepted, served and
-- deleted, whatever they send and whatever the libraries answer.
pub server_cycles-IsShared :
    (h n : ℕ) (e : ServerEnv) (s : Server)
    → IsShared h 0 (s.clients, s.world)
    → IsShared h 0 ((server_cycles n e s).clients, (server_cycles n e s).world)
unfolding server_cycles
server_cycles-IsShared h zero e s p = p
server_cycles-IsShared h (suc n) e s p =
    server_cycles-IsShared h n e (server_work e s) (server_work-IsShared h e s p)

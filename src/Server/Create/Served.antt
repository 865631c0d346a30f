-- ===== src/Server/Create/Served.antt =====
-- What FreeRTOS_CreateTCPServer() makes: each service serves its configuration.
use free_rtos_demos_cheri_ri.Prelude.{
  ℕ, ◌<◌, ◌≡◌, refl, ◌∙◌, Bool, true, false, ◌||◌, ◌&&◌, List, [], ◌∷◌, ◌==◌, ltb, if◌then◌else◌,
  Option, none, some, arith, Bool-cases, inl, inr, ltb→lt,
}
use free_rtos_demos_cheri_ri.Server.{Listener, remove_slash}
use free_rtos_demos_cheri_ri.Server.Slash.{IsStripped, remove_slash-IsStripped}
use free_rtos_demos_cheri_ri.Server.Create.{
  Config, Event, Trace, Setup, Result, empty_service, open_service, with_socket, create_service,
  add_to, then_rest, create_services, create_server,
}

-- Whether a socket was bound to a port, listens with a backlog, and is in the socket set
abbrev pub binds : ℕ → ℕ → Trace → Bool
binds k port [] = false
binds k port (Event.bind j p ∷ t) = ((k == j) && (port == p)) || binds k port t
binds k port (_ ∷ t) = binds k port t

abbrev pub listens : ℕ → ℕ → Trace → Bool
listens k back_log [] = false
listens k back_log (Event.listen j b ∷ t) = ((k == j) && (back_log == b)) || listens k back_log t
listens k back_log (_ ∷ t) = listens k back_log t

abbrev pub selects : ℕ → Trace → Bool
selects k [] = false
selects k (Event.fd_set j ∷ t) = (k == j) || selects k t
selects k (_ ∷ t) = selects k t

abbrev pub serves : ℕ → Config → Trace → Bool
serves k c t = binds k c.port_number t && listens k c.back_log t && selects k t

-- A configuration without a port has no socket; another one is served on the socket.
abbrev pub IsServed : Config → Listener → Trace → Option ℕ → Type 0
IsServed c s t none = c.port_number ≡ 0
IsServed c s t (some k) =
    (0 < c.port_number)
    × (s.server_type ≡ c.server_type)
    × IsStripped c.root_dir s.root_dir
    × (serves k c t ≡ true)

abbrev pub AreServed : List Config → List Listener → Trace → Type 0
AreServed [] [] t = Unit {0}
AreServed (c ∷ cs) (s ∷ ss) t = IsServed c s t s.socket × AreServed cs ss t
AreServed _ _ t = ⊥

-- What is served in `t` is served in `u`.
abbrev Extends : Trace → Trace → Type 0
Extends t u = (k : ℕ) (c : Config) → serves k c t ≡ true → serves k c u ≡ true

IsServed-later :
    (c : Config) (s : Listener) (t u : Trace) (o : Option ℕ)
    → Extends t u
    → IsServed c s t o
    → IsServed c s u o
IsServed-later c s t u none x h = h
IsServed-later c s t u (some k) x (port, kind, root, on) = (port, kind, root, x k c on)

module _ (e : Setup) (strings : (t : Trace) → e.has_string t ≡ true)
    (sockets : (t : Trace) → (k : ℕ) × (e.socket t ≡ some k)) where
  open_service-IsServed :
      (c : Config) (k : ℕ) (t : Trace)
      → 0 < c.port_number
      → (s : Listener) × (u : Trace) × (open_service e c k t ≡ Result.done s u)
        × IsServed c s u s.socket
        × Extends t u
  unfolding open_service
  open_service-IsServed c k t port =
      let u : Trace =
        Event.fd_set k
        ∷ (Event.set_timeouts k ∷ (Event.listen k c.back_log ∷ (Event.bind k c.port_number ∷ t))) in
      (
        record { server_type = c.server_type; root_dir = remove_slash c.root_dir; socket = some k },
        u,
        rw (strings u) refl,
        (port, refl, remove_slash-IsStripped c.root_dir, ground arith),
        λ j d on. ground arith,
      )

  create_service-IsServed :
      (c : Config) (t : Trace)
      → (s : Listener) × (u : Trace) × (create_service e c t ≡ Result.done s u)
        × IsServed c s u s.socket
        × Extends t u
  unfolding create_service with_socket
  create_service-IsServed c t = elim (Bool-cases (ltb 0 c.port_number)) [
    | inl y ↦
        let (k, given) = sockets t in
        let (s, u, opens, served, more) =
          open_service-IsServed c k (Event.new_socket ∷ t) (ltb→lt 0 c.port_number y) in
        (s, u, rw y (rw given opens), served, λ j d on. more j d on)
    | inr n ↦ (empty_service, t, rw n refl, ground arith, λ j d on. on)
  ]

  create_services-AreServed :
      (cs : List Config) (t : Trace)
      → (l : List Listener) × (u : Trace) × (create_services e cs t ≡ Result.done l u)
        × AreServed cs l u
        × Extends t u
  unfolding create_services then_rest add_to
  create_services-AreServed [] t = ([], t, refl, tt, λ j d on. on)
  create_services-AreServed (c ∷ cs) t =
      let (s, u, makes, served, more) = create_service-IsServed c t in
      let (l, v, rest, all, more') = create_services-AreServed cs u in
      (
        s ∷ l,
        v,
        rw makes (rw rest refl),
        (IsServed-later c s u v s.socket more' served, all),
        λ j d on. more' j d (more j d on),
      )

if_true : (b : Bool) (p q : Result (List Listener)) → b ≡ true → (if b then p else q) ≡ p
if_true b p q h = rw h refl

-- If FreeRTOS_socket() always gives a socket and the allocations succeed, FreeRTOS_CreateTCPServer()
-- makes a server with one service for each configuration, in order: for a port of 0 one without a
-- socket, and otherwise one of the type of the configuration, with its root directory without the
-- slashes at its end, and a socket that was bound to the port, listens with the backlog and is in the
-- socket set.
pub create_server-IsMade :
    (e : Setup) (configs : List Config) (t : Trace)
    → e.has_socket_set ≡ true
    → e.has_server ≡ true
    → ((t : Trace) → e.has_string t ≡ true)
    → ((t : Trace) → (k : ℕ) × (e.socket t ≡ some k))
    → (l : List Listener) × (u : Trace) × (create_server e configs t ≡ Result.done l u)
      × AreServed configs l u
unfolding create_server
create_server-IsMade e configs t set server strings sockets =
    let (l, u, makes, served, more) =
      create_services-AreServed e strings sockets configs (Event.create_socket_set ∷ t) in
    let trace = Event.create_socket_set ∷ t in
    let made = create_services e configs trace in
    let unmade : Result (List Listener) = Result.no_server (Event.delete_socket_set ∷ trace) in
    (
      l,
      u,
      if_true e.has_socket_set (if e.has_server then made else unmade) (Result.no_server trace) set
          ∙ if_true e.has_server made unmade server
          ∙ makes,
      served,
    )

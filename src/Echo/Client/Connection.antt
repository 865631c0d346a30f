-- ===== src/Echo/Client/Connection.antt =====
-- The loop of prvEchoClientTask() over its connections, and the check that it still runs, in
-- demo/TCPEchoClient_SingleTasks.c.
use free_rtos_demos_cheri_ri.Prelude.{
  ℕ, zero, suc, ◌+◌, ◌-◌, ◌%◌, ◌^◌, Bool, true, false, not, ◌&&◌, ◌∷◌, Option, none, some, ◌==◌,
  ltb, if◌then◌else◌,
}
use free_rtos_demos_cheri_ri.Echo.Client.{
  Env, State, Event, Received, Outcome, echo_request, store_at,
}

unfoldable pub go_on : (State → Option Outcome) → Option Outcome → Option Outcome
go_on next none = none
go_on next (some Outcome.asserted) = some Outcome.asserted
go_on next (some (Outcome.broke s)) = some (Outcome.broke s)
go_on next (some (Outcome.again s)) = next s

-- At most `n` echo requests; the outcome is never `again`.
unfoldable pub requests : ℕ → ℕ → Env → State → Option Outcome
unfolding go_on echo_request
requests zero fuel e s = some (Outcome.broke s)
requests (suc n) fuel e s = go_on (requests n fuel e) (echo_request fuel e s)

-- lMaxLoopCount
abbrev pub max_loop_count : ℕ
max_loop_count = 10

unfoldable pub drain : Received → State → Bool × State
unfolding store_at
drain (Received.failed n) s = (true, s)
drain (Received.bytes b) s = (false, store_at 0 b s)

-- The loop that waits for an error of FreeRTOS_recv() after the shutdown
unfoldable pub shutdown_loop : ℕ → Env → ℕ → State → Option State
unfolding drain
shutdown_loop zero e since s = none
shutdown_loop (suc fuel) e since s =
    let r = e.recv s.trace e.buffer_size in
    let s' = record s { trace = Event.recv e.buffer_size ∷ s.trace } in
    let (is_error, t) = drain r s' in
    let waited = (e.tick_count t.trace + 2 ^ e.tick_bits - since) % 2 ^ e.tick_bits in
    let again = shutdown_loop fuel e since t in
    if is_error then some t else if ltb waited e.receive_time_out then again else some t

unfoldable pub closed : Option State → Option Outcome
closed none = none
closed (some s) = some (Outcome.again record s { trace = Event.close ∷ s.trace })

unfoldable pub shut_down : ℕ → Env → State → Option Outcome
unfolding closed shutdown_loop
shut_down fuel e s =
    let s' = record s { trace = Event.shutdown ∷ s.trace } in
    closed (shutdown_loop fuel e (e.tick_count s'.trace) s')

-- The end of a connection after its requests
unfoldable pub after_requests : ℕ → Env → Option Outcome → Option Outcome
unfolding shut_down
after_requests fuel e none = none
after_requests fuel e (some Outcome.asserted) = some Outcome.asserted
after_requests fuel e (some (Outcome.broke s)) = shut_down fuel e s
after_requests fuel e (some (Outcome.again s)) = shut_down fuel e s

-- One turn of the loop of the task; the assertion that a socket was created is left out.
unfoldable pub client_round : ℕ → Env → State → Option Outcome
unfolding requests after_requests closed
client_round fuel e s =
    let ok = e.connect s.trace in
    let s' = record s { trace = Event.connect ok ∷ s.trace } in
    let c = record s' { connections = (s'.connections + 1) % 2 ^ 32 } in
    if ok then after_requests fuel e (requests max_loop_count fuel e c) else closed (some s')

-- The static variables of xAreSingleTaskTCPEchoClientsStillRunning()
pub record Last : Type 0 where
  pub echo_socket_count : ℕ
  pub connections : ℕ

-- The check, with what it does to its variables and to ulConnections
unfoldable pub still_running : Last → State → Bool × Last × State
still_running l s =
    let no_cycle = s.tx_rx_cycles == l.echo_socket_count in
    let no_connection = s.connections == l.connections in
    (
      not no_cycle && not no_connection,
      (if no_cycle then l else record l { echo_socket_count = s.tx_rx_cycles }),
      (if no_connection then s else record s { connections = l.connections }),
    )

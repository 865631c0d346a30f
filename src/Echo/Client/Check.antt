-- ===== src/Echo/Client/Check.antt =====
-- What xAreSingleTaskTCPEchoClientsStillRunning() of demo/TCPEchoClient_SingleTasks.c tells.
use free_rtos_demos_cheri_ri.Prelude.{
  ℕ, ◌+◌, ◌%◌, ◌^◌, ◌<◌, ◌≡◌, refl, ap, ◌∙◌, Bool, ◌&&◌, ltb, List, [], ◌∷◌, arith,
}
use free_rtos_demos_cheri_ri.Echo.Client.{State}
use free_rtos_demos_cheri_ri.Echo.Client.Connection.{Last, still_running}

-- What the task does to the counters between two checks: so many requests answered and so many
-- connections made.
unfoldable pub count : ℕ → ℕ → State → State
count cycles connections s = record s {
  tx_rx_cycles = (s.tx_rx_cycles + cycles) % 2 ^ 32;
  connections = (s.connections + connections) % 2 ^ 32;
}

-- The checks, each after so many requests and connections: their results, and the state in the end
unfoldable pub checks : Last → State → List (ℕ × ℕ) → List Bool × State
unfolding count still_running
checks l s [] = ([], s)
checks l s ((cycles, connections) ∷ rest) =
    let (passes, l', s') = still_running l (count cycles connections s) in
    let (results, end) = checks l' s' rest in (passes ∷ results, end)

-- Whether there was one of each
unfoldable pub expected : List (ℕ × ℕ) → List Bool
expected [] = []
expected ((cycles, connections) ∷ rest) = (ltb 0 cycles && ltb 0 connections) ∷ expected rest

-- Less than 2 ^ 32 of each between two checks
unfoldable pub AreFew : List (ℕ × ℕ) → Type 0
AreFew [] = Unit {0}
AreFew ((cycles, connections) ∷ rest) = (cycles < 2 ^ 32) × (connections < 2 ^ 32) × AreFew rest

-- The variables between two checks
abbrev pub AreEven : Last → State → Type 0
AreEven l s =
    (s.tx_rx_cycles ≡ l.echo_socket_count)
    × (s.connections ≡ l.connections)
    × (s.tx_rx_cycles < 2 ^ 32)
    × (s.connections < 2 ^ 32)

still_running-since :
    (l : Last) (s : State) (cycles connections : ℕ)
    → cycles < 2 ^ 32
    → connections < 2 ^ 32
    → AreEven l s
    → ((still_running l (count cycles connections s)).0 ≡ (ltb 0 cycles && ltb 0 connections))
      × ((still_running l (count cycles connections s)).2.connections ≡ s.connections)
      × AreEven
          (still_running l (count cycles connections s)).1
          (still_running l (count cycles connections s)).2
unfolding still_running count
still_running-since l s cycles connections f g (a, b, c, d) =
    (ground arith, ground arith, (ground arith, ground arith, ground arith, ground arith))

-- From equal variables, as they are at the start, each check passes exactly if a request was answered
-- and a connection was made since the check before it, where less than 2 ^ 32 of each are between two
-- checks; and in the end ulConnections is what it was at the start, so that it does not count the
-- connections.
pub checks-since :
    (l : Last) (s : State) (since : List (ℕ × ℕ))
    → AreFew since
    → AreEven l s
    → ((checks l s since).0 ≡ expected since) × ((checks l s since).1.connections ≡ s.connections)
unfolding checks expected AreFew
checks-since l s [] few even = (refl, refl)
checks-since l s ((cycles, connections) ∷ rest) few even =
    let c = still_running l (count cycles connections s) in
    let (passes, kept, even') = still_running-since l s cycles connections few.0 few.1 even in
    let (results, kept') = checks-since c.1 c.2 rest few.2 even' in
    (
      ap (λ b. b ∷ (checks c.1 c.2 rest).0) passes
          ∙ ap (λ t. (ltb 0 cycles && ltb 0 connections) ∷ t) results,
      kept' ∙ kept,
    )

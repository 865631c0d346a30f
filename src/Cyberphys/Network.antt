-- ===== src/Cyberphys/Network.antt =====
-- The network event hook and prvIPRestartHandlerTask() of demo/cyberphys/main_besspin.c: when the
-- network goes down the tasks that use sockets are suspended, and when it is up again another task
-- makes their sockets anew and resumes them.
use free_rtos_demos_cheri_ri.Prelude.{
  ℕ, zero, suc, ◌+◌, ◌<◌, ◌≤◌, ◌≡◌, ◌≢◌, ◌⊎◌, refl, sym, ◌∙◌, Bool, true, false, ◌||◌, List, [],
  ◌∷◌, ◌==◌, ltb, if◌then◌else◌, arith, Bool-cases, inl, inr,
}

pub data Socket : Type 0 where
  can_rx_client can_rx_listening sensor_client : Socket

-- A call of the kernel or of FreeRTOS+TCP: a task is a handle, 0 for NULL.
pub data Event : Type 0 where
  notify_main : Event  -- xTaskNotify( xMainTask, .. )
  give_restart : Event  -- vTaskNotifyGiveFromISR( xIPRestartHandlerTask, .. )
  take_restart : Event  -- ulTaskNotifyTake(), when it returns
  suspend resume : ℕ → Event
  ip_init : Event
  create_socket : Socket → Event
  bind : Event  -- of xCanRxListeningSocket

abbrev pub Trace : Type 0
Trace = List Event

pub record State : Type 0 where
  pub sensor_task : ℕ
  pub can_task : ℕ
  pub trace : Trace

pub data NetworkEvent : Type 0 where
  network_up network_down : NetworkEvent

-- vApplicationIPNetworkEventHook(); startNetwork() calls FreeRTOS_IPInit().
unfoldable pub network_event_hook : NetworkEvent → State → State
network_event_hook NetworkEvent.network_up s =
    if s.sensor_task == 0 || s.can_task == 0
    then record s { trace = Event.notify_main ∷ s.trace }
    else record s { trace = Event.give_restart ∷ s.trace }
network_event_hook NetworkEvent.network_down s = record s {
  trace = Event.ip_init ∷ (Event.suspend s.can_task ∷ (Event.suspend s.sensor_task ∷ s.trace));
}

-- prvSocketCreateCanRx(), which makes the listening socket twice; the assertions are left out.
unfoldable pub socket_create_can_rx : Trace → Trace
socket_create_can_rx t =
    Event.bind
    ∷ (Event.create_socket Socket.can_rx_listening
        ∷ (Event.create_socket Socket.can_rx_listening
            ∷ (Event.create_socket Socket.can_rx_client ∷ t)))

-- prvSocketCreateSensorIP()
unfoldable pub socket_create_sensor : Trace → Trace
socket_create_sensor t = Event.create_socket Socket.sensor_client ∷ t

-- A turn of the loop of prvIPRestartHandlerTask(), for a notification
unfoldable pub restart_turn : State → State
unfolding socket_create_can_rx socket_create_sensor
restart_turn s = record s {
  trace =
      Event.resume s.sensor_task
      ∷ (Event.resume s.can_task
          ∷ socket_create_sensor (socket_create_can_rx (Event.take_restart ∷ s.trace)));
}

-- The notifications given to the handler, and taken by it
abbrev pub given : Trace → ℕ
given [] = 0
given (Event.give_restart ∷ t) = suc (given t)
given (_ ∷ t) = given t

abbrev pub taken : Trace → ℕ
taken [] = 0
taken (Event.take_restart ∷ t) = suc (taken t)
taken (_ ∷ t) = taken t

-- The network has not come up since it was last initialised.
abbrev pub is_down : Trace → Bool
is_down [] = true
is_down (Event.ip_init ∷ t) = true
is_down (Event.give_restart ∷ t) = false
is_down (Event.notify_main ∷ t) = false
is_down (_ ∷ t) = is_down t

-- Whether a task was suspended and not resumed
abbrev pub is_suspended : ℕ → Trace → Bool
is_suspended h [] = false
is_suspended h (Event.suspend a ∷ t) = if a == h then true else is_suspended h t
is_suspended h (Event.resume a ∷ t) = if a == h then false else is_suspended h t
is_suspended h (_ ∷ t) = is_suspended h t

-- A network event, or the handler as far as it goes: it waits for a notification.
pub data Move : Type 0 where
  network : NetworkEvent → Move
  handler : Move

unfoldable pub move : Move → State → State
unfolding network_event_hook restart_turn
move (Move.network v) s = network_event_hook v s
move Move.handler s = if ltb (taken s.trace) (given s.trace) then restart_turn s else s

unfoldable pub moves : List Move → State → State
unfolding move
moves [] s = s
moves (m ∷ ms) s = moves ms (move m s)

unfoldable pub handler_turns : ℕ → State → State
unfolding move
handler_turns zero s = s
handler_turns (suc n) s = handler_turns n (move Move.handler s)

-- Both tasks exist, `h` is one of them, and if it is suspended it will be resumed: the network is down,
-- or the handler is notified.
abbrev pub IsServed : ℕ → State → Type 0
IsServed h s =
    (s.sensor_task ≢ 0)
    × (s.can_task ≢ 0)
    × ((h ≡ s.sensor_task) ⊎ (h ≡ s.can_task))
    × (taken s.trace ≤ given s.trace)
    × ((is_suspended h s.trace ≡ false)
        ⊎ (is_down s.trace ≡ true)
        ⊎ (taken s.trace < given s.trace))

restart_turn-resumes :
    (h : ℕ) (s : State)
    → (h ≡ s.sensor_task) ⊎ (h ≡ s.can_task)
    → is_suspended h (restart_turn s).trace ≡ false
unfolding restart_turn socket_create_can_rx socket_create_sensor
restart_turn-resumes h s (inl p) = ground arith
restart_turn-resumes h s (inr p) = ground arith

restart_turn-IsServed :
    (h : ℕ) (s : State) → taken s.trace < given s.trace → IsServed h s → IsServed h (restart_turn s)
unfolding restart_turn socket_create_can_rx socket_create_sensor
restart_turn-IsServed h s lt (sensor, can, handled, le, p) =
    (sensor, can, handled, lt, inl (restart_turn-resumes h s handled))

move-IsServed : (m : Move) (h : ℕ) (s : State) → IsServed h s → IsServed h (move m s)
unfolding move network_event_hook
move-IsServed (Move.network NetworkEvent.network_up) h s (sensor, can, handled, le, p) =
    let made : (s.sensor_task == 0 || s.can_task == 0) ≡ false = ground arith in
    rw made (sensor, can, handled, omega (arith, le), inr (inr (omega (arith, le))))
move-IsServed (Move.network NetworkEvent.network_down) h s (sensor, can, handled, le, p) =
    (sensor, can, handled, le, inr (inl refl))
move-IsServed Move.handler h s p = elim (Bool-cases (ltb (taken s.trace) (given s.trace))) [
  | inl y ↦ rw y (restart_turn-IsServed h s (ground arith) p)
  | inr n ↦ rw n p
]

moves-IsServed : (ms : List Move) (h : ℕ) (s : State) → IsServed h s → IsServed h (moves ms s)
unfolding moves
moves-IsServed [] h s p = p
moves-IsServed (m ∷ ms) h s p = moves-IsServed ms h (move m s) (move-IsServed m h s p)

-- A turn of the handler takes a notification, if there is one, and leaves the network as it is.
handler-takes :
    (s : State) (n : ℕ)
    → is_down s.trace ≡ false
    → given s.trace ≤ suc n + taken s.trace
    → (is_down (move Move.handler s).trace ≡ false)
      × (given (move Move.handler s).trace ≤ n + taken (move Move.handler s).trace)
unfolding move restart_turn socket_create_can_rx socket_create_sensor
handler-takes s n up le = elim (Bool-cases (ltb (taken s.trace) (given s.trace))) [
  | inl y ↦ rw y (up, omega (arith, le))
  | inr x ↦ rw x (up, ground arith)
]

handler_turns-resumes :
    (n h : ℕ) (s : State)
    → is_down s.trace ≡ false
    → given s.trace ≤ n + taken s.trace
    → IsServed h s
    → is_suspended h (handler_turns n s).trace ≡ false
unfolding handler_turns
handler_turns-resumes zero h s up le (sensor, can, handled, le', inl runs) = runs
handler_turns-resumes zero h s up le (sensor, can, handled, le', inr (inl down)) =
    let no : true ≡ false = sym down ∙ up in ground arith
handler_turns-resumes zero h s up le (sensor, can, handled, le', inr (inr lt)) =
    absurd (omega (arith, le, lt))
handler_turns-resumes (suc n) h s up le p =
    let (up', le') = handler-takes s n up le in
    handler_turns-resumes n h (move Move.handler s) up' le' (move-IsServed Move.handler h s p)

-- After any network events and turns of the handler, in any order, of which the last network event was
-- that the network is up, both tasks run again once the handler has taken its notifications, if they
-- exist and are served at the start.
pub moves-resumed :
    (ms : List Move) (n h : ℕ) (s : State)
    → IsServed h s
    → is_down (moves ms s).trace ≡ false
    → given (moves ms s).trace ≤ n + taken (moves ms s).trace
    → is_suspended h (handler_turns n (moves ms s)).trace ≡ false
moves-resumed ms n h s p up le =
    handler_turns-resumes n h (moves ms s) up le (moves-IsServed ms h s p)

-- ===== src/Cyberphys/Sensor.antt =====
-- prvSensorTask() of demo/cyberphys/main_besspin.c: one round of its loop, with the I2C bus.
use free_rtos_demos_cheri_ri.Prelude.{
  ℕ, zero, suc, ◌+◌, ◌*◌, ◌%◌, ◌^◌, ◌≤◌, ◌<◌, ◌≡◌, Bool, true, false, List, [], ◌∷◌, ◌==◌, leb,
  if◌then◌else◌, ℤ, arith, Bool-cases, inl, inr,
}
use free_rtos_demos_cheri_ri.Cyberphys.Scaling.{
  raw_of, throttle_of, brake_of, throttle_of_le, brake_of_le,
}

-- The CAN messages that the task sends, by their identifiers.
pub data CanId : Type 0 where
  can_id_gear can_id_throttle_input can_id_brake_input can_id_steering_input : CanId

-- What iic_receive() gives: a result below 1, or five bytes.
pub data Reading : Type 0 where
  failed : Reading
  read : ℕ → ℕ → ℕ → ℕ → ℕ → Reading

pub data Event : Type 0 where
  receive : Bool → Event  -- iic_receive(), and whether it succeeded
  reset : Event  -- iic0_master_reset()
  send : CanId → ℕ → Event  -- send_can_message() of one byte

abbrev pub Trace : Type 0
Trace = List Event

pub record Env : Type 0 where
  pub receive : Trace → Reading
  pub take : Trace → Bool  -- whether data_mutex is taken in 100 ms

-- The variables of the task and the globals that it writes
pub record State : Type 0 where
  pub err_cnt : ℕ
  pub tmp_gear : ℕ
  pub throttle_raw : ℤ
  pub brake_raw : ℤ
  pub gear : ℕ
  pub throttle : ℕ
  pub brake : ℕ
  pub camera_ok : Bool
  pub transmission_ok : Bool
  pub steering_assist : ℕ
  pub hz_sensor_task : ℕ
  pub trace : Trace

-- IIC_RESET_ERROR_THRESHOLD
abbrev pub iic_reset_error_threshold : ℕ
iic_reset_error_threshold = 3

-- The branch of a failed reading
unfoldable pub on_error : State → State
on_error s =
    if leb iic_reset_error_threshold (s.err_cnt + 1)
    then record s { err_cnt = 0; trace = Event.reset ∷ s.trace }
    else record s { err_cnt = s.err_cnt + 1 }

-- The switch on data[ 4 ]; an unknown value leaves tmp_gear as it is.
unfoldable pub gear_of : ℕ → ℕ → ℕ
gear_of d tmp_gear =
    if d == 0x28
    then b'P'
    else if d == 0x27
    then b'R'
    else if d == 0x26
    then b'N'
    else if d == 0x25
    then b'D'
    else tmp_gear

-- The values are stored if the mutex is taken in time.
unfoldable pub store : Env → ℕ → ℕ → State → State
store e t b s =
    if e.take s.trace then record s { gear = s.tmp_gear; throttle = t; brake = b } else s

unfoldable pub send_steering : State → State
send_steering s =
    if s.camera_ok
    then record s { trace = Event.send CanId.can_id_steering_input s.steering_assist ∷ s.trace }
    else s

unfoldable pub on_reading : Env → ℕ → ℕ → ℕ → ℕ → ℕ → State → State
on_reading e d0 d1 d2 d3 d4 s =
    let g = if s.transmission_ok then gear_of d4 s.tmp_gear else b'N' in
    let t = throttle_of (raw_of d0 d1) in
    let b = brake_of (raw_of d2 d3) in
    let sent =
      Event.send CanId.can_id_brake_input b
      ∷ (Event.send CanId.can_id_throttle_input t ∷ (Event.send CanId.can_id_gear g ∷ s.trace)) in
    let steered = send_steering (
      store e t b record s {
        tmp_gear = g;
        throttle_raw = raw_of d0 d1;
        brake_raw = raw_of d2 d3;
        trace = sent;
      }) in
    record steered { hz_sensor_task = (steered.hz_sensor_task + 1) % 2 ^ 32 }

unfoldable pub on_receive : Env → Reading → State → State
on_receive e Reading.failed s = on_error record s { trace = Event.receive false ∷ s.trace }
on_receive e (Reading.read d0 d1 d2 d3 d4) s =
    on_reading e d0 d1 d2 d3 d4 record s { trace = Event.receive true ∷ s.trace }

-- One round of the loop, and a number of rounds
unfoldable pub sensor_round : Env → State → State
sensor_round e s = on_receive e (e.receive s.trace) s

unfoldable pub sensor_rounds : ℕ → Env → State → State
sensor_rounds zero e s = s
sensor_rounds (suc n) e s = sensor_rounds n e (sensor_round e s)

-- Readings that failed, and resets of the bus
abbrev pub failures : Trace → ℕ
failures [] = 0
failures (Event.receive false ∷ t) = 1 + failures t
failures (_ ∷ t) = failures t

abbrev pub resets : Trace → ℕ
resets [] = 0
resets (Event.reset ∷ t) = 1 + resets t
resets (_ ∷ t) = resets t

-- Each throttle and brake that was sent is a percentage.
unfoldable pub IsPercent : Trace → Type 0
IsPercent [] = Unit {0}
IsPercent (Event.send CanId.can_id_throttle_input v ∷ t) = (v ≤ 100) × IsPercent t
IsPercent (Event.send CanId.can_id_brake_input v ∷ t) = (v ≤ 100) × IsPercent t
IsPercent (_ ∷ t) = IsPercent t

-- What holds between two rounds
unfoldable pub IsCounted : State → Type 0
IsCounted s =
    (failures s.trace ≡ iic_reset_error_threshold * resets s.trace + s.err_cnt)
    × (s.err_cnt < iic_reset_error_threshold)
    × (s.throttle ≤ 100)
    × (s.brake ≤ 100)
    × IsPercent s.trace

either : (b : Bool) (s t : State) → IsCounted s → IsCounted t → IsCounted (if b then s else t)
either true s t h k = h
either false s t h k = k

store-IsCounted :
    (e : Env) (t b : ℕ) (s : State) → t ≤ 100 → b ≤ 100 → IsCounted s → IsCounted (store e t b s)
unfolding store IsCounted
store-IsCounted e t b s h k (f, c, x, y, p) =
    either (e.take s.trace) record s { gear = s.tmp_gear; throttle = t; brake = b } s
      (f, c, h, k, p) (f, c, x, y, p)

send_steering-IsCounted : (s : State) → IsCounted s → IsCounted (send_steering s)
unfolding send_steering IsCounted IsPercent
send_steering-IsCounted s h =
    either s.camera_ok
      record s { trace = Event.send CanId.can_id_steering_input s.steering_assist ∷ s.trace } s h h

on_reading-IsCounted :
    (e : Env) (d0 d1 d2 d3 d4 : ℕ) (s : State)
    → IsCounted s
    → IsCounted (on_reading e d0 d1 d2 d3 d4 s)
unfolding on_reading IsCounted IsPercent
on_reading-IsCounted e d0 d1 d2 d3 d4 s (a, b, c, d, p) =
    let t = throttle_of_le d0 d1 in
    let k = brake_of_le d2 d3 in
    send_steering-IsCounted _ (store-IsCounted e _ _ _ t k (a, b, c, d, (k, (t, p))))

on_error-IsCounted :
    (s : State)
    → IsCounted s
    → IsCounted (on_error record s { trace = Event.receive false ∷ s.trace })
unfolding on_error IsCounted IsPercent
on_error-IsCounted s (a, b, c, d, p) =
    let l : State = record s { trace = Event.receive false ∷ s.trace } in
    elim (Bool-cases (leb iic_reset_error_threshold (s.err_cnt + 1))) [
      | inl y ↦ rw y (ground arith, omega arith, c, d, p)
      | inr n ↦ rw n (ground arith, ground arith, c, d, p)
    ]

on_receive-IsCounted :
    (e : Env) (r : Reading) (s : State) → IsCounted s → IsCounted (on_receive e r s)
unfolding on_receive IsCounted IsPercent
on_receive-IsCounted e Reading.failed s h = on_error-IsCounted s h
on_receive-IsCounted e (Reading.read d0 d1 d2 d3 d4) s h =
    on_reading-IsCounted e d0 d1 d2 d3 d4 record s { trace = Event.receive true ∷ s.trace } h

-- After any number of rounds, whatever the bus delivers, from a state with these properties: each
-- throttle and each brake that was sent, and the two that are stored, are at most 100; and the bus
-- was reset once for each three readings that failed, with less than three counted towards the next
-- reset.
pub sensor_rounds-IsCounted :
    (n : ℕ) (e : Env) (s : State) → IsCounted s → IsCounted (sensor_rounds n e s)
unfolding sensor_rounds sensor_round
sensor_rounds-IsCounted zero e s h = h
sensor_rounds-IsCounted (suc n) e s h =
    sensor_rounds-IsCounted n e (sensor_round e s) (on_receive-IsCounted e (e.receive s.trace) s h)

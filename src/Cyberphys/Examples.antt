-- ===== src/Cyberphys/Examples.antt =====
-- Readings of a bus and an outage of the network: witnesses of the theorems.
use free_rtos_demos_cheri_ri.Prelude.{
  List, inl, inr, ◌^◌, ◌≡◌, refl, true, false, [], ◌∷◌, pos, arith,
}
use free_rtos_demos_cheri_ri.Cyberphys.Scaling.{int16_of_bits, throttle_of, throttle_of-percent}
use free_rtos_demos_cheri_ri.Cyberphys.Sensor as Sensor
use free_rtos_demos_cheri_ri.Cyberphys.Network as Network

-- The lowest reading counts as fully pressed.
throttle_of-percent_example : throttle_of (int16_of_bits (2 ^ 15)) ≡ 100
throttle_of-percent_example = throttle_of-percent (2 ^ 15) (omega arith)

-- A bus on which every second reading fails.
abbrev next_reading : Sensor.Trace → Sensor.Reading
next_reading (Sensor.Event.receive false ∷ t) = Sensor.Reading.read 200 1 60 0 0x25
next_reading (Sensor.Event.reset ∷ t) = Sensor.Reading.read 200 1 60 0 0x25
next_reading _ = Sensor.Reading.failed

abbrev bus : Sensor.Env
bus = record { receive = next_reading; take = λ t. true }

abbrev parked : Sensor.State
parked = record {
  err_cnt = 0;
  tmp_gear = b'N';
  throttle_raw = pos 0;
  brake_raw = pos 0;
  gear = b'P';
  throttle = 0;
  brake = 0;
  camera_ok = false;
  transmission_ok = true;
  steering_assist = 0;
  hz_sensor_task = 0;
  trace = [];
}

sensor_rounds-IsCounted_example : Sensor.IsCounted (Sensor.sensor_rounds 7 bus parked)
unfolding Sensor.IsCounted Sensor.IsPercent
sensor_rounds-IsCounted_example =
    Sensor.sensor_rounds-IsCounted 7 bus parked (refl, omega arith, omega arith, omega arith, tt)

abbrev driving : Network.State
driving = record { sensor_task = 1; can_task = 2; trace = [] }

-- The network fails twice, and the second time before the handler has taken the first notification.
abbrev outage : List Network.Move
outage =
    Network.Move.network Network.NetworkEvent.network_down
    ∷ (Network.Move.network Network.NetworkEvent.network_up
        ∷ (Network.Move.network Network.NetworkEvent.network_down
            ∷ (Network.Move.handler ∷ (Network.Move.network Network.NetworkEvent.network_up ∷ []))))

moves-resumed_example :
    Network.is_suspended 2 (Network.handler_turns 1 (Network.moves outage driving)).trace ≡ false
unfolding Network.moves
moves-resumed_example =
    Network.moves-resumed outage 1 2 driving
      (omega arith, omega arith, inr refl, omega arith, inl refl) refl (omega arith)

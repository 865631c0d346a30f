-- ===== src/Cyberphys.antt =====
-- demo/cyberphys/main_besspin.c: the task that reads the gear, the throttle and the brake over I2C
-- and sends them as CAN messages, the task that answers heartbeats, and what is done when the network
-- goes down and comes up. The CAN library, the kernel
-- and the I2C driver (for its results, see Bsp/Iic) are parameters.
pub mod Scaling
pub mod Sensor
pub mod CanRx
pub mod Network
pub mod Examples

-- ===== src/Bsp.antt =====
-- The board support in bsp/: the dispatch of interrupts, the I2C driver, the system calls on files.
pub mod Interrupts
pub mod Dispatch
pub mod Iic
pub mod Uart
pub mod Htif
pub mod Syscalls
pub mod Examples

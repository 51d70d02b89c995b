-- ===== src/Hello.antt =====
-- guest/hello: the guest program that comes with the hypervisor, over the devices that it sees.
pub mod Gic
pub mod Uart
pub mod Timer
pub mod Main
pub mod Print
pub mod Emulated
pub mod Bank
pub mod Steps
pub mod Setup
pub mod Ppi
pub mod Bringup

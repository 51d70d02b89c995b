-- ===== src/Tests.antt =====
-- Concrete runs: a small memory with a pool of free pages and a guest's tables, and each theorem
-- applied there.
pub mod Data
pub mod Pages
pub mod Tables
pub mod Copies
pub mod Interrupts
pub mod Processors
pub mod Regions
pub mod Text
pub mod Traps
pub mod Locks
pub mod Queues
pub mod Memories
pub mod Devices
pub mod Bus
pub mod Ports
pub mod Arrivals
pub mod Program
pub mod Start

-- ===== src/Examples.antt =====
-- The theorems at concrete inputs.
pub mod Pools
mod Buffers
mod Messages
mod Sessions
mod Menus
pub mod Consoles
mod Runtime
pub mod Rings
mod Interfaces
mod Managers

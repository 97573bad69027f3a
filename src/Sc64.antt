-- ===== src/Sc64.antt =====
-- crates/sc64-link: the packets of the SummerCart64's USB serial protocol.
pub mod Wire
pub mod Write
pub mod Pipe
pub mod Bridge
mod Examples

-- ===== src/Ed64.antt =====
-- The EverDrive-64 X7's serial link (crates/ed64-l2/src/lib.rs).
pub mod Wire
pub mod Pipe
pub mod Bridge
mod Examples

-- ===== src/Ed64pro.antt =====
-- The EverDrive-64 PRO's serial protocol (crates/ed64pro-link).
pub mod Wire
pub mod Link
pub mod Device
pub mod Pipe
mod Examples

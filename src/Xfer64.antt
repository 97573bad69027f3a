-- ===== src/Xfer64.antt =====
-- Xfer64, the desktop application that copies files to and from a cart: crates/xfer64/src-tauri.
pub mod CloseGuard
pub mod CopyPlan
mod Examples

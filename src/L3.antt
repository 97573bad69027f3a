-- ===== src/L3.antt =====
-- crates/l3: the framed protocol between the PC and the cart.
pub mod Consts
pub mod FrameType
pub mod Channel
pub mod ErrorCode
pub mod Frame
pub mod Encode
pub mod Decode
pub mod Stream
pub mod Carried
pub mod Handshake
pub mod Session
mod Examples
mod MessageExamples

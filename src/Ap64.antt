-- ===== src/Ap64.antt =====
-- crates/ap64-cart: memory access to a running game through the cart.
pub mod Watch
pub mod M64p
pub mod Backend

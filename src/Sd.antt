-- ===== src/Sd.antt =====
-- crates/multi64-sc64-sd: the SD card in the cart.
pub mod ReadCache

-- ===== src/Wire.antt =====
-- The wire codec between two peers (core/src/wire/mod.rs): frames, padding, encoding and decoding.
pub mod Frame
pub mod Padding
pub mod Codec

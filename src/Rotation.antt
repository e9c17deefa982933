-- ===== src/Rotation.antt =====
-- src/key_rotation.rs and src/keys.rs. Each reading of the system clock, in milliseconds since the
-- epoch, and each random key pair is an argument.
pub mod Stores
pub mod Words
pub mod Cleanup
pub mod Rotate
pub mod Replenish

-- ===== src/Kyanite.antt =====
-- The devices of the Kyanite "Legacy" machine: src/kyanite_legacy.c and aasm/kyanite.
pub mod Bus
pub mod Cpu
pub mod Timer

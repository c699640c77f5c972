-- ===== src/Util.antt =====
-- src/util.c: the containers that the assembler is written with.
pub mod Array
pub mod List
pub mod Map
pub mod Set

-- ===== src/Asm.antt =====
-- The assembler: src/compile.c and the src/cmpl_*.c files.
pub mod Compile
pub mod Control
pub mod Data
pub mod Ensures
pub mod Expr
pub mod Table
pub mod World
pub mod Yard
pub mod Insn
pub mod Layout
pub mod Lexer
pub mod Link
pub mod Number
pub mod Source
pub mod State
pub mod Statement
pub mod Symbols

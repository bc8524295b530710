-- ===== src/Ir.antt =====
-- The Vine intermediate representation (libasmir/src/ir, libasmir/src/include/exp.h).
pub mod Types
pub mod Build
pub mod Eval
pub mod Words
pub mod Names
pub mod Print
pub mod Typing

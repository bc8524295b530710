-- ===== src/I386.antt =====
-- The i386 part of the translator (libasmir/src/vex/irtoir-i386.cpp).
pub mod Conditions
pub mod Flags
pub mod Registers
pub mod Thunk

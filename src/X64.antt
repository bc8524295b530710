-- ===== src/X64.antt =====
-- The x64 part of the translator (libasmir/src/vex/irtoir-x64.cpp).
pub mod Flags

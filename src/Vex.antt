-- ===== src/Vex.antt =====
-- The translation of VEX operations to Vine expressions (libasmir/src/vex/irtoir.cpp).
pub mod Assemble
pub mod Interleave
pub mod Ite
pub mod Lanes
pub mod Multiply
pub mod Memory
pub mod Signed
pub mod Clz
pub mod Wide

-- ===== src/Vex/Assemble.antt =====
-- Putting words together from halves and bytes, and splitting them (libasmir/src/vex/irtoir.cpp).
pub mod Laws
use fuzzball.Ir.Build.{ex_const, ex_h_cast, ex_l_cast, ex_or, ex_shl_by, ex_u_cast}
use fuzzball.Ir.Types.{
  Exp, bin_op, bitor, cast, cast_low, cast_unsigned, lshift, reg_16, reg_32, reg_64, reg_8, vector,
}

unfoldable pub assemble2x8 : Exp → Exp → Exp
assemble2x8 b1 b0 =
    let b1w = ex_u_cast b1 reg_16 in let b0w = ex_u_cast b0 reg_16 in ex_or (ex_shl_by b1w 8) b0w

unfoldable pub translate_16HLto32 : Exp → Exp → Exp
translate_16HLto32 arg1 arg2 =
    let high = cast arg1 reg_32 cast_unsigned in
    let low = cast arg2 reg_32 cast_unsigned in bin_op bitor (bin_op lshift high (ex_const 16)) low

unfoldable pub assemble4x8 : Exp → Exp → Exp → Exp → Exp
assemble4x8 b3 b2 b1 b0 =
    let b3w = ex_u_cast b3 reg_16 in
    let b2w = ex_u_cast b2 reg_16 in
    let b1w = ex_u_cast b1 reg_16 in
    let b0w = ex_u_cast b0 reg_16 in
    let high = ex_or (ex_shl_by b3w 8) b2w in
    let low = ex_or (ex_shl_by b1w 8) b0w in translate_16HLto32 high low

unfoldable pub translate_32HLto64 : Exp → Exp → Exp
translate_32HLto64 arg1 arg2 =
    let high = cast arg1 reg_64 cast_unsigned in
    let low = cast arg2 reg_64 cast_unsigned in bin_op bitor (bin_op lshift high (ex_const 32)) low

unfoldable pub assemble4x16 : Exp → Exp → Exp → Exp → Exp
assemble4x16 w3 w2 w1 w0 =
    let w3w = ex_u_cast w3 reg_32 in
    let w2w = ex_u_cast w2 reg_32 in
    let w1w = ex_u_cast w1 reg_32 in
    let w0w = ex_u_cast w0 reg_32 in
    let high = ex_or (ex_shl_by w3w 16) w2w in
    let low = ex_or (ex_shl_by w1w 16) w0w in translate_32HLto64 high low

unfoldable pub assemble8x8 : Exp → Exp → Exp → Exp → Exp → Exp → Exp → Exp → Exp
assemble8x8 b7 b6 b5 b4 b3 b2 b1 b0 =
    translate_32HLto64 (assemble4x8 b7 b6 b5 b4) (assemble4x8 b3 b2 b1 b0)

unfoldable pub translate_64HLto128 : Exp → Exp → Exp
translate_64HLto128 arg1 arg2 = vector arg1 arg2

unfoldable pub translate_64HLto64 : Exp → Exp → Exp
translate_64HLto64 high low =
    translate_32HLto64 (cast high reg_32 cast_low) (cast low reg_32 cast_low)

-- A split writes its parts through pointers: here a tuple, the highest part first.
unfoldable pub split2x32 : Exp → Exp × Exp
split2x32 x64 = (ex_h_cast x64 reg_32, ex_l_cast x64 reg_32)

unfoldable pub split4x8 : Exp → Exp × Exp × Exp × Exp
split4x8 x32 = (
  ex_h_cast (ex_h_cast x32 reg_16) reg_8,
  ex_l_cast (ex_h_cast x32 reg_16) reg_8,
  ex_h_cast (ex_l_cast x32 reg_16) reg_8,
  ex_l_cast (ex_l_cast x32 reg_16) reg_8,
)

unfoldable pub split8x8 : Exp → (Exp × Exp × Exp × Exp) × (Exp × Exp × Exp × Exp)
split8x8 x64 = (split4x8 (ex_h_cast x64 reg_32), split4x8 (ex_l_cast x64 reg_32))

unfoldable pub split4x16 : Exp → Exp × Exp × Exp × Exp
split4x16 x64 = (
  ex_h_cast (ex_h_cast x64 reg_32) reg_16,
  ex_l_cast (ex_h_cast x64 reg_32) reg_16,
  ex_h_cast (ex_l_cast x64 reg_32) reg_16,
  ex_l_cast (ex_l_cast x64 reg_32) reg_16,
)

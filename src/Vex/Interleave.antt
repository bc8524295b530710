-- ===== src/Vex/Interleave.antt =====
-- Interleaving the lanes of two vectors, and gathering sign bits (libasmir/src/vex/irtoir.cpp).
pub mod Laws
use fuzzball.Ir.Build.{ex_get_bit, ex_h_cast, ex_or, ex_or_4, ex_shl_by, ex_u_cast}
use fuzzball.Ir.Types.{Exp, reg_1, reg_8}
use fuzzball.Prelude.{Option, some, ◌>>=◌}
use fuzzball.Vex.Assemble.{
  assemble2x8, assemble4x16, assemble8x8, split2x32, split4x16, split8x8, translate_32HLto64,
  translate_64HLto128,
}
use fuzzball.Vex.Lanes.{split_vector}

unfoldable pub assemble4x32 : Exp → Exp → Exp → Exp → Exp
assemble4x32 w3 w2 w1 w0 = translate_64HLto128 (translate_32HLto64 w3 w2) (translate_32HLto64 w1 w0)

unfoldable pub assemble8x1 : Exp → Exp → Exp → Exp → Exp → Exp → Exp → Exp → Exp
assemble8x1 b7 b6 b5 b4 b3 b2 b1 b0 =
    ex_or
      (ex_or_4 (ex_shl_by (ex_u_cast b7 reg_8) 7) (ex_shl_by (ex_u_cast b6 reg_8) 6)
        (ex_shl_by (ex_u_cast b5 reg_8) 5) (ex_shl_by (ex_u_cast b4 reg_8) 4))
      (ex_or_4 (ex_shl_by (ex_u_cast b3 reg_8) 3) (ex_shl_by (ex_u_cast b2 reg_8) 2)
        (ex_shl_by (ex_u_cast b1 reg_8) 1) (ex_u_cast b0 reg_8))

unfoldable pub translate_GetMSBs8x8 : Exp → Exp
translate_GetMSBs8x8 x =
    assemble8x1 (ex_h_cast x reg_1) (ex_get_bit x 55) (ex_get_bit x 47) (ex_get_bit x 39)
      (ex_get_bit x 31) (ex_get_bit x 23) (ex_get_bit x 15) (ex_get_bit x 7)

unfoldable pub translate_GetMSBs8x16 : Exp → Option Exp
translate_GetMSBs8x16 x = do
  (x_h, x_l) ← split_vector x
  some (assemble2x8 (translate_GetMSBs8x8 x_h) (translate_GetMSBs8x8 x_l))

unfoldable pub interleave2_2x32 : Exp → Exp → Exp
interleave2_2x32 a b =
    let (a1, a0) = split2x32 a in let (b1, b0) = split2x32 b in assemble4x32 a1 b1 a0 b0

unfoldable pub interleave2_4x16 : Exp → Exp → Exp
interleave2_4x16 a b =
    let (a3, a2, a1, a0) = split4x16 a in
    let (b3, b2, b1, b0) = split4x16 b in
    translate_64HLto128 (assemble4x16 a3 b3 a2 b2) (assemble4x16 a1 b1 a0 b0)

unfoldable pub interleave2_8x8 : Exp → Exp → Exp
interleave2_8x8 a b =
    let ((a7, a6, a5, a4), (a3, a2, a1, a0)) = split8x8 a in
    let ((b7, b6, b5, b4), (b3, b2, b1, b0)) = split8x8 b in
    translate_64HLto128 (assemble8x8 a7 b7 a6 b6 a5 b5 a4 b4) (assemble8x8 a3 b3 a2 b2 a1 b1 a0 b0)

unfoldable pub translate_InterleaveLO32x4 : Exp → Exp → Option Exp
translate_InterleaveLO32x4 a b = do
  (_, a_low) ← split_vector a
  (_, b_low) ← split_vector b
  some (interleave2_2x32 a_low b_low)

unfoldable pub translate_InterleaveHI32x4 : Exp → Exp → Option Exp
translate_InterleaveHI32x4 a b = do
  (a_high, _) ← split_vector a
  (b_high, _) ← split_vector b
  some (interleave2_2x32 a_high b_high)

unfoldable pub translate_InterleaveLO64x2 : Exp → Exp → Option Exp
translate_InterleaveLO64x2 a b = do
  (_, a_low) ← split_vector a
  (_, b_low) ← split_vector b
  some (translate_64HLto128 a_low b_low)

unfoldable pub translate_InterleaveHI64x2 : Exp → Exp → Option Exp
translate_InterleaveHI64x2 a b = do
  (a_high, _) ← split_vector a
  (b_high, _) ← split_vector b
  some (translate_64HLto128 a_high b_high)

unfoldable pub translate_InterleaveLO16x8 : Exp → Exp → Option Exp
translate_InterleaveLO16x8 a b = do
  (_, a_low) ← split_vector a
  (_, b_low) ← split_vector b
  some (interleave2_4x16 a_low b_low)

unfoldable pub translate_InterleaveHI16x8 : Exp → Exp → Option Exp
translate_InterleaveHI16x8 a b = do
  (a_high, _) ← split_vector a
  (b_high, _) ← split_vector b
  some (interleave2_4x16 a_high b_high)

unfoldable pub translate_InterleaveLO8x16 : Exp → Exp → Option Exp
translate_InterleaveLO8x16 a b = do
  (_, a_low) ← split_vector a
  (_, b_low) ← split_vector b
  some (interleave2_8x8 a_low b_low)

unfoldable pub translate_InterleaveHI8x16 : Exp → Exp → Option Exp
translate_InterleaveHI8x16 a b = do
  (a_high, _) ← split_vector a
  (b_high, _) ← split_vector b
  some (interleave2_8x8 a_high b_high)

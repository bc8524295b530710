-- ===== src/Vex/Lanes.antt =====
-- SIMD operations as operations on the lanes of one or two 64-bit words (libasmir/src/vex/irtoir.cpp).
-- The source writes the same line once for each lane; here `each…` applies the line's function to the
-- lanes in the same order. A 128-bit operand must be a `vector` or an `unknown`: `none` is the failed
-- assertion of `split_vector`.
pub mod Each
pub mod Clamp
pub mod Byte
use fuzzball.Ir.Build.{
  ex_const_of, ex_eq, ex_gt, ex_ite, ex_l_cast, ex_lt, ex_s_cast, ex_shr_by, ex_slt, ex_u_cast,
}
use fuzzball.Ir.Types.{BinopT, Exp, RegT, bin_op, reg_16, reg_32, reg_8, unknown, vector}
use fuzzball.Prelude.{Bool, Option, if◌then◌else◌, none, some, ◌-◌, ◌>>=◌, ◌^◌}
use fuzzball.Vex.Assemble.{
  assemble4x8, assemble8x8, split2x32, split4x16, split4x8, split8x8, translate_32HLto64,
  translate_64HLto128,
}

-- The two halves, the high one first.
unfoldable pub split_vector : Exp → Option (Exp × Exp)
split_vector (vector high low) = some (high, low)
split_vector (unknown s) = some (unknown s, unknown s)
split_vector _ = none

unfoldable pub each4x8 : (Exp → Exp → Exp) → Exp → Exp → Exp
each4x8 g a b =
    let (a3, a2, a1, a0) = split4x8 a in
    let (b3, b2, b1, b0) = split4x8 b in assemble4x8 (g a3 b3) (g a2 b2) (g a1 b1) (g a0 b0)

unfoldable pub each8x8 : (Exp → Exp → Exp) → Exp → Exp → Exp
each8x8 g a b =
    let (ah, al) = split8x8 a in
    let (bh, bl) = split8x8 b in
    assemble8x8 (g ah.0 bh.0) (g ah.1 bh.1) (g ah.2 bh.2) (g ah.3 bh.3) (g al.0 bl.0) (g al.1 bl.1)
      (g al.2 bl.2) (g al.3 bl.3)

unfoldable pub each2x32 : (Exp → Exp → Exp) → Exp → Exp → Exp
each2x32 g a b =
    let (a1, a0) = split2x32 a in
    let (b1, b0) = split2x32 b in translate_32HLto64 (g a1 b1) (g a0 b0)

-- An operation on 64-bit words, done on both halves of vectors.
unfoldable pub each_half : (Exp → Exp → Exp) → Exp → Exp → Option Exp
unfolding split_vector
each_half g a b = do
  (a_high, a_low) ← split_vector a
  (b_high, b_low) ← split_vector b
  some (translate_64HLto128 (g a_high b_high) (g a_low b_low))

unfoldable pub translate_par4x8_binop : BinopT → Exp → Exp → Exp
translate_par4x8_binop op = each4x8 (bin_op op)

unfoldable pub translate_par8x8_binop : BinopT → Exp → Exp → Exp
translate_par8x8_binop op = each8x8 (bin_op op)

unfoldable pub translate_par2x32_binop : BinopT → Exp → Exp → Exp
translate_par2x32_binop op = each2x32 (bin_op op)

unfoldable pub translate_par16x8_binop : BinopT → Exp → Exp → Option Exp
translate_par16x8_binop op = each_half (translate_par8x8_binop op)

unfoldable pub translate_par4x32_binop : BinopT → Exp → Exp → Option Exp
translate_par4x32_binop op = each_half (translate_par2x32_binop op)

unfoldable pub translate_par2x64_binop : BinopT → Exp → Exp → Option Exp
translate_par2x64_binop op = each_half (bin_op op)

-- A lane of ones where the lanes are equal.
abbrev pub eq_mask : RegT → Exp → Exp → Exp
eq_mask t a b = ex_s_cast (ex_eq a b) t

abbrev pub sgt_mask : RegT → Exp → Exp → Exp
sgt_mask t a b = ex_s_cast (ex_slt b a) t

unfoldable pub translate_CmpEQ32x2 : Exp → Exp → Exp
translate_CmpEQ32x2 = each2x32 (eq_mask reg_32)

unfoldable pub translate_CmpEQ8x8 : Exp → Exp → Exp
translate_CmpEQ8x8 = each8x8 (eq_mask reg_8)

unfoldable pub translate_CmpGT32Sx2 : Exp → Exp → Exp
translate_CmpGT32Sx2 = each2x32 (sgt_mask reg_32)

unfoldable pub translate_CmpGT8Sx8 : Exp → Exp → Exp
translate_CmpGT8Sx8 = each8x8 (sgt_mask reg_8)

unfoldable pub translate_CmpEQ32x4 : Exp → Exp → Option Exp
translate_CmpEQ32x4 = each_half translate_CmpEQ32x2

unfoldable pub translate_CmpEQ8x16 : Exp → Exp → Option Exp
translate_CmpEQ8x16 = each_half translate_CmpEQ8x8

unfoldable pub translate_CmpGT32Sx4 : Exp → Exp → Option Exp
translate_CmpGT32Sx4 = each_half translate_CmpGT32Sx2

unfoldable pub translate_CmpGT8Sx16 : Exp → Exp → Option Exp
translate_CmpGT8Sx16 = each_half translate_CmpGT8Sx8

-- One lane of `translate_minmax8x8`.
abbrev pub minmax8 : BinopT → Bool → Exp → Exp → Exp
minmax8 op is_max a b = if is_max then ex_ite (bin_op op b a) a b else ex_ite (bin_op op a b) a b

unfoldable pub translate_minmax8x8 : BinopT → Bool → Exp → Exp → Exp
translate_minmax8x8 op is_max = each8x8 (minmax8 op is_max)

unfoldable pub translate_minmax16x8 : BinopT → Bool → Exp → Exp → Option Exp
translate_minmax16x8 op is_max = each_half (translate_minmax8x8 op is_max)

unfoldable pub halving_binop8 : BinopT → Bool → Exp → Exp → Exp
halving_binop8 op is_signed a b =
    let a16 = if is_signed then ex_s_cast a reg_16 else ex_u_cast a reg_16 in
    let b16 = if is_signed then ex_s_cast b reg_16 else ex_u_cast b reg_16 in
    let r16 = bin_op op a16 b16 in ex_l_cast (ex_shr_by r16 1) reg_8

unfoldable pub translate_halving4x8_binop : BinopT → Bool → Exp → Exp → Exp
translate_halving4x8_binop op is_signed = each4x8 (halving_binop8 op is_signed)

-- `ex_const(REG_16, -128)` converts -128 to 64 bits.
unfoldable pub saturating_binop8 : BinopT → Bool → Exp → Exp → Exp
saturating_binop8 op is_signed a b =
    let a16 = if is_signed then ex_s_cast a reg_16 else ex_u_cast a reg_16 in
    let b16 = if is_signed then ex_s_cast b reg_16 else ex_u_cast b reg_16 in
    let min_val = ex_const_of reg_16 (if is_signed then 2 ^ 64 - 128 else 0) in
    let max_val = ex_const_of reg_16 (if is_signed then 127 else 255) in
    let r16 = bin_op op a16 b16 in
    let clamped = ex_ite (ex_lt r16 min_val) min_val (ex_ite (ex_gt r16 max_val) max_val r16) in
    ex_l_cast clamped reg_8

unfoldable pub translate_saturating4x8_binop : BinopT → Bool → Exp → Exp → Exp
translate_saturating4x8_binop op is_signed = each4x8 (saturating_binop8 op is_signed)

-- The shift of each lane by one amount.
unfoldable pub translate_vs2x32_shift : BinopT → Exp → Exp → Exp
translate_vs2x32_shift op a b =
    let (a1, a0) = split2x32 a in translate_32HLto64 (bin_op op a1 b) (bin_op op a0 b)

unfoldable pub translate_vs4x32_shift : BinopT → Exp → Exp → Option Exp
unfolding split_vector
translate_vs4x32_shift op a b = do
  (a_high, a_low) ← split_vector a
  some
      (translate_64HLto128 (translate_vs2x32_shift op a_high b) (translate_vs2x32_shift op a_low b))

-- A signed 16-bit lane narrowed to an unsigned byte, with saturation.
unfoldable pub translate_QNarrow16Sto8U : Exp → Exp
translate_QNarrow16Sto8U a =
    ex_ite (ex_slt a (ex_const_of reg_16 0)) (ex_const_of reg_8 0)
      (ex_ite (ex_slt (ex_const_of reg_16 255) a) (ex_const_of reg_8 255) (ex_l_cast a reg_8))

unfoldable pub translate_QNarrow16Sto8Ux8 : Exp → Option Exp
unfolding split_vector
translate_QNarrow16Sto8Ux8 a = do
  (a_high, a_low) ← split_vector a
  let (ah3, ah2, ah1, ah0) = split4x16 a_high
  let (al3, al2, al1, al0) = split4x16 a_low
  some (
      assemble8x8 (translate_QNarrow16Sto8U ah3) (translate_QNarrow16Sto8U ah2)
        (translate_QNarrow16Sto8U ah1) (translate_QNarrow16Sto8U ah0) (translate_QNarrow16Sto8U al3)
        (translate_QNarrow16Sto8U al2) (translate_QNarrow16Sto8U al1)
        (translate_QNarrow16Sto8U al0))

unfoldable pub translate_QNarrowBin16Sto8Ux16 : Exp → Exp → Option Exp
translate_QNarrowBin16Sto8Ux16 a b = do
  r_h ← translate_QNarrow16Sto8Ux8 a
  r_l ← translate_QNarrow16Sto8Ux8 b
  some (translate_64HLto128 r_h r_l)

-- ===== src/Vex/Multiply.antt =====
-- Widening multiplication and double-width division of words of up to 32 bits
-- (libasmir/src/vex/irtoir.cpp).
pub mod Laws
use fuzzball.Ir.Types.{
  Exp, bin_op, cast, cast_signed, cast_unsigned, divide, modulo, reg_16, reg_32, reg_64, sdivide,
  smod, times,
}
use fuzzball.Vex.Assemble.{translate_64HLto64}

unfoldable pub translate_DivModU64to32 : Exp → Exp → Exp
translate_DivModU64to32 arg1 arg2 =
    let arg2 = cast arg2 reg_64 cast_unsigned in
    translate_64HLto64 (bin_op modulo arg1 arg2) (bin_op divide arg1 arg2)

unfoldable pub translate_DivModS64to32 : Exp → Exp → Exp
translate_DivModS64to32 arg1 arg2 =
    let arg2 = cast arg2 reg_64 cast_signed in
    translate_64HLto64 (bin_op smod arg1 arg2) (bin_op sdivide arg1 arg2)

unfoldable pub translate_MullU8 : Exp → Exp → Exp
translate_MullU8 arg1 arg2 =
    bin_op times (cast arg1 reg_16 cast_unsigned) (cast arg2 reg_16 cast_unsigned)

unfoldable pub translate_MullS8 : Exp → Exp → Exp
translate_MullS8 arg1 arg2 =
    bin_op times (cast arg1 reg_16 cast_signed) (cast arg2 reg_16 cast_signed)

unfoldable pub translate_MullU16 : Exp → Exp → Exp
translate_MullU16 arg1 arg2 =
    bin_op times (cast arg1 reg_32 cast_unsigned) (cast arg2 reg_32 cast_unsigned)

unfoldable pub translate_MullS16 : Exp → Exp → Exp
translate_MullS16 arg1 arg2 =
    bin_op times (cast arg1 reg_32 cast_signed) (cast arg2 reg_32 cast_signed)

unfoldable pub translate_MullU32 : Exp → Exp → Exp
translate_MullU32 arg1 arg2 =
    bin_op times (cast arg1 reg_64 cast_unsigned) (cast arg2 reg_64 cast_unsigned)

unfoldable pub translate_MullS32 : Exp → Exp → Exp
translate_MullS32 arg1 arg2 =
    bin_op times (cast arg1 reg_64 cast_signed) (cast arg2 reg_64 cast_signed)

-- ===== src/Ir/Build.antt =====
-- The shorthand functions of libasmir/src/ir/exp.cpp that build expressions. Each has a form that
-- copies its arguments (`ex_add`) and one that does not (`_ex_add`). A copy is an equal tree,
-- so one definition stands for both. A suffix counts the arguments of an overload.
use fuzzball.Ir.Types.{
  Exp, RegT, arshift, bin_op, bitand, bitor, cast, cast_high, cast_low, cast_sfix, cast_sfloat,
  cast_signed, cast_ufix, cast_ufloat, cast_unsigned, constant, divide, eq, fcast, ge, gt, ite, le,
  lshift, lt, minus, modulo, name, neg, neq, not, plus, reg_1, reg_32, reg_64, round_nearest,
  rshift, sle, slt, times, un_op, vector, xor,
}
use fuzzball.Prelude.{String, ℕ}

-- `ex_const(uint32_t)`
abbrev pub ex_const : ℕ → Exp
ex_const value = constant reg_32 value

abbrev pub ex_const64 : ℕ → Exp
ex_const64 value = constant reg_64 value

-- `ex_const(reg_t, const_val_t)`
abbrev pub ex_const_of : RegT → ℕ → Exp
ex_const_of t value = constant t value

-- The address size is a global variable of the source, here the first argument.
abbrev pub ex_addr_const : RegT → ℕ → Exp
ex_addr_const reg_address_t value = constant reg_address_t value

abbrev pub ex_name : String → Exp
ex_name n = name n

abbrev pub ex_not : Exp → Exp
ex_not arg = un_op not arg

abbrev pub ex_neg : Exp → Exp
ex_neg arg = un_op neg arg

abbrev pub ex_add : Exp → Exp → Exp
ex_add arg1 arg2 = bin_op plus arg1 arg2

abbrev pub ex_sub : Exp → Exp → Exp
ex_sub arg1 arg2 = bin_op minus arg1 arg2

abbrev pub ex_mul : Exp → Exp → Exp
ex_mul arg1 arg2 = bin_op times arg1 arg2

abbrev pub ex_div : Exp → Exp → Exp
ex_div arg1 arg2 = bin_op divide arg1 arg2

abbrev pub ex_mod : Exp → Exp → Exp
ex_mod arg1 arg2 = bin_op modulo arg1 arg2

abbrev pub ex_and : Exp → Exp → Exp
ex_and arg1 arg2 = bin_op bitand arg1 arg2

abbrev pub ex_or : Exp → Exp → Exp
ex_or arg1 arg2 = bin_op bitor arg1 arg2

abbrev pub ex_xor : Exp → Exp → Exp
ex_xor arg1 arg2 = bin_op xor arg1 arg2

abbrev pub ex_shl : Exp → Exp → Exp
ex_shl arg1 arg2 = bin_op lshift arg1 arg2

abbrev pub ex_shr : Exp → Exp → Exp
ex_shr arg1 arg2 = bin_op rshift arg1 arg2

abbrev pub ex_sar : Exp → Exp → Exp
ex_sar arg1 arg2 = bin_op arshift arg1 arg2

abbrev pub ex_eq : Exp → Exp → Exp
ex_eq arg1 arg2 = bin_op eq arg1 arg2

abbrev pub ex_neq : Exp → Exp → Exp
ex_neq arg1 arg2 = bin_op neq arg1 arg2

abbrev pub ex_gt : Exp → Exp → Exp
ex_gt arg1 arg2 = bin_op gt arg1 arg2

abbrev pub ex_lt : Exp → Exp → Exp
ex_lt arg1 arg2 = bin_op lt arg1 arg2

abbrev pub ex_ge : Exp → Exp → Exp
ex_ge arg1 arg2 = bin_op ge arg1 arg2

abbrev pub ex_le : Exp → Exp → Exp
ex_le arg1 arg2 = bin_op le arg1 arg2

abbrev pub ex_slt : Exp → Exp → Exp
ex_slt arg1 arg2 = bin_op slt arg1 arg2

abbrev pub ex_sle : Exp → Exp → Exp
ex_sle arg1 arg2 = bin_op sle arg1 arg2

abbrev pub ex_and_3 : Exp → Exp → Exp → Exp
ex_and_3 arg1 arg2 arg3 = ex_and arg1 (ex_and arg2 arg3)

abbrev pub ex_or_3 : Exp → Exp → Exp → Exp
ex_or_3 arg1 arg2 arg3 = ex_or arg1 (ex_or arg2 arg3)

abbrev pub ex_xor_3 : Exp → Exp → Exp → Exp
ex_xor_3 arg1 arg2 arg3 = ex_xor arg1 (ex_xor arg2 arg3)

abbrev pub ex_and_7 : Exp → Exp → Exp → Exp → Exp → Exp → Exp → Exp
ex_and_7 arg1 arg2 arg3 arg4 arg5 arg6 arg7 =
    ex_and_3 (ex_and_3 arg1 arg2 arg3) (ex_and_3 arg4 arg5 arg6) arg7

abbrev pub ex_or_4 : Exp → Exp → Exp → Exp → Exp
ex_or_4 arg1 arg2 arg3 arg4 = ex_or (ex_or arg1 arg2) (ex_or arg3 arg4)

abbrev pub ex_or_6 : Exp → Exp → Exp → Exp → Exp → Exp → Exp
ex_or_6 arg1 arg2 arg3 arg4 arg5 arg6 = ex_or (ex_or_3 arg1 arg2 arg3) (ex_or_3 arg4 arg5 arg6)

abbrev pub ex_or_7 : Exp → Exp → Exp → Exp → Exp → Exp → Exp → Exp
ex_or_7 arg1 arg2 arg3 arg4 arg5 arg6 arg7 =
    ex_or_3 (ex_or_3 arg1 arg2 arg3) (ex_or_3 arg4 arg5 arg6) arg7

abbrev pub ex_xor_4 : Exp → Exp → Exp → Exp → Exp
ex_xor_4 arg1 arg2 arg3 arg4 = ex_xor (ex_xor arg1 arg2) (ex_xor arg3 arg4)

abbrev pub ex_xor_8 : Exp → Exp → Exp → Exp → Exp → Exp → Exp → Exp → Exp
ex_xor_8 arg1 arg2 arg3 arg4 arg5 arg6 arg7 arg8 =
    ex_xor (ex_xor_4 arg1 arg2 arg3 arg4) (ex_xor_4 arg5 arg6 arg7 arg8)

-- The overload with an `int` amount.
abbrev pub ex_shl_by : Exp → ℕ → Exp
ex_shl_by arg1 arg2 = bin_op lshift arg1 (ex_const arg2)

-- The overload with an `int` amount.
abbrev pub ex_shr_by : Exp → ℕ → Exp
ex_shr_by arg1 arg2 = bin_op rshift arg1 (ex_const arg2)

-- The overload with an `int` amount.
abbrev pub ex_sar_by : Exp → ℕ → Exp
ex_sar_by arg1 arg2 = bin_op arshift arg1 (ex_const arg2)

abbrev pub ex_u_cast : Exp → RegT → Exp
ex_u_cast arg width = cast arg width cast_unsigned

abbrev pub ex_s_cast : Exp → RegT → Exp
ex_s_cast arg width = cast arg width cast_signed

abbrev pub ex_h_cast : Exp → RegT → Exp
ex_h_cast arg width = cast arg width cast_high

abbrev pub ex_l_cast : Exp → RegT → Exp
ex_l_cast arg width = cast arg width cast_low

abbrev pub ex_is_cast : Exp → RegT → Exp
ex_is_cast arg width = fcast arg width cast_sfix round_nearest

abbrev pub ex_iu_cast : Exp → RegT → Exp
ex_iu_cast arg width = fcast arg width cast_ufix round_nearest

abbrev pub ex_fs_cast : Exp → RegT → Exp
ex_fs_cast arg width = fcast arg width cast_sfloat round_nearest

abbrev pub ex_fu_cast : Exp → RegT → Exp
ex_fu_cast arg width = fcast arg width cast_ufloat round_nearest

abbrev pub ex_vector2x64 : Exp → Exp → Exp
ex_vector2x64 h l = vector h l

abbrev pub ex_ite : Exp → Exp → Exp → Exp
ex_ite c t f = ite c t f

abbrev pub ex_get_bit : Exp → ℕ → Exp
ex_get_bit e which = ex_l_cast (ex_shr e (ex_const_of reg_32 which)) reg_1

-- ===== src/I386/Flags/Arithmetic.antt =====
-- The flags of addition, subtraction and comparison, with and without carry.
use fuzzball.I386.Flags.{
  c_n1, c_of, c_type_size_less_1, cond_af, emit, low_bit_set, mask_overflow, mk_reg, narrow32,
  set_flag, set_pf,
}
use fuzzball.I386.Flags.Compare.{difference}
use fuzzball.Ir.Build.{
  ex_add, ex_and, ex_eq, ex_h_cast, ex_le, ex_lt, ex_not, ex_or, ex_shr, ex_slt, ex_sub, ex_xor,
  ex_xor_3,
}
use fuzzball.Ir.Types.{Exp, RegT, reg_1, reg_32}
use fuzzball.Stmt.{Decimal, move}
use fuzzball.Stmt.Emit.{mk_temp}
use fuzzball.Stmt.Fallible.{Fallible, given, lift, ◌>>=◌, ◌>>◌}

-- `arg1 ^ arg2 ^ -1` and `arg1 ^ res` agree in the sign bit: an addition overflows.
abbrev pub cond_of_add : RegT → Exp → Exp → Exp → Exp
cond_of_add type res arg1 arg2 =
    low_bit_set
      (ex_shr (ex_and (ex_xor_3 arg1 arg2 c_n1) (ex_xor arg1 res)) (c_type_size_less_1 type))

module _ (d : Decimal) where
  unfoldable pub mod_eflags_add : RegT → Exp → Exp → Fallible Unit
  mod_eflags_add type arg1 arg2 = do
    res ← lift (mk_temp d reg_32)
    sum ← given (mask_overflow (ex_add arg1 arg2) type)
    emit (move res sum)
    set_flag type (mk_reg "CF" reg_1) (ex_lt res arg1)
    set_pf d type res
    set_flag type (mk_reg "AF" reg_1) (cond_af res arg1 arg2)
    set_flag type (mk_reg "ZF" reg_1) (ex_eq res (c_of 0))
    set_flag type (mk_reg "SF" reg_1) (low_bit_set (ex_shr res (c_type_size_less_1 type)))
    set_flag type (mk_reg "OF" reg_1) (cond_of_add type res arg1 arg2)

  unfoldable pub mod_eflags_sub : RegT → Exp → Exp → Fallible Unit
  mod_eflags_sub type arg1 arg2 = do
    res ← lift (mk_temp d reg_32)
    difference ← given (mask_overflow (ex_sub arg1 arg2) type)
    emit (move res difference)
    set_flag type (mk_reg "CF" reg_1) (ex_lt arg1 arg2)
    set_pf d type res
    set_flag type (mk_reg "AF" reg_1) (cond_af res arg1 arg2)
    set_flag type (mk_reg "ZF" reg_1) (ex_eq res (c_of 0))
    let cond_sf = ex_h_cast (narrow32 res type) reg_1
    set_flag type (mk_reg "SF" reg_1) cond_sf
    set_flag type (mk_reg "OF" reg_1)
        (ex_xor cond_sf (ex_slt (narrow32 arg1 type) (narrow32 arg2 type)))

  -- VEX hands over the second argument combined with the old carry.
  unfoldable pub mod_eflags_adc : RegT → Exp → Exp → Exp → Fallible Unit
  mod_eflags_adc type arg1 dep2 ndep = do
    res ← lift (mk_temp d reg_32)
    let arg3 = ex_and ndep (c_of 1)
    let arg2 = ex_xor dep2 arg3
    sum ← given (mask_overflow (ex_add (ex_add arg1 arg2) arg3) type)
    emit (move res sum)
    set_flag type (mk_reg "CF" reg_1) (
        ex_or (ex_and (ex_eq arg3 (c_of 1)) (ex_le res arg1))
          (ex_and (ex_eq arg3 (c_of 0)) (ex_lt res arg1)))
    set_pf d type res
    set_flag type (mk_reg "AF" reg_1) (cond_af res arg1 arg2)
    set_flag type (mk_reg "ZF" reg_1) (ex_eq res (c_of 0))
    set_flag type (mk_reg "SF" reg_1) (low_bit_set (ex_shr res (c_type_size_less_1 type)))
    set_flag type (mk_reg "OF" reg_1) (cond_of_add type res arg1 arg2)

  unfoldable pub mod_eflags_sbb : RegT → Exp → Exp → Exp → Fallible Unit
  mod_eflags_sbb type arg1 dep2 ndep = do
    res ← lift (mk_temp d reg_32)
    let arg3 = ex_and ndep (c_of 1)
    let arg2 = ex_xor dep2 arg3
    difference ← given (mask_overflow (ex_sub (ex_sub arg1 arg2) arg3) type)
    emit (move res difference)
    set_flag type (mk_reg "CF" reg_1) (
        ex_or (ex_and (ex_eq arg3 (c_of 0)) (ex_lt arg1 arg2))
          (ex_and (ex_not (ex_eq arg3 (c_of 0))) (ex_le arg1 arg2)))
    set_pf d type res
    set_flag type (mk_reg "AF" reg_1) (cond_af res arg1 arg2)
    set_flag type (mk_reg "ZF" reg_1) (ex_eq res (c_of 0))
    set_flag type (mk_reg "SF" reg_1) (low_bit_set (ex_shr res (c_type_size_less_1 type)))
    set_flag type (mk_reg "OF" reg_1) (
        low_bit_set
          (ex_shr (ex_and (ex_xor arg1 arg2) (ex_xor arg1 res)) (c_type_size_less_1 type)))

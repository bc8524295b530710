-- ===== src/I386/Flags/Shift.antt =====
-- The flags of shifts and rotations.
use fuzzball.I386.Flags.{
  c_of, c_type_size_less_1, emit, flag_false, flag_true, low_bit_set, mk_reg, set_flag, set_pf,
}
use fuzzball.Ir.Build.{ex_and, ex_const, ex_eq, ex_l_cast, ex_shr, ex_xor}
use fuzzball.Ir.Types.{Exp, RegT, reg_1, reg_16, reg_8, reg_to_bits}
use fuzzball.Prelude.{ℕ, ◌%◌, ◌+◌, ◌-◌, ◌^◌}
use fuzzball.Stmt.{Decimal, move}
use fuzzball.Stmt.Fallible.{Fallible, ◌>>◌}

-- The narrow bits of the result, which VEX computes with 32 bits.
abbrev narrow_result : RegT → Exp → Exp
narrow_result reg_8 arg1 = ex_and arg1 (c_of (2 ^ 8 - 1))
narrow_result reg_16 arg1 = ex_and arg1 (c_of (2 ^ 16 - 1))
narrow_result type arg1 = arg1

-- The sign bit, as a flag.
abbrev sign_bit : RegT → Exp → Exp
sign_bit type e = ex_l_cast (ex_shr e (c_type_size_less_1 type)) reg_1

-- `type_size - 2`, as `ex_const(uint32_t)` takes it.
abbrev pub type_size_less_2 : RegT → ℕ
type_size_less_2 type = (reg_to_bits type + (2 ^ 32 - 2)) % 2 ^ 32

unfoldable pub mod_eflags_rol : RegT → Exp → Exp → Exp → Fallible Unit
mod_eflags_rol type arg1 arg2 arg3 = do
  set_flag type (mk_reg "CF" reg_1) (ex_l_cast arg1 reg_1)
  set_flag type (mk_reg "OF" reg_1)
      (ex_xor (mk_reg "CF" reg_1) (ex_l_cast (ex_shr arg1 (ex_const (reg_to_bits type - 1))) reg_1))

unfoldable pub mod_eflags_ror : RegT → Exp → Exp → Exp → Fallible Unit
mod_eflags_ror type arg1 arg2 arg3 = do
  set_flag type (mk_reg "CF" reg_1) (sign_bit type arg1)
  set_flag type (mk_reg "OF" reg_1) (
      ex_xor (mk_reg "CF" reg_1) (ex_l_cast (ex_shr arg1 (ex_const (type_size_less_2 type))) reg_1))

module _ (d : Decimal) where
  unfoldable pub mod_eflags_shl : RegT → Exp → Exp → Fallible Unit
  mod_eflags_shl type arg1 arg2 = do
    let res = narrow_result type arg1
    emit (move (mk_reg "CF" reg_1) (ex_and (sign_bit type arg2) flag_true))
    set_pf d type res
    emit (move (mk_reg "AF" reg_1) flag_false)
    set_flag type (mk_reg "ZF" reg_1) (ex_eq res (c_of 0))
    set_flag type (mk_reg "SF" reg_1) (low_bit_set (ex_shr res (c_type_size_less_1 type)))
    set_flag type (mk_reg "OF" reg_1) (ex_and (sign_bit type (ex_xor arg1 arg2)) flag_true)

  unfoldable pub mod_eflags_shr : RegT → Exp → Exp → Fallible Unit
  mod_eflags_shr type res arg2 = do
    emit (move (mk_reg "CF" reg_1) (ex_l_cast arg2 reg_1))
    set_pf d type res
    emit (move (mk_reg "AF" reg_1) flag_false)
    set_flag type (mk_reg "ZF" reg_1) (ex_eq res (c_of 0))
    set_flag type (mk_reg "SF" reg_1) (low_bit_set (ex_shr res (c_type_size_less_1 type)))
    set_flag type (mk_reg "OF" reg_1) (ex_and (sign_bit type (ex_xor res arg2)) flag_true)

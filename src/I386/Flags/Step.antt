-- ===== src/I386/Flags/Step.antt =====
-- The flags of increment and decrement.
use fuzzball.I386.Flags.{
  c_of, c_type_size_less_1, cond_af, emit, flag_true, low_bit_set, mk_reg, set_flag, set_pf,
}
use fuzzball.Ir.Build.{ex_add, ex_and, ex_eq, ex_l_cast, ex_shr, ex_sub}
use fuzzball.Ir.Types.{Exp, RegT, reg_1, reg_16, reg_8, reg_to_bits}
use fuzzball.Prelude.{Option, if◌then◌else◌, ltb, none, some, ℕ, ◌-◌, ◌==◌, ◌^◌}
use fuzzball.Stmt.{Decimal, move}
use fuzzball.Stmt.Fallible.{Fallible, given, ◌>>=◌, ◌>>◌}

-- `1 << k` of type `int`, as a 64-bit constant: the sign extends, and larger shifts are undefined.
unfoldable pub one_shifted : ℕ → Option ℕ
one_shifted k = if ltb k 31 then some (2 ^ k) else if k == 31 then some (2 ^ 64 - 2 ^ 31) else none

abbrev data_mask : RegT → ℕ
data_mask reg_8 = 255
data_mask reg_16 = 65535
data_mask type = 4294967295

module _ (d : Decimal) where
  -- The carry flag stays as it is.
  unfoldable pub mod_eflags_inc : RegT → Exp → Exp → Exp → Fallible Unit
  mod_eflags_inc type res arg2 arg3 = do
    sign_mask ← given (one_shifted (reg_to_bits type - 1))
    set_pf d type res
    set_flag type (mk_reg "AF" reg_1) (cond_af res (ex_sub res (c_of 1)) (c_of 1))
    set_flag type (mk_reg "ZF" reg_1) (ex_eq res (c_of 0))
    set_flag type (mk_reg "SF" reg_1) (low_bit_set (ex_shr res (c_type_size_less_1 type)))
    set_flag type (mk_reg "OF" reg_1) (ex_eq (ex_and res (c_of (data_mask type))) (c_of sign_mask))

  unfoldable pub mod_eflags_dec : RegT → Exp → Exp → Exp → Fallible Unit
  mod_eflags_dec type res arg2 arg3 = do
    sign_mask ← given (one_shifted (reg_to_bits type - 1))
    emit (move (mk_reg "CF" reg_1) (ex_and (ex_l_cast (ex_shr arg3 (c_of 0)) reg_1) flag_true))
    set_pf d type res
    set_flag type (mk_reg "AF" reg_1) (cond_af res (ex_add res (c_of 1)) (c_of 1))
    set_flag type (mk_reg "ZF" reg_1) (ex_eq res (c_of 0))
    set_flag type (mk_reg "SF" reg_1) (low_bit_set (ex_shr res (c_type_size_less_1 type)))
    set_flag type (mk_reg "OF" reg_1)
        (ex_eq (ex_and res (c_of (data_mask type))) (ex_sub (c_of sign_mask) (c_of 1)))

-- ===== src/I386/Flags.antt =====
-- Statements that set the x86 status flags (libasmir/src/vex/irtoir-i386.cpp). The vector of statements that a
-- function of the source returns is what it emits to an output that starts empty.
pub mod Add
pub mod Arithmetic
pub mod Compare
pub mod Multiply
pub mod Run
pub mod Copy
pub mod Logic
pub mod Result
pub mod Rotation
pub mod Shift
pub mod Subtract
pub mod Sum
pub mod Step
use Prim.Native.String.{◌++◌ as append}
use fuzzball.Ir.Build.{
  ex_and, ex_const, ex_const_of, ex_eq, ex_l_cast, ex_not, ex_shr, ex_xor_3, ex_xor_8,
}
use fuzzball.Ir.Eval.{flag}
use fuzzball.Ir.Types.{Exp, RegT, constant, reg_1, reg_16, reg_32, reg_8, reg_to_bits, temp}
use fuzzball.Prelude.{Option, String, [], none, some, ℕ, ◌++◌, ◌-◌, ◌^◌, ◌∷◌}
use fuzzball.Stmt.{Decimal, Stmt, move}
use fuzzball.Stmt.Emit.{mk_temp}
use fuzzball.Stmt.Fallible.{Fallible, lift, ◌>>=◌, ◌>>◌}

-- A register is a variable with the prefix `R_`.
abbrev pub mk_reg : String → RegT → Exp
mk_reg n width = temp width (append "R_" n)

-- `irout->push_back`.
abbrev pub emit : Stmt → Fallible Unit
emit s o = some (tt, record o { stmts = o.stmts ++ s ∷ [] })

unfoldable pub set_flag : RegT → Exp → Exp → Fallible Unit
set_flag type flag cond = emit (move flag cond)

abbrev cf_mask : ℕ
cf_mask = 1

abbrev pf_mask : ℕ
pf_mask = 2 ^ 2

abbrev af_mask : ℕ
af_mask = 2 ^ 4

abbrev zf_mask : ℕ
zf_mask = 2 ^ 6

abbrev sf_mask : ℕ
sf_mask = 2 ^ 7

abbrev of_mask : ℕ
of_mask = 2 ^ 11

-- The flag of a mask and a position in the flags word.
abbrev pub eflags_bit : Exp → ℕ → ℕ → Exp
eflags_bit from mask at = ex_l_cast (ex_shr (ex_and from (ex_const mask)) (ex_const at)) reg_1

unfoldable pub get_eflags_bits : Exp → Fallible Unit
get_eflags_bits from = do
  emit (move (mk_reg "CF" reg_1) (eflags_bit from cf_mask 0))
  emit (move (mk_reg "PF" reg_1) (eflags_bit from pf_mask 2))
  emit (move (mk_reg "AF" reg_1) (eflags_bit from af_mask 4))
  emit (move (mk_reg "ZF" reg_1) (eflags_bit from zf_mask 6))
  emit (move (mk_reg "SF" reg_1) (eflags_bit from sf_mask 7))
  emit (move (mk_reg "OF" reg_1) (eflags_bit from of_mask 11))

-- The constants of the functions below.
abbrev pub c_of : ℕ → Exp
c_of v = constant reg_32 v

-- `(address_t)-1`, of 64 bits.
abbrev pub c_n1 : Exp
c_n1 = constant reg_32 (2 ^ 64 - 1)

abbrev pub c_type_size_less_1 : RegT → Exp
c_type_size_less_1 type = constant reg_32 (reg_to_bits type - 1)

-- `CALC_COND_PF`: whether the number of 1 bits of the byte is even.
abbrev pub calc_cond_pf : Exp → Exp
calc_cond_pf pf8 = ex_not (
    ex_l_cast
      (ex_xor_8 (ex_shr pf8 (c_of 7)) (ex_shr pf8 (c_of 6)) (ex_shr pf8 (c_of 5))
        (ex_shr pf8 (c_of 4)) (ex_shr pf8 (c_of 3)) (ex_shr pf8 (c_of 2)) (ex_shr pf8 (c_of 1)) pf8)
      reg_1)

-- Other types fail an assertion.
unfoldable pub mask_overflow : Exp → RegT → Option Exp
mask_overflow e reg_32 = some e
mask_overflow e reg_8 = some (ex_and e (ex_const_of reg_32 255))
mask_overflow e reg_16 = some (ex_and e (ex_const_of reg_32 65535))
mask_overflow e _ = none

-- `_narrow32` and `narrow32`, which differ in the copy of the argument.
abbrev pub narrow32 : Exp → RegT → Exp
narrow32 e reg_32 = e
narrow32 e type = ex_l_cast e type

-- The bit of a word at the position of the constant, compared with 1.
abbrev pub low_bit_set : Exp → Exp
low_bit_set e = ex_eq (c_of 1) (ex_and (c_of 1) e)

-- The carry between the two lowest hexadecimal digits.
abbrev pub cond_af : Exp → Exp → Exp → Exp
cond_af res arg1 arg2 = ex_eq (c_of 16) (ex_and (c_of 16) (ex_xor_3 res arg1 arg2))

abbrev pub flag_false : Exp
flag_false = constant reg_1 0

abbrev pub flag_true : Exp
flag_true = constant reg_1 1

unfoldable pub mod_eflags_copy : RegT → Exp → Exp → Fallible Unit
mod_eflags_copy type arg1 arg2 = get_eflags_bits arg1

module _ (d : Decimal) where
  -- The parity flag, computed from a copy of the lowest byte of the result.
  abbrev pub set_pf : RegT → Exp → Fallible Unit
  set_pf type res = do
    pf8 ← lift (mk_temp d reg_8)
    emit (move pf8 (ex_l_cast res reg_8))
    set_flag type (mk_reg "PF" reg_1) (calc_cond_pf pf8)

  unfoldable pub mod_eflags_logic : RegT → Exp → Exp → Fallible Unit
  mod_eflags_logic type arg1 arg2 = do
    emit (move (mk_reg "CF" reg_1) flag_false)
    set_pf type arg1
    emit (move (mk_reg "AF" reg_1) flag_false)
    set_flag type (mk_reg "ZF" reg_1) (ex_eq arg1 (c_of 0))
    set_flag type (mk_reg "SF" reg_1) (low_bit_set (ex_shr arg1 (c_type_size_less_1 type)))
    emit (move (mk_reg "OF" reg_1) flag_false)

-- ===== src/I386/Conditions.antt =====
-- The calls of VEX's helpers that read the status flags (`i386_translate_ccall` of
-- libasmir/src/vex/irtoir-i386.cpp): the value of a condition code, the carry, and the flags word.
pub mod Control
pub mod Laws
pub mod Word
use fuzzball.I386.Flags.{c_of, emit, mk_reg}
use fuzzball.Ir.Build.{ex_and, ex_const, ex_shr, ex_not, ex_or, ex_or_6, ex_shl, ex_u_cast, ex_xor}
use fuzzball.Ir.Types.{Exp, name, reg_1, reg_32, reg_64}
use fuzzball.Prelude.{Bool, Option, String, [], none, some, true, false, ℕ}
use fuzzball.Stmt.{call}
use fuzzball.Stmt.Fallible.{Fallible, given, pure, ◌>>=◌, ◌>>◌}

-- The condition codes, numbered from 0 in this order.
pub data X86Condcode : Type 0 where
  cond_o cond_no cond_b cond_nb cond_z cond_nz : X86Condcode
  cond_be cond_nbe cond_s cond_ns cond_p cond_np : X86Condcode
  cond_l cond_nl cond_le cond_nle cond_always : X86Condcode

abbrev pub cf : Exp
cf = mk_reg "CF" reg_1

abbrev pub pf : Exp
pf = mk_reg "PF" reg_1

abbrev pub af : Exp
af = mk_reg "AF" reg_1

abbrev pub zf : Exp
zf = mk_reg "ZF" reg_1

abbrev pub sf : Exp
sf = mk_reg "SF" reg_1

abbrev pub ov : Exp
ov = mk_reg "OF" reg_1

-- The switch on the condition code, which panics at any other.
unfoldable pub condition_flag : X86Condcode → Option Exp
condition_flag cond_o = some ov
condition_flag cond_no = some (ex_not ov)
condition_flag cond_b = some cf
condition_flag cond_nb = some (ex_not cf)
condition_flag cond_z = some zf
condition_flag cond_nz = some (ex_not zf)
condition_flag cond_s = some sf
condition_flag cond_ns = some (ex_not sf)
condition_flag cond_p = some pf
condition_flag cond_np = some (ex_not pf)
condition_flag cond_be = some (ex_or cf zf)
condition_flag cond_nbe = some (ex_not (ex_or cf zf))
condition_flag cond_l = some (ex_xor sf ov)
condition_flag cond_nl = some (ex_not (ex_xor sf ov))
condition_flag cond_le = some (ex_or (ex_xor sf ov) zf)
condition_flag cond_nle = some (ex_not (ex_or (ex_xor sf ov) zf))
condition_flag cond_always = none

-- The call of a function of the flags thunk, where `use_eflags_thunks` is set.
unfoldable pub call_thunk : Bool → String → Fallible Unit
call_thunk true f = emit (call none (name f) [])
call_thunk false f = pure tt

unfoldable pub calculate_condition : Bool → X86Condcode → Fallible Exp
calculate_condition use_eflags_thunks arg = do
  call_thunk use_eflags_thunks "x86g_calculate_eflags_all"
  e ← given (condition_flag arg)
  pure (ex_u_cast e reg_32)

unfoldable pub calculate_eflags_c : Bool → Fallible Exp
calculate_eflags_c use_eflags_thunks = do
  call_thunk use_eflags_thunks "x86g_calculate_eflags_c"
  pure (ex_u_cast cf reg_32)

-- A flag at its position of the flags word.
abbrev pub at_pos : Exp → ℕ → Exp
at_pos flag pos = ex_shl (ex_u_cast flag reg_32) (c_of pos)

abbrev pub flags_word : Exp
flags_word =
    ex_or_6 (at_pos cf 0) (at_pos pf 2) (at_pos af 4) (at_pos zf 6) (at_pos sf 7) (at_pos ov 11)

unfoldable pub calculate_eflags_all : Bool → Fallible Exp
calculate_eflags_all use_eflags_thunks = do
  call_thunk use_eflags_thunks "x86g_calculate_eflags_all"
  pure flags_word

-- The control words of the vector unit and the x87 unit, from a rounding mode, and the mode in one.
unfoldable pub create_mxcsr : Exp → Exp
create_mxcsr arg = ex_or (ex_const 0x1f80) (ex_shl arg (ex_const 13))

unfoldable pub create_fpucw : Exp → Exp
create_fpucw arg = ex_or (ex_const 0x037f) (ex_shl arg (ex_const 10))

unfoldable pub check_ldmxcsr : Exp → Exp
check_ldmxcsr arg = ex_u_cast (ex_and (ex_shr arg (ex_const 13)) (ex_const 3)) reg_64

unfoldable pub check_fldcw : Exp → Exp
check_fldcw arg = ex_u_cast (ex_and (ex_shr arg (ex_const 10)) (ex_const 3)) reg_64

-- ===== src/I386/Flags/Multiply.antt =====
-- The flags of multiplication.
use fuzzball.I386.Flags.{c_type_size_less_1, emit, flag_false, mk_reg, set_flag, set_pf}
use fuzzball.Ir.Build.{
  ex_const_of, ex_eq, ex_h_cast, ex_l_cast, ex_mul, ex_neq, ex_s_cast, ex_sar, ex_shr, ex_u_cast,
}
use fuzzball.Ir.Types.{Exp, RegT, reg_1, reg_16, reg_32, reg_64, reg_8}
use fuzzball.Prelude.{Option, none, some}
use fuzzball.Stmt.{Decimal, move}
use fuzzball.Stmt.Emit.{mk_temp}
use fuzzball.Stmt.Fallible.{Fallible, given, lift, ◌>>=◌, ◌>>◌}

-- The type of the product. `mod_eflags_umul` panics at other types, and `mod_eflags_smul` uses a null pointer.
unfoldable pub res_type : RegT → Option RegT
res_type reg_8 = some reg_16
res_type reg_16 = some reg_32
res_type reg_32 = some reg_64
res_type _ = none

module _ (d : Decimal) where
  -- What the two functions share: the product of the two casts, its halves, and the flags from these, where
  -- `cond_cf` tests the halves.
  abbrev product_flags : RegT → (Exp → RegT → Exp) → (Exp → Exp → Exp) → Exp → Exp → Fallible Unit
  product_flags type widen cond_cf arg1 arg2 = do
    wide ← given (res_type type)
    res ← lift (mk_temp d wide)
    lo ← lift (mk_temp d type)
    hi ← lift (mk_temp d type)
    emit (move res (ex_mul (widen (ex_l_cast arg1 type) wide) (widen (ex_l_cast arg2 type) wide)))
    emit (move lo (ex_l_cast res type))
    emit (move hi (ex_h_cast res type))
    set_flag type (mk_reg "CF" reg_1) (cond_cf lo hi)
    set_pf d type res
    emit (move (mk_reg "AF" reg_1) flag_false)
    set_flag type (mk_reg "ZF" reg_1) (ex_eq lo (ex_const_of type 0))
    set_flag type (mk_reg "SF" reg_1) (ex_l_cast (ex_shr lo (c_type_size_less_1 type)) reg_1)
    emit (move (mk_reg "OF" reg_1) (mk_reg "CF" reg_1))

  unfoldable pub mod_eflags_umul : RegT → Exp → Exp → Fallible Unit
  mod_eflags_umul type = product_flags type ex_u_cast (λ lo hi. ex_neq hi (ex_const_of type 0))

  unfoldable pub mod_eflags_smul : RegT → Exp → Exp → Fallible Unit
  mod_eflags_smul type =
      product_flags type ex_s_cast (λ lo hi. ex_neq hi (ex_sar lo (c_type_size_less_1 type)))

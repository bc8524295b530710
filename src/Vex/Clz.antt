-- ===== src/Vex/Clz.antt =====
-- Counting leading zeros without branches (`clz64_ite` of libasmir/src/vex/irtoir.cpp).
pub mod Count
pub mod Laws
use fuzzball.Ir.Build.{
  ex_add, ex_const, ex_const64, ex_const_of, ex_eq, ex_ge, ex_h_cast, ex_ite, ex_l_cast, ex_le,
  ex_or, ex_or_4, ex_shl, ex_shr, ex_u_cast,
}
use fuzzball.Ir.Types.{Exp, reg_1, reg_16, reg_32, reg_8}
use fuzzball.Stmt.{Decimal}
use fuzzball.Stmt.Emit.{Emit, mk_temp_def, pure, ◌>>=◌}

-- The last part: the count from the flags and the two bits that are left.
unfoldable pub clz_total : Exp → Exp → Exp → Exp → Exp → Exp → Exp
clz_total lead32 lead16 lead8 lead4 lead2 x_2 =
    let low =
      ex_ite (ex_ge x_2 (ex_const_of reg_8 2)) (ex_const 0)
        (ex_ite (ex_eq x_2 (ex_const_of reg_8 0)) (ex_const 2) (ex_const 1)) in
    let count32 = ex_shl (ex_u_cast lead32 reg_32) (ex_const 5) in
    let count16 = ex_shl (ex_u_cast lead16 reg_32) (ex_const 4) in
    let count8 = ex_shl (ex_u_cast lead8 reg_32) (ex_const 3) in
    let count4 = ex_shl (ex_u_cast lead4 reg_32) (ex_const 2) in
    let count2 = ex_shl (ex_u_cast lead2 reg_32) (ex_const 1) in
    let high_count = ex_or (ex_or_4 count32 count16 count8 count4) count2 in ex_add high_count low

module _ (d : Decimal) where
  -- The last step of halving, and the count.
  unfoldable pub clz_bits : Exp → Exp → Exp → Exp → Exp → Emit Exp
  clz_bits lead32 lead16 lead8 lead4 x_4 = do
    lead2 ← mk_temp_def d reg_1 (ex_le x_4 (ex_const_of reg_8 0x03))
    x_2 ← mk_temp_def d reg_8 (ex_ite lead2 x_4 (ex_shr x_4 (ex_const 2)))
    pure (clz_total lead32 lead16 lead8 lead4 lead2 x_2)

  -- From 16 bits to 4.
  unfoldable pub clz_bytes : Exp → Exp → Exp → Emit Exp
  clz_bytes lead32 lead16 x_16 = do
    lead8 ← mk_temp_def d reg_1 (ex_le x_16 (ex_const_of reg_16 0xff))
    x_8 ← mk_temp_def d reg_8 (ex_ite lead8 (ex_l_cast x_16 reg_8) (ex_h_cast x_16 reg_8))
    lead4 ← mk_temp_def d reg_1 (ex_le x_8 (ex_const_of reg_8 0x0f))
    x_4 ← mk_temp_def d reg_8 (ex_ite lead4 x_8 (ex_shr x_8 (ex_const 4)))
    clz_bits lead32 lead16 lead8 lead4 x_4

  unfoldable pub clz64_ite : Exp → Emit Exp
  clz64_ite x = do
    lead32 ← mk_temp_def d reg_1 (ex_le x (ex_const64 0xffffffff))
    x_32 ← mk_temp_def d reg_32 (ex_ite lead32 (ex_l_cast x reg_32) (ex_h_cast x reg_32))
    lead16 ← mk_temp_def d reg_1 (ex_le x_32 (ex_const 0xffff))
    x_16 ← mk_temp_def d reg_16 (ex_ite lead16 (ex_l_cast x_32 reg_16) (ex_h_cast x_32 reg_16))
    clz_bytes lead32 lead16 x_16

-- ===== src/Vex/Wide.antt =====
-- 128-bit products and negation from 64-bit operations (libasmir/src/vex/irtoir.cpp). They emit
-- definitions of temporaries, so they run in `Emit`; a 128-bit value is a `vector` of its halves.
pub mod Value
pub mod Product
use fuzzball.Ir.Build.{ex_add, ex_h_cast, ex_l_cast, ex_lt, ex_mul, ex_shl_by, ex_shr_by, ex_u_cast}
use fuzzball.Ir.Types.{Exp, reg_32, reg_64}
use fuzzball.Stmt.{Decimal}
use fuzzball.Stmt.Emit.{Emit, mk_temp_def, pure, ◌>>=◌}
use fuzzball.Vex.Assemble.{translate_64HLto128}

module _ (d : Decimal) where
  -- The second part of `translate_MullU64`: the sum of the partial products, with the carries.
  unfoldable pub sum_products : Exp → Exp → Exp → Exp → Emit Exp
  sum_products p11 p10 p01 p00 = do
    s0_a ← mk_temp_def d reg_64 (ex_add p00 (ex_shl_by p01 32))
    let c0_a = ex_u_cast (ex_lt s0_a p00) reg_64
    s0_b ← mk_temp_def d reg_64 (ex_add s0_a (ex_shl_by p10 32))
    let c0_b = ex_u_cast (ex_lt s0_b s0_a) reg_64
    let s1 = ex_add (ex_add p11 (ex_add c0_a c0_b)) (ex_add (ex_shr_by p01 32) (ex_shr_by p10 32))
    pure (translate_64HLto128 s1 s0_b)

  -- The middle part: the partial products of the halves.
  unfoldable pub partial_products : Exp → Exp → Exp → Exp → Emit Exp
  partial_products x1 x0 y1 y0 = do
    p11 ← mk_temp_def d reg_64 (ex_mul x1 y1)
    p10 ← mk_temp_def d reg_64 (ex_mul x1 y0)
    p01 ← mk_temp_def d reg_64 (ex_mul x0 y1)
    p00 ← mk_temp_def d reg_64 (ex_mul x0 y0)
    sum_products p11 p10 p01 p00

  unfoldable pub translate_MullU64 : Exp → Exp → Emit Exp
  translate_MullU64 arg1 arg2 = do
    x1 ← mk_temp_def d reg_64 (ex_u_cast (ex_h_cast arg1 reg_32) reg_64)
    x0 ← mk_temp_def d reg_64 (ex_u_cast (ex_l_cast arg1 reg_32) reg_64)
    y1 ← mk_temp_def d reg_64 (ex_u_cast (ex_h_cast arg2 reg_32) reg_64)
    y0 ← mk_temp_def d reg_64 (ex_u_cast (ex_l_cast arg2 reg_32) reg_64)
    partial_products x1 x0 y1 y0

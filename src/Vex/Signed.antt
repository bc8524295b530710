-- ===== src/Vex/Signed.antt =====
-- Negation and signed multiplication of wide values (libasmir/src/vex/irtoir.cpp). The arguments of
-- `vec_ite` in `translate_MullS64` have no order in C++; `split_vector` frees the vector that the third
-- argument copies, so the order here is the only one that is defined, the copy first.
pub mod Laws
use fuzzball.Ir.Build.{ex_add, ex_const64, ex_eq, ex_ite, ex_lt, ex_neg, ex_not, ex_u_cast, ex_xor}
use fuzzball.Ir.Eval.{val}
use fuzzball.Ir.Types.{Exp, reg_1, reg_64, vector}
use fuzzball.Prelude.{Option, [], none, some, ◌++◌, ◌∷◌}
use fuzzball.Stmt.{Decimal, move}
use fuzzball.Stmt.Emit.{Emit, mk_temp, mk_temp_def}
use fuzzball.Stmt.Fallible.{Fallible, given, lift, pure, ◌>>=◌}
use fuzzball.Vex.Assemble.{translate_64HLto128}
use fuzzball.Vex.Lanes.{split_vector}
use fuzzball.Vex.Wide.{translate_MullU64}

-- Both halves of a vector by one condition.
unfoldable pub vec_ite : Exp → Exp → Exp → Option Exp
vec_ite cond exp_t exp_f = elim (split_vector exp_t) [
  | none ↦ none
  | some (t_high, t_low) ↦ elim (split_vector exp_f) [
    | none ↦ none
    | some (f_high, f_low) ↦ some (vector (ex_ite cond t_high f_high) (ex_ite cond t_low f_low))
  ]
]

module _ (d : Decimal) where
  -- A declared temporary gets its value later.
  unfoldable pub assign_to : Exp → Exp → Emit (Unit {0})
  assign_to t e o = (tt, record o { stmts = o.stmts ++ move t e ∷ [] })

  unfoldable pub mk_temps128_def : Exp → Fallible Exp
  mk_temps128_def e = do
    t_high ← lift (mk_temp d reg_64)
    t_low ← lift (mk_temp d reg_64)
    (v_high, v_low) ← given (split_vector e)
    _ ← lift (assign_to t_high v_high)
    _ ← lift (assign_to t_low v_low)
    pure (vector t_high t_low)

  unfoldable pub translate_Neg128 : Exp → Fallible Exp
  translate_Neg128 arg = do
    (arg_high, arg_low) ← given (split_vector arg)
    inc_low ← lift (mk_temp_def d reg_64 (ex_add (ex_not arg_low) (ex_const64 1)))
    pure (
        translate_64HLto128
          (ex_add (ex_not arg_high) (ex_u_cast (ex_eq inc_low (ex_const64 0)) reg_64)) inc_low)

  unfoldable pub translate_MullS64 : Exp → Exp → Fallible Exp
  translate_MullS64 arg1 arg2 = do
    neg1 ← lift (mk_temp_def d reg_1 (ex_lt arg1 (ex_const64 0)))
    neg2 ← lift (mk_temp_def d reg_1 (ex_lt arg2 (ex_const64 0)))
    let abs1 = ex_ite neg1 (ex_neg arg1) arg1
    let abs2 = ex_ite neg2 (ex_neg arg2) arg2
    prod ← lift (translate_MullU64 d abs1 abs2)
    absprod ← mk_temps128_def prod
    negprod ← lift (mk_temp_def d reg_1 (ex_xor neg1 neg2))
    negated ← translate_Neg128 absprod
    given (vec_ite negprod negated absprod)

-- ===== src/X64/Flags/Step.antt =====
-- The cases of an increment and of a decrement in `x64_modify_flags` (libasmir/src/vex/irtoir-x64.cpp). Both
-- leave the carry flag. A panic is `none`.
pub mod Laws
use fuzzball.Ir.Build.{ex_add, ex_const_of, ex_eq, ex_get_bit, ex_h_cast, ex_sub, ex_xor}
use fuzzball.Ir.Types.{Exp, RegT, reg_1, reg_16, reg_32, reg_64, reg_8}
use fuzzball.Prelude.{Option, none, some}
use fuzzball.Stmt.{Decimal}
use fuzzball.Stmt.Emit.{mk_temp_def}
use fuzzball.Stmt.Fallible.{Fallible, lift, pure, ◌>>=◌}
use fuzzball.X64.Flags.{FlagExps, narrow64, parity8, set_flags}

-- The least signed word.
unfoldable pub tmin : RegT → Option Exp
tmin reg_8 = some (ex_const_of reg_8 0x80)
tmin reg_16 = some (ex_const_of reg_16 0x8000)
tmin reg_32 = some (ex_const_of reg_32 0x80000000)
tmin reg_64 = some (ex_const_of reg_64 0x8000000000000000)
tmin reg_1 = none

-- The greatest signed word.
unfoldable pub tmax : RegT → Option Exp
tmax reg_8 = some (ex_const_of reg_8 0x7f)
tmax reg_16 = some (ex_const_of reg_16 0x7fff)
tmax reg_32 = some (ex_const_of reg_32 0x7fffffff)
tmax reg_64 = some (ex_const_of reg_64 0x7fffffffffffffff)
tmax reg_1 = none

abbrev or_panic : Option Exp → Fallible Exp
or_panic e o = elim e [ none ↦ none | some x ↦ some (x, o) ]

-- `CC_OP_INCB` to `CC_OP_INCQ`, where the first dependency is the result.
unfoldable pub inc_flags : Decimal → RegT → Exp → Fallible FlagExps
inc_flags d type dep1_expr = do
  result ← lift (mk_temp_def d type (narrow64 dep1_expr type))
  least ← or_panic (tmin type)
  pure record {
    cf = none;
    pf = some (parity8 result);
    af = some (ex_get_bit (ex_xor result (ex_sub result (ex_const_of type 1))) 4);
    zf = some (ex_eq result (ex_const_of type 0));
    sf = some (ex_h_cast result reg_1);
    of = some (ex_eq result least);
  }

-- `CC_OP_DECB` to `CC_OP_DECQ`.
unfoldable pub dec_flags : Decimal → RegT → Exp → Fallible FlagExps
dec_flags d type dep1_expr = do
  result ← lift (mk_temp_def d type (narrow64 dep1_expr type))
  greatest ← or_panic (tmax type)
  pure record {
    cf = none;
    pf = some (parity8 result);
    af = some (ex_get_bit (ex_xor result (ex_add result (ex_const_of type 1))) 4);
    zf = some (ex_eq result (ex_const_of type 0));
    sf = some (ex_h_cast result reg_1);
    of = some (ex_eq result greatest);
  }

unfoldable pub modify_flags_inc : Decimal → RegT → Exp → Fallible Unit
modify_flags_inc d type dep1_expr = do e ← inc_flags d type dep1_expr; lift (set_flags e)

unfoldable pub modify_flags_dec : Decimal → RegT → Exp → Fallible Unit
modify_flags_dec d type dep1_expr = do e ← dec_flags d type dep1_expr; lift (set_flags e)

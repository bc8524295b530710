-- ===== src/X64/Flags.antt =====
-- The expressions for the flags in `x64_modify_flags` (libasmir/src/vex/irtoir-x64.cpp).
use fuzzball.Ir.Build.{
  ex_add, ex_and, ex_const_of, ex_eq, ex_get_bit, ex_h_cast, ex_l_cast, ex_lt, ex_not, ex_shr,
  ex_slt, ex_sub, ex_xor, ex_xor_3, ex_xor_8,
}
use fuzzball.Ir.Types.{Exp, RegT, constant, reg_1, reg_32, reg_64, temp}
use fuzzball.Prelude.{String, List, Option, [], none, some, ℕ, ◌++◌, ◌∷◌}
use fuzzball.Stmt.{Decimal, move}
use fuzzball.Stmt.Emit.{Emit, mk_temp_def, pure, ◌>>=◌}
pub mod Laws
pub mod Set
pub mod Step
pub mod Sum

-- Whether the number of 1 bits of the lowest byte is even.
unfoldable pub parity8 : Exp → Exp
parity8 e =
    let shift = λ (n : ℕ). ex_shr e (constant reg_32 n) in
    ex_not (
      ex_l_cast (ex_xor_8 (shift 7) (shift 6) (shift 5) (shift 4) (shift 3) (shift 2) (shift 1) e)
        reg_1)

-- `_narrow64` and `narrow64`, which differ in the copy of the argument.
unfoldable pub narrow64 : Exp → RegT → Exp
narrow64 e reg_64 = e
narrow64 e type = ex_l_cast e type

unfoldable pub sign_bit_of : Exp → RegT → Exp
sign_bit_of e type = ex_h_cast (narrow64 e type) reg_1

-- The local variables `cf` to `of`; an operation that leaves a flag has a null pointer there.
pub record FlagExps : Type 0 where
  pub cf : Option Exp
  pub pf : Option Exp
  pub af : Option Exp
  pub zf : Option Exp
  pub sf : Option Exp
  pub of : Option Exp

-- `CC_OP_LOGICB` to `CC_OP_LOGICQ`. The adjust flag is undefined after these.
unfoldable pub logic_flags : RegT → Exp → FlagExps
logic_flags type dep1_expr = record {
  cf = some (constant reg_1 0);
  pf = some (parity8 dep1_expr);
  af = some (constant reg_1 0);
  zf = some (ex_eq dep1_expr (ex_const_of reg_64 0));
  sf = some (sign_bit_of dep1_expr type);
  of = some (constant reg_1 0);
}

-- `CC_OP_SUBB` to `CC_OP_SUBQ`: the difference of the 64-bit arguments, and of its low bits.
unfoldable pub sub_flags : Decimal → RegT → Exp → Exp → Emit FlagExps
sub_flags d type dep1_expr dep2_expr = do
  result_w ← mk_temp_def d reg_64 (ex_sub dep1_expr dep2_expr)
  result ← mk_temp_def d type (narrow64 result_w type)
  pure record {
    cf = some (ex_lt dep1_expr dep2_expr);
    pf = some (parity8 result);
    af = some (ex_get_bit (ex_xor_3 result_w dep1_expr dep2_expr) 4);
    zf = some (ex_eq result (ex_const_of type 0));
    sf = some (ex_h_cast result reg_1);
    of = some (
        ex_xor (ex_h_cast result reg_1)
          (ex_slt (narrow64 dep1_expr type) (narrow64 dep2_expr type)));
  }

-- `CC_OP_ADDB` to `CC_OP_ADDQ`: the sum of the 64-bit arguments, and of its low bits.
unfoldable pub add_flags : Decimal → RegT → Exp → Exp → Emit FlagExps
add_flags d type dep1_expr dep2_expr = do
  result_w ← mk_temp_def d reg_64 (ex_add dep1_expr dep2_expr)
  result ← mk_temp_def d type (narrow64 result_w type)
  sign_bit ← mk_temp_def d reg_1 (ex_h_cast result reg_1)
  pure record {
    cf = some (ex_lt result (narrow64 dep1_expr type));
    pf = some (parity8 result);
    af = some (ex_get_bit (ex_xor_3 result_w dep1_expr dep2_expr) 4);
    zf = some (ex_eq result (ex_const_of type 0));
    sf = some sign_bit;
    of = some (
        ex_and (ex_xor sign_bit (sign_bit_of dep1_expr type))
          (ex_xor sign_bit (sign_bit_of dep2_expr type)));
  }

-- The assignment of a flag that the operation sets.
unfoldable pub put_flag : String → Option Exp → Emit Unit
put_flag n none o = (tt, o)
put_flag n (some e) o = (tt, record o { stmts = o.stmts ++ move (temp reg_1 n) e ∷ [] })

-- The assignments where the operation is not under a condition, at the end of `x64_modify_flags`.
unfoldable pub set_flags : FlagExps → Emit Unit
set_flags e = do
  _ ← put_flag "R_CF" e.cf
  _ ← put_flag "R_PF" e.pf
  _ ← put_flag "R_AF" e.af
  _ ← put_flag "R_ZF" e.zf
  _ ← put_flag "R_SF" e.sf
  put_flag "R_OF" e.of

unfoldable pub modify_flags_sub : Decimal → RegT → Exp → Exp → Emit Unit
modify_flags_sub d type dep1_expr dep2_expr = do
  e ← sub_flags d type dep1_expr dep2_expr
  set_flags e

unfoldable pub modify_flags_logic : RegT → Exp → Emit Unit
modify_flags_logic type dep1_expr = set_flags (logic_flags type dep1_expr)

unfoldable pub modify_flags_add : Decimal → RegT → Exp → Exp → Emit Unit
modify_flags_add d type dep1_expr dep2_expr = do
  e ← add_flags d type dep1_expr dep2_expr
  set_flags e

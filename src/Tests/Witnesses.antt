-- ===== src/Tests/Witnesses.antt =====
-- The theorems at concrete inputs.
use Prim.Native.Nat.{max, min}
use fuzzball.Ir.Eval.{eval, val}
use fuzzball.Ir.Names.{as_shift, binop_to_string, string_to_binop, string_to_binop-binop_to_string}
use fuzzball.Ir.Types.{
  bin_op, cast_value, constant, lrotate, lt, minus, plus, reg_32, reg_64, reg_8, slt, temp, times,
}
use fuzzball.Ir.Words.{IsWord}
use fuzzball.Prelude.{
  [], arith, false, if◌then◌else◌, leb, refl, some, true, ◌%◌, ◌*◌, ◌++◌, ◌+◌, ◌-◌, ◌/◌, ◌>>=◌, ◌^◌,
  ◌∷◌, ◌≡◌, ◌≢◌,
}
use fuzzball.Prelude.Int.{signed, to_word, ◌*ℤ◌}
use fuzzball.Simplify.{r1_r3_r5, apply_rules, or_else, ret_type, sub_constant, undefined}
use fuzzball.Simplify.Rules.{apply_rules-defined, apply_rules_lem}
use fuzzball.Stmt.{comment, move}
use fuzzball.Stmt.Emit.{mk_temp_def}
use fuzzball.Stmt.Exec.{Knows, exec}
use fuzzball.Stmt.Laws.{exec-append, mk_temp_def_lem, now}
use fuzzball.Tests.{
  a_32, a_32-IsWord, a_64, a_64-IsWord, at_start, b_32, b_32-IsWord, b_64, b_64-IsWord, facts,
  no_output, tally, test_env, x_64, y_64,
}
use fuzzball.Vex.Assemble.Laws.{lanes}
use fuzzball.Vex.Interleave.{interleave2_8x8}
use fuzzball.Vex.Interleave.Laws.{interleave2_8x8_lem, interleaved}
use fuzzball.Vex.Lanes.{translate_minmax8x8, translate_par8x8_binop, translate_saturating4x8_binop}
use fuzzball.Vex.Lanes.Byte.{smax, smin, translate_minmax8x8_lem, translate_par8x8_binop_lem}
use fuzzball.Vex.Lanes.Clamp.{saturating4x8_signed_add, saturating4x8_sub, signed_sum}
use fuzzball.Vex.Multiply.{translate_DivModU64to32, translate_MullS32}
use fuzzball.Vex.Multiply.Laws.{translate_DivModU64to32_lem, translate_MullS32_lem}
use fuzzball.Vex.Wide.{translate_MullU64}
use fuzzball.Vex.Wide.Product.{Gives, translate_MullU64_lem}
use fuzzball.Vex.Wide.Value.{IsWide}

translate_MullU64_example :
    Gives tally no_output test_env test_env
      (x_64 * y_64)
      (translate_MullU64 tally a_64 b_64 no_output)
translate_MullU64_example = translate_MullU64_lem tally no_output test_env test_env at_start

apply_rules_example : eval test_env (constant reg_32 2) ≡ some (val reg_32 2)
unfolding eval apply_rules or_else r1_r3_r5 sub_constant ret_type cast_value
apply_rules_example =
    apply_rules_lem test_env (bin_op minus (constant reg_32 5) (constant reg_32 3))
      (constant reg_32 2) reg_32 2 refl (λ p. ground arith) refl

apply_rules-defined_example :
    apply_rules (bin_op times (bin_op plus (constant reg_8 1) (temp reg_8 "x")) (constant reg_8 2))
    ≢ undefined
apply_rules-defined_example =
    apply_rules-defined
      (bin_op times (bin_op plus (constant reg_8 1) (temp reg_8 "x")) (constant reg_8 2))

translate_minmax8x8_example :
    IsWord test_env (translate_minmax8x8 lt true a_64 b_64) reg_64 (lanes 8 8 max x_64 y_64)
    × IsWord test_env (translate_minmax8x8 lt false a_64 b_64) reg_64 (lanes 8 8 min x_64 y_64)
    × IsWord test_env (translate_minmax8x8 slt true a_64 b_64) reg_64 (lanes 8 8 (smax 8) x_64 y_64)
    × IsWord test_env
        (translate_minmax8x8 slt false a_64 b_64)
        reg_64
        (lanes 8 8 (smin 8) x_64 y_64)
translate_minmax8x8_example = translate_minmax8x8_lem (a_64-IsWord test_env) (b_64-IsWord test_env)

translate_par8x8_binop_example :
    IsWord test_env
      (translate_par8x8_binop plus a_64 b_64)
      reg_64
      (lanes 8 8 (λ p q. (p + q) % 2 ^ 8) x_64 y_64)
translate_par8x8_binop_example =
    translate_par8x8_binop_lem (a_64-IsWord test_env) (b_64-IsWord test_env) plus
      (λ p q. (p + q) % 2 ^ 8) (λ p q. refl) (λ p q h k. omega arith)

saturating4x8_sub_example :
    IsWord test_env
      (translate_saturating4x8_binop minus false a_32 b_32)
      reg_32
      (lanes 8 4 (λ p q. if leb q p then p - q else 255) 0x80ff7f10 0x90017f07)
saturating4x8_sub_example = saturating4x8_sub a_32-IsWord b_32-IsWord

saturating4x8_signed_add_example :
    IsWord test_env
      (translate_saturating4x8_binop plus true a_32 b_32)
      reg_32
      (lanes 8 4 (λ p q. if leb 0xff80 (signed_sum p q) then 127 else 128) 0x80ff7f10 0x90017f07)
saturating4x8_signed_add_example = saturating4x8_signed_add a_32-IsWord b_32-IsWord

translate_MullS32_example :
    IsWord test_env
      (translate_MullS32 a_32 b_32)
      reg_64
      (to_word 64 (signed 32 0x80ff7f10 *ℤ signed 32 0x90017f07))
translate_MullS32_example = translate_MullS32_lem a_32-IsWord b_32-IsWord

translate_DivModU64to32_example :
    IsWord test_env
      (translate_DivModU64to32 a_64 a_32)
      reg_64
      (x_64 % 0x80ff7f10 * 2 ^ 32 + x_64 / 0x80ff7f10 % 2 ^ 32)
translate_DivModU64to32_example =
    translate_DivModU64to32_lem (a_64-IsWord test_env) a_32-IsWord (λ p. omega (arith, p))

interleave2_8x8_example : IsWide test_env (interleave2_8x8 a_64 b_64) (interleaved 8 8 x_64 y_64)
interleave2_8x8_example = interleave2_8x8_lem (a_64-IsWord test_env) (b_64-IsWord test_env)

mk_temp_def_example :
    Knows tally no_output test_env test_env
      (mk_temp_def tally reg_64 a_64 no_output).1
      (((mk_temp_def tally reg_64 a_64 no_output).0, reg_64, x_64) ∷ facts)
mk_temp_def_example = mk_temp_def_lem tally at_start (now tally at_start at_start.known.0)

exec-append_example :
    exec ((move (temp reg_64 "x") a_64 ∷ []) ++ (comment "end" ∷ [])) test_env
    ≡ (exec (move (temp reg_64 "x") a_64 ∷ []) test_env >>= exec (comment "end" ∷ []))
exec-append_example = exec-append (move (temp reg_64 "x") a_64 ∷ []) (comment "end" ∷ []) test_env

string_to_binop_example : string_to_binop (binop_to_string lrotate) ≡ some (as_shift lrotate)
string_to_binop_example = string_to_binop-binop_to_string lrotate

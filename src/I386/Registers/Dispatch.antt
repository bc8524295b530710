-- ===== src/I386/Registers/Dispatch.antt =====
-- Writing a vector register, and the choice by the type (`translate_put_reg_128` and `i386_translate_put` of
-- libasmir/src/vex/irtoir-i386.cpp).
use Prim.Native.String.{◌++◌ as append}
use fuzzball.I386.Flags.{emit, mk_reg}
use fuzzball.I386.Registers.{Field, guest_gdt, guest_ldt, names_128, switch}
use fuzzball.I386.Registers.Get.{
  IrType, ity_f32, ity_f64, ity_i128, ity_i16, ity_i32, ity_i64, ity_i8, ity_v128,
}
use fuzzball.I386.Registers.Put.{
  translate_put_reg_16, translate_put_reg_32, translate_put_reg_64, translate_put_reg_8,
}
use fuzzball.Ir.Build.{ex_l_cast}
use fuzzball.Ir.Types.{Exp, reg_32, reg_64}
use fuzzball.Prelude.{String, if◌then◌else◌, ℕ, ◌==◌, ◌||◌}
use fuzzball.Stmt.{Stmt, move, special}
use fuzzball.Stmt.Fallible.{Fallible, given, pure, ◌>>=◌, ◌>>◌}
use fuzzball.Vex.Lanes.{split_vector}

module _ (offb : Field → ℕ) where
  -- The high half is written by an emitted statement, the low half by the result.
  unfoldable pub translate_put_reg_128 : ℕ → Exp → Fallible Stmt
  translate_put_reg_128 offset datum = do
    n ← given (switch offset (names_128 offb))
    (high, low) ← given (split_vector datum)
    emit (move (mk_reg (append n "H") reg_64) high)
    pure (move (mk_reg (append n "L") reg_64) low)

  -- `unrecognized` is the text for an offset, which is printed in hexadecimal.
  module _ (unrecognized : ℕ → String) where
    unfoldable pub put_wide : IrType → ℕ → Exp → Fallible Stmt
    put_wide ity_i128 offset datum = translate_put_reg_128 offset datum
    put_wide ity_v128 offset datum = translate_put_reg_128 offset datum
    put_wide _ offset datum = pure (special (unrecognized offset))

    unfoldable pub i386_translate_put : IrType → ℕ → Exp → Fallible Stmt
    i386_translate_put ity_i8 offset datum = given (translate_put_reg_8 offb offset datum)
    i386_translate_put ity_i16 offset datum = given (translate_put_reg_16 offb offset datum)
    i386_translate_put ity_i32 offset datum = given (translate_put_reg_32 offb offset datum)
    i386_translate_put ity_f32 offset datum = given (translate_put_reg_32 offb offset datum)
    i386_translate_put ity_i64 offset datum = pure (translate_put_reg_64 offb offset datum)
    i386_translate_put ity_f64 offset datum = pure (translate_put_reg_64 offb offset datum)
    i386_translate_put type offset datum =
        if offset == offb guest_ldt || offset == offb guest_gdt
        then given (translate_put_reg_32 offb offset (ex_l_cast datum reg_32))
        else put_wide type offset datum

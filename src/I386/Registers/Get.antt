-- ===== src/I386/Registers/Get.antt =====
-- Reading a register (`translate_get_reg_8` to `translate_get_reg_128` and `i386_translate_get` of
-- libasmir/src/vex/irtoir-i386.cpp).
use Prim.Native.String.{◌++◌ as append}
use fuzzball.I386.Flags.{mk_reg}
use fuzzball.I386.Registers.{
  Field, fptag_names, guest_gdt, guest_ldt, in_fptag, in_xmm, names_128, names_64,
  reg_offset_to_name, registers_16, simd_32, sub_registers_16, sub_registers_8, switch, xmm_half,
}
use fuzzball.Ir.Build.{ex_h_cast, ex_l_cast, ex_u_cast}
use fuzzball.Ir.Types.{Exp, reg_16, reg_32, reg_64, reg_8, unknown, vector}
use fuzzball.Prelude.{
  Bool, List, Option, String, [], if◌then◌else◌, none, some, ℕ, ◌%◌, ◌/◌, ◌==◌, ◌>>=◌, ◌||◌, ◌∷◌,
}

-- The types of VEX's expressions that registers have.
pub data IrType : Type 0 where
  ity_i8 ity_i16 ity_i32 ity_f32 ity_i64 ity_f64 ity_i128 ity_v128 ity_other : IrType

abbrev lo8 : Exp → Exp
lo8 x = ex_l_cast x reg_8

abbrev hi8 : Exp → Exp
hi8 x = ex_h_cast x reg_8

abbrev lo16 : Exp → Exp
lo16 x = ex_l_cast x reg_16

abbrev hi16 : Exp → Exp
hi16 x = ex_h_cast x reg_16

abbrev lo32 : Exp → Exp
lo32 x = ex_l_cast x reg_32

abbrev hi32 : Exp → Exp
hi32 x = ex_h_cast x reg_32

-- The bytes of a word of 64 bits.
abbrev pub lanes_8 : Exp → List (ℕ × Exp)
lanes_8 reg =
    (0, lo8 reg)
    ∷ (1, hi8 (lo16 reg))
    ∷ (2, lo8 (hi16 (lo32 reg)))
    ∷ (3, hi8 (lo32 reg))
    ∷ (4, lo8 (hi32 reg))
    ∷ (5, hi8 (lo16 (hi32 reg)))
    ∷ (6, lo8 (hi16 reg))
    ∷ (7, hi8 reg)
    ∷ []

-- The words of 16 bits in a word of 64 bits.
abbrev pub lanes_16 : Exp → List (ℕ × Exp)
lanes_16 reg = (0, lo16 reg) ∷ (1, hi16 (lo32 reg)) ∷ (2, lo16 (hi32 reg)) ∷ (3, hi16 reg) ∷ []

-- The lowest or the second byte of a register of 32 bits.
abbrev pub get_byte : String × Bool → Exp
get_byte (n, low) =
    let reg = mk_reg n reg_32 in
    if low then ex_l_cast reg reg_8 else ex_h_cast (ex_l_cast reg reg_16) reg_8

module _ (offb : Field → ℕ) where
  unfoldable pub translate_get_reg_8 : ℕ → Option Exp
  translate_get_reg_8 offset =
      if in_xmm offb offset
      then (do reg ← xmm_half offb offset; switch (offset % 8) (lanes_8 reg))
      else if in_fptag offb offset
      then (do n ← switch offset (fptag_names offb); some (mk_reg n reg_8))
      else (do s ← switch offset (sub_registers_8 offb); some (get_byte s))

  unfoldable pub translate_get_reg_16 : ℕ → Option Exp
  translate_get_reg_16 offset =
      if in_xmm offb offset
      then (if offset % 8 % 2 == 0
          then (do reg ← xmm_half offb offset; switch (offset % 8 / 2) (lanes_16 reg))
          else none)
      else elim (switch offset (sub_registers_16 offb)) [
        | some n ↦ some (ex_l_cast (mk_reg n reg_32) reg_16)
        | none ↦ do n ← switch offset (registers_16 offb); some (mk_reg n reg_16)
      ]

  -- A quarter of an XMM register, or else a register of 32 bits.
  unfoldable pub translate_get_reg_32 : ℕ → Option Exp
  translate_get_reg_32 offset = elim (switch offset (simd_32 offb)) [
    | some (n, lane) ↦
        let reg = mk_reg n reg_64 in
        some (if lane == 0 then ex_l_cast reg reg_32 else ex_h_cast reg reg_32)
    | none ↦ do
      (n, is_good) ← reg_offset_to_name offb offset
      some (if is_good then mk_reg n reg_32 else unknown (append "Unknown 32-bit register " n))
  ]

  unfoldable pub translate_get_reg_64 : ℕ → Exp
  translate_get_reg_64 offset = elim (switch offset (names_64 offb)) [
    | some n ↦ mk_reg n reg_64
    | none ↦ unknown "Unknown 64-bit register"
  ]

  unfoldable pub translate_get_reg_128 : ℕ → Option Exp
  translate_get_reg_128 offset = do
    n ← switch offset (names_128 offb)
    some (vector (mk_reg (append n "H") reg_64) (mk_reg (append n "L") reg_64))

  -- A 64-bit read of the descriptor tables reads 32 bits.
  unfoldable pub i386_translate_get : IrType → ℕ → Option Exp
  i386_translate_get ity_i8 offset = translate_get_reg_8 offset
  i386_translate_get ity_i16 offset = translate_get_reg_16 offset
  i386_translate_get ity_i32 offset = translate_get_reg_32 offset
  i386_translate_get ity_f32 offset = translate_get_reg_32 offset
  i386_translate_get type offset =
      if offset == offb guest_ldt || offset == offb guest_gdt
      then (do e ← translate_get_reg_32 offset; some (ex_u_cast e reg_64))
      else get_wide type offset
    where
      get_wide : IrType → ℕ → Option Exp
      get_wide ity_i64 offset = some (translate_get_reg_64 offset)
      get_wide ity_f64 offset = some (translate_get_reg_64 offset)
      get_wide ity_i128 offset = translate_get_reg_128 offset
      get_wide ity_v128 offset = translate_get_reg_128 offset
      get_wide _ offset = none

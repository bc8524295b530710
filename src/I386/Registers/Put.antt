-- ===== src/I386/Registers/Put.antt =====
-- Writing a register (`translate_put_reg_8` to `translate_put_reg_128` and `i386_translate_put` of
-- libasmir/src/vex/irtoir-i386.cpp). The data is a translated expression.
use Prim.Native.String.{◌++◌ as append}
use fuzzball.I386.Flags.{mk_reg}
use fuzzball.I386.Registers.{
  Field, fptag_names, guest_cc_dep1, in_fptag, in_xmm, names_64, reg_offset_to_name, registers_16,
  simd_32, sub_registers_16, sub_registers_8, switch, xmm_half,
}
use fuzzball.Ir.Build.{ex_and, ex_const, ex_const64, ex_h_cast, ex_l_cast, ex_or, ex_shl, ex_u_cast}
use fuzzball.Ir.Types.{Exp, reg_16, reg_32, reg_64, reg_8}
use fuzzball.Prelude.{
  Bool, Option, String, if◌then◌else◌, none, some, ℕ, ◌%◌, ◌*◌, ◌-◌, ◌==◌, ◌>>=◌, ◌^◌,
}
use fuzzball.Stmt.{Stmt, move, special}

-- A word of 64 bits in which the bits of `change_mask` at an amount are replaced by the data.
abbrev pub replaced : Exp → Exp → ℕ → ℕ → Exp
replaced reg datum change_mask shift_amt =
    let keep = ex_and reg (ex_const64 (2 ^ 64 - 1 - change_mask * 2 ^ shift_amt)) in
    let data_u = ex_u_cast datum reg_64 in
    ex_or keep (if shift_amt == 0 then data_u else ex_shl data_u (ex_const shift_amt))

-- A register of 32 bits with its lowest or its second byte replaced by the data.
abbrev pub put_byte : String × Bool → Exp → Stmt
put_byte (n, low) datum =
    let reg = mk_reg n reg_32 in
    let value = ex_u_cast datum reg_32 in
    move reg (
      if low
      then ex_or (ex_and reg (ex_const 0xffffff00)) value
      else ex_or (ex_and reg (ex_const 0xffff00ff)) (ex_shl value (ex_const 8)))

unfoldable pub assemble64 : Exp → Exp → Exp
assemble64 arg1 arg2 = ex_or (ex_shl (ex_u_cast arg1 reg_64) (ex_const 32)) (ex_u_cast arg2 reg_64)

-- The lower or the upper part of a half of an XMM register replaced by the data.
abbrev pub put_quarter : String × ℕ → Exp → Stmt
put_quarter (n, lane) datum =
    let reg = mk_reg n reg_64 in
    move reg (
      if lane == 0
      then assemble64 (ex_h_cast reg reg_32) datum
      else assemble64 datum (ex_l_cast reg reg_32))

module _ (offb : Field → ℕ) where
  -- The register of the flags thunk takes a byte or a 16-bit word too.
  abbrev put_cc_dep1 : Exp → Stmt
  put_cc_dep1 datum = move (mk_reg "CC_DEP1" reg_32) (ex_u_cast datum reg_32)

  unfoldable pub translate_put_reg_8 : ℕ → Exp → Option Stmt
  translate_put_reg_8 offset datum =
      if in_xmm offb offset
      then (do
        reg ← xmm_half offb offset
        some (move reg (replaced reg datum 255 (offset % 8 * 8))))
      else if in_fptag offb offset
      then (do n ← switch offset (fptag_names offb); some (move (mk_reg n reg_8) datum))
      else elim (switch offset (sub_registers_8 offb)) [
        | some s ↦ some (put_byte s datum)
        | none ↦ if offset == offb guest_cc_dep1 then some (put_cc_dep1 datum) else none
      ]

  unfoldable pub translate_put_reg_16 : ℕ → Exp → Option Stmt
  translate_put_reg_16 offset datum =
      if in_xmm offb offset
      then (if offset % 8 % 2 == 0
          then (do
            reg ← xmm_half offb offset
            some (move reg (replaced reg datum 65535 (offset % 8 * 8))))
          else none)
      else elim (switch offset (sub_registers_16 offb)) [
        | some n ↦
            let reg = mk_reg n reg_32 in
            some (move reg (ex_or (ex_and reg (ex_const 0xffff0000)) (ex_u_cast datum reg_32)))
        | none ↦ elim (switch offset (registers_16 offb)) [
          | some n ↦ some (move (mk_reg n reg_16) datum)
          | none ↦ if offset == offb guest_cc_dep1 then some (put_cc_dep1 datum) else none
        ]
      ]

  unfoldable pub translate_put_reg_32 : ℕ → Exp → Option Stmt
  translate_put_reg_32 offset datum = elim (switch offset (simd_32 offb)) [
    | some s ↦ some (put_quarter s datum)
    | none ↦ do
      (n, is_good) ← reg_offset_to_name offb offset
      some (
          if is_good
          then move (mk_reg n reg_32) datum
          else special (append "Unknown 32-bit register " n))
  ]

  unfoldable pub translate_put_reg_64 : ℕ → Exp → Stmt
  translate_put_reg_64 offset datum = elim (switch offset (names_64 offb)) [
    | some n ↦ move (mk_reg n reg_64) datum
    | none ↦ special "Unknown 64-bit register"
  ]

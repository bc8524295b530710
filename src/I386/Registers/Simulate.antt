-- ===== src/I386/Registers/Simulate.antt =====
-- The translations of register reads and writes, at every type of one word, against a memory of 128 bytes.
use fuzzball.I386.Registers.{Field, guest_gdt, guest_ldt, guest_xmm}
use fuzzball.I386.Registers.Dispatch.{i386_translate_put}
use fuzzball.I386.Registers.Get.{
  IrType, i386_translate_get, ity_f32, ity_f64, ity_i16, ity_i32, ity_i64, ity_i8,
}
use fuzzball.I386.Registers.Halves.{IsLayout}
use fuzzball.I386.Registers.Refine.{
  Gets, Puts, Shows, get_16, get_32, get_64, get_8, put_16, put_32, put_64, put_8,
}
use fuzzball.Ir.Eval.{Env, eval, val}
use fuzzball.Ir.Types.{Exp, RegT, reg_16, reg_32, reg_64, reg_8, reg_to_bits}
use fuzzball.Prelude.{
  String, arith, inl, inr, refl, some, ℕ, ◌%◌, ◌+◌, ◌/◌, ◌<◌, ◌==◌, ◌^◌, ◌||◌, ◌≡◌, false,
}
use fuzzball.Stmt.{Out, Stmt}

-- The types of one word.
pub data IsWordType : IrType → RegT → Type 0 where
  is_i8 : IsWordType ity_i8 reg_8
  is_i16 : IsWordType ity_i16 reg_16
  is_i32 : IsWordType ity_i32 reg_32
  is_f32 : IsWordType ity_f32 reg_32
  is_i64 : IsWordType ity_i64 reg_64
  is_f64 : IsWordType ity_f64 reg_64

module _ (offb : Field → ℕ) (lay : IsLayout offb) where
  abbrev base : ℕ
  base = offb (guest_xmm 0)

  -- No byte of the XMM registers is a descriptor table.
  not_table : (i : ℕ) → i < 128 → (base + i == offb guest_ldt || base + i == offb guest_gdt) ≡ false
  not_table i l = elim lay.ldt_apart [
    | inl a ↦ elim lay.gdt_apart [ inl b ↦ ground arith | inr b ↦ ground arith ]
    | inr a ↦ elim lay.gdt_apart [ inl b ↦ ground arith | inr b ↦ ground arith ]
  ]

  -- Where the XMM registers show a memory of 128 bytes, a read of 8, 16, 32 or 64 bits at an offset in them that
  -- is aligned to its size translates to an expression, and its value is the word of the memory at that
  -- place, lowest byte first.
  pub i386_translate_get_lem :
      {type : IrType} {t : RegT} (i : ℕ) (f : ℕ → ℕ) (env : Env)
      → IsWordType type t
      → Shows env f
      → i < 128
      → i % (reg_to_bits t / 8) ≡ 0
      → (g : Exp) × (i386_translate_get offb type (base + i) ≡ some g) × Gets env f t i g
  unfolding i386_translate_get
  i386_translate_get_lem i f env is_i8 s l whole = get_8 env f s offb lay i l
  i386_translate_get_lem i f env is_i16 s l whole = get_16 env f s offb lay i l whole
  i386_translate_get_lem i f env is_i32 s l whole = get_32 env f s offb lay i l whole
  i386_translate_get_lem i f env is_f32 s l whole = get_32 env f s offb lay i l whole
  i386_translate_get_lem i f env is_i64 s l whole =
      (_, rw (not_table i l) refl, get_64 env f s offb lay i l whole)
  i386_translate_get_lem i f env is_f64 s l whole =
      (_, rw (not_table i l) refl, get_64 env f s offb lay i l whole)

  -- Where the XMM registers show a memory of 128 bytes, a write of 8, 16, 32 or 64 bits at an offset in them that
  -- is aligned to its size translates to one statement and emits no other; the statement runs, and the
  -- registers then show the memory with the word written at that place, lowest byte first, and all other
  -- bytes as they were.
  pub i386_translate_put_lem :
      {type : IrType} {t : RegT} (unrecognized : ℕ → String) (i v : ℕ) (f : ℕ → ℕ) (datum : Exp)
      (env : Env) (out : Out)
      → IsWordType type t
      → Shows env f
      → i < 128
      → i % (reg_to_bits t / 8) ≡ 0
      → v < 2 ^ reg_to_bits t
      → eval env datum ≡ some (val t v)
      → (s : Stmt) × (i386_translate_put offb unrecognized type (base + i) datum out
          ≡ some (s, out))
        × Puts env f t i v s
  unfolding i386_translate_put
  i386_translate_put_lem un i v f datum env out is_i8 s l whole bound h =
      let (st, made, puts) = put_8 env f s offb lay i v datum l bound h in (st, rw made refl, puts)
  i386_translate_put_lem un i v f datum env out is_i16 s l whole bound h =
      let (st, made, puts) = put_16 env f s offb lay i v datum l whole bound h in
      (st, rw made refl, puts)
  i386_translate_put_lem un i v f datum env out is_i32 s l whole bound h =
      let (st, made, puts) = put_32 env f s offb lay i v datum l whole bound h in
      (st, rw made refl, puts)
  i386_translate_put_lem un i v f datum env out is_f32 s l whole bound h =
      let (st, made, puts) = put_32 env f s offb lay i v datum l whole bound h in
      (st, rw made refl, puts)
  i386_translate_put_lem un i v f datum env out is_i64 s l whole bound h =
      (_, refl, put_64 env f s offb lay i v datum l whole bound h)
  i386_translate_put_lem un i v f datum env out is_f64 s l whole bound h =
      (_, refl, put_64 env f s offb lay i v datum l whole bound h)

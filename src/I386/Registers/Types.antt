-- ===== src/I386/Registers/Types.antt =====
-- The types of the expressions that reads of registers translate to.
use fuzzball.I386.Flags.{mk_reg}
use fuzzball.I386.Registers.{
  Field, fptag_names, guest_gdt, guest_ldt, in_fptag, in_xmm, names_64, reg_offset_to_name,
  registers_16, simd_32, sub_registers_16, sub_registers_8, switch, xmm_half,
}
use fuzzball.I386.Registers.Get.{
  IrType, get_byte, i386_translate_get, lanes_16, lanes_8, translate_get_reg_16,
  translate_get_reg_32, translate_get_reg_64, translate_get_reg_8,
}
use fuzzball.I386.Registers.Simulate.{IsWordType, is_f32, is_f64, is_i16, is_i32, is_i64, is_i8}
use fuzzball.Ir.Eval.{Env, eval, val}
use fuzzball.Ir.Types.{
  Exp, RegT, reg_16, reg_32, reg_64, reg_8, cast_low, cast_high, cast_unsigned, unknown,
}
use fuzzball.Ir.Build.{ex_h_cast, ex_l_cast, ex_u_cast}
use Prim.Native.String.{◌++◌ as append}
use fuzzball.Ir.Typing.{HasType, cast-HasType, temp-HasType, type_of}
use fuzzball.Prelude.{
  Bool, List, Option, String, [], false, if◌then◌else◌, none, some, true, ℕ, ◌%◌, ◌/◌, ◌==◌, ◌>>=◌,
  ◌||◌, ◌∷◌, ◌≡◌,
}
use fuzzball.Prelude.Outcomes.{
  OnSome, OnSome-at, OnSome-bind, OnSome-if, OnSome-cases, OnSome-any, OnSome-when,
}

abbrev AllOf : {A : Type 0} → (A → Type 0) → List (ℕ × A) → Type 0
AllOf P [] = Unit
AllOf P ((c, a) ∷ cases) = P a × AllOf P cases

OnSome-switch :
    {A : Type 0} (P : A → Type 0) (o : ℕ) (cases : List (ℕ × A))
    → AllOf P cases
    → OnSome P (switch o cases)
OnSome-switch P o [] h = tt
OnSome-switch P o ((c, a) ∷ cases) h =
    OnSome-if P (some a) (switch o cases) (o == c) h.0 (OnSome-switch P o cases h.1)

module _ (env : Env) where
  abbrev Is : RegT → Exp → Type 0
  Is t e = HasType env t e

  byte_type : (s : String × Bool) → Is reg_8 (get_byte s)
  byte_type (n, true) = cast-HasType env _ reg_8 cast_low
  byte_type (n, false) = cast-HasType env _ reg_8 cast_high

  lanes_8-Is : (reg : Exp) → AllOf (Is reg_8) (lanes_8 reg)
  lanes_8-Is reg = (
    cast-HasType env _ reg_8 _,
    (
      cast-HasType env _ reg_8 _,
      (
        cast-HasType env _ reg_8 _,
        (
          cast-HasType env _ reg_8 _,
          (
            cast-HasType env _ reg_8 _,
            (
              cast-HasType env _ reg_8 _,
              (cast-HasType env _ reg_8 _, (cast-HasType env _ reg_8 _, tt)),
            ),
          ),
        ),
      ),
    ),
  )

  lanes_16-Is : (reg : Exp) → AllOf (Is reg_16) (lanes_16 reg)
  lanes_16-Is reg = (
    cast-HasType env _ reg_16 _,
    (cast-HasType env _ reg_16 _, (cast-HasType env _ reg_16 _, (cast-HasType env _ reg_16 _, tt))),
  )

  quarter_type :
      (n : String) (b : Bool)
      → Is reg_32
          (if b then ex_l_cast (mk_reg n reg_64) reg_32 else ex_h_cast (mk_reg n reg_64) reg_32)
  quarter_type n true = cast-HasType env _ reg_32 _
  quarter_type n false = cast-HasType env _ reg_32 _

  unknown_type : (t : RegT) (n : String) → Is t (unknown n)
  unfolding eval
  unknown_type t n = tt

  named_type :
      (s : String × Bool)
      → Is reg_32
          (if s.1 then mk_reg s.0 reg_32 else unknown (append "Unknown 32-bit register " s.0))
  named_type (n, true) = temp-HasType env _ reg_32
  named_type (n, false) = unknown_type reg_32 _

  by_name :
      (r : Option String)
      → Is reg_64 (elim r as (λ r. Exp) [
        | some n ↦ mk_reg n reg_64
        | none ↦ unknown "Unknown 64-bit register"
      ])
  by_name (some n) = temp-HasType env _ reg_64
  by_name none = unknown_type reg_64 _

  module _ (offb : Field → ℕ) where
    get_8-Is : (o : ℕ) → OnSome (Is reg_8) (translate_get_reg_8 offb o)
    unfolding translate_get_reg_8
    get_8-Is o =
        OnSome-if _ _ _ (in_xmm offb o)
          (OnSome-bind (λ a. Unit {0}) _ _ (xmm_half offb o) (OnSome-any _)
            λ reg u. OnSome-switch _ (o % 8) (lanes_8 reg) (lanes_8-Is reg))
          (OnSome-if _ _ _ (in_fptag offb o)
            (OnSome-bind (λ a. Unit {0}) _ _ (switch o (fptag_names offb)) (OnSome-any _)
              λ n u. temp-HasType env _ reg_8)
            (OnSome-bind (λ a. Unit {0}) _ _ (switch o (sub_registers_8 offb)) (OnSome-any _)
              λ s u. byte_type s))

    get_16-Is : (o : ℕ) → OnSome (Is reg_16) (translate_get_reg_16 offb o)
    unfolding translate_get_reg_16
    get_16-Is o =
        OnSome-if _ _ _ (in_xmm offb o)
          (OnSome-when _ _ (o % 8 % 2 == 0) λ e.
            OnSome-bind (λ a. Unit {0}) _ _ (xmm_half offb o) (OnSome-any _)
              λ reg u. OnSome-switch _ (o % 8 / 2) (lanes_16 reg) (lanes_16-Is reg))
          (OnSome-cases _ (switch o (sub_registers_16 offb)) _ _
            (λ e.
              OnSome-bind (λ a. Unit {0}) _ _ (switch o (registers_16 offb)) (OnSome-any _)
                λ n u. temp-HasType env _ reg_16)
            (λ n e. cast-HasType env _ reg_16 _))

    get_32-Is : (o : ℕ) → OnSome (Is reg_32) (translate_get_reg_32 offb o)
    unfolding translate_get_reg_32
    get_32-Is o =
        OnSome-cases _ (switch o (simd_32 offb)) _ _
          (λ e.
            OnSome-bind (λ a. Unit {0}) _ _ (reg_offset_to_name offb o) (OnSome-any _)
              λ s u. named_type s)
          (λ s e. quarter_type s.0 (s.1 == 0))

    get_64-Is : (o : ℕ) → Is reg_64 (translate_get_reg_64 offb o)
    unfolding translate_get_reg_64
    get_64-Is o = by_name (switch o (names_64 offb))

    table_type :
        (o : ℕ)
        → OnSome (Is reg_64) (translate_get_reg_32 offb o >>= λ e. some (ex_u_cast e reg_64))
    table_type o =
        OnSome-bind (λ a. Unit {0}) _ _ (translate_get_reg_32 offb o) (OnSome-any _)
          λ e u. cast-HasType env e reg_64 cast_unsigned

    get-Is :
        {type : IrType} {t : RegT} (o : ℕ)
        → IsWordType type t
        → OnSome (Is t) (i386_translate_get offb type o)
    unfolding i386_translate_get
    get-Is o is_i8 = get_8-Is o
    get-Is o is_i16 = get_16-Is o
    get-Is o is_i32 = get_32-Is o
    get-Is o is_f32 = get_32-Is o
    get-Is o is_i64 =
        OnSome-if _ _ _ (o == offb guest_ldt || o == offb guest_gdt) (table_type o) (get_64-Is o)
    get-Is o is_f64 =
        OnSome-if _ _ _ (o == offb guest_ldt || o == offb guest_gdt) (table_type o) (get_64-Is o)

-- At every offset of the guest state, in any layout of it, where a read of 8, 16, 32 or 64 bits translates to an
-- expression that has a value, the value is of that type.
pub i386_translate_get-type :
    {type : IrType} {t : RegT} (offb : Field → ℕ) (offset : ℕ) (g : Exp) (u : RegT) (x : ℕ)
    (env : Env)
    → IsWordType type t
    → i386_translate_get offb type offset ≡ some g
    → eval env g ≡ some (val u x)
    → u ≡ t
i386_translate_get-type {t} offb offset g u x env is made value =
    OnSome-at (λ v. type_of v ≡ t) value
      (OnSome-at (λ e. HasType env t e) made (get-Is env offb offset is))

-- ===== src/Vex/Lanes/Byte.antt =====
-- The operations on eight (or four) lanes of bytes do, in each lane, what they are for.
use Prim.Native.Nat.{min, max}
use fuzzball.Ir.Build.{ex_s_cast}
use fuzzball.Ir.Eval.{Env, apply_binop, val}
use fuzzball.Ir.Types.{BinopT, Exp, bin_op, lt, reg_1, reg_64, reg_8, slt}
use fuzzball.Ir.Words.{IsWord, IsWord-bin_op, IsWord-cast, IsWord-eq, IsWord-ite}
use fuzzball.Prelude.{
  Bool, arith, false, if◌then◌else◌, ltb, refl, some, true, ℕ, ◌-◌, ◌<◌, ◌==◌, ◌^◌, ◌≡◌,
}
use fuzzball.Prelude.Int.{lt_ℤ, signed}
use fuzzball.Vex.Assemble.Laws.{lanes}
use fuzzball.Vex.Lanes.{
  eq_mask, minmax8, sgt_mask, translate_CmpEQ8x8, translate_CmpGT8Sx8, translate_minmax8x8,
  translate_par8x8_binop,
}
use fuzzball.Vex.Lanes.Each.{Computes, each8x8_lem}

-- A lane of ones or zeros.
abbrev pub mask_of : ℕ → Bool → ℕ
mask_of w b = if b then 2 ^ w - 1 else 0

pub flag-lt : (b : Bool) → (if b then 1 else 0) < 2
flag-lt true = omega arith
flag-lt false = omega arith

if_flag : (b : Bool) (x y : ℕ) → (if (if b then 1 else 0) == 0 then y else x) ≡ (if b then x else y)
if_flag true x y = refl
if_flag false x y = refl

-- The greater and the lesser of two words by the integers that they stand for.
abbrev pub smax : ℕ → ℕ → ℕ → ℕ
smax w p q = if lt_ℤ (signed w q) (signed w p) then p else q

abbrev pub smin : ℕ → ℕ → ℕ → ℕ
smin w p q = if lt_ℤ (signed w p) (signed w q) then p else q

module _ {env : Env} where
  -- The sign extension of a flag is a lane of ones or of zeros.
  mask-IsWord :
      {a : Exp} (b : Bool)
      → IsWord env a reg_1 (if b then 1 else 0)
      → IsWord env (ex_s_cast a reg_8) reg_8 (mask_of 8 b)
  mask-IsWord true h = IsWord-cast h refl (omega arith)
  mask-IsWord false h = IsWord-cast h refl (omega arith)

  eq_mask-Computes : Computes env reg_8 (eq_mask reg_8) (λ p q. mask_of 8 (p == q))
  eq_mask-Computes a b x y ha hb =
      mask-IsWord (x == y) (IsWord-bin_op ha hb refl (flag-lt (x == y)))

  sgt_mask-Computes :
      Computes env reg_8 (sgt_mask reg_8) (λ p q. mask_of 8 (lt_ℤ (signed 8 q) (signed 8 p)))
  sgt_mask-Computes a b x y ha hb =
      mask-IsWord (lt_ℤ (signed 8 y) (signed 8 x))
        (IsWord-bin_op hb ha refl (flag-lt (lt_ℤ (signed 8 y) (signed 8 x))))

  module _ {a b : Exp} {x y : ℕ} (ha : IsWord env a reg_64 x) (hb : IsWord env b reg_64 y) where
    -- On two words of eight bytes, the comparison is 255 in the lanes where the bytes are
    -- equal, and 0 in the others.
    pub translate_CmpEQ8x8_lem :
        IsWord env (translate_CmpEQ8x8 a b) reg_64 (lanes 8 8 (λ p q. mask_of 8 (p == q)) x y)
    unfolding translate_CmpEQ8x8
    translate_CmpEQ8x8_lem = each8x8_lem _ _ eq_mask-Computes ha hb

    -- On two words of eight bytes, the signed comparison is 255 in the lanes where the first
    -- byte is the greater as an integer, and 0 in the others.
    pub translate_CmpGT8Sx8_lem :
        IsWord env
          (translate_CmpGT8Sx8 a b)
          reg_64
          (lanes 8 8 (λ p q. mask_of 8 (lt_ℤ (signed 8 q) (signed 8 p))) x y)
    unfolding translate_CmpGT8Sx8
    translate_CmpGT8Sx8_lem = each8x8_lem _ _ sgt_mask-Computes ha hb

    -- On two words of eight bytes, the lane-wise operation `op` applies to each lane the
    -- function `f` that `op` is on bytes, where `f` of two bytes is a byte.
    pub translate_par8x8_binop_lem :
        (op : BinopT) (f : ℕ → ℕ → ℕ)
        → ((p q : ℕ) → apply_binop op (val reg_8 p) (val reg_8 q) ≡ some (val reg_8 (f p q)))
        → ((p q : ℕ) → p < 2 ^ 8 → q < 2 ^ 8 → f p q < 2 ^ 8)
        → IsWord env (translate_par8x8_binop op a b) reg_64 (lanes 8 8 f x y)
    unfolding translate_par8x8_binop
    translate_par8x8_binop_lem op f meaning bound =
        each8x8_lem (bin_op op) f
          (λ a b p q hp hq. IsWord-bin_op hp hq (meaning p q) (bound p q hp.fits hq.fits)) ha hb

  max8-Computes : Computes env reg_8 (minmax8 lt true) max
  max8-Computes a b x y ha hb =
      IsWord-eq (IsWord-ite (IsWord-bin_op hb ha refl (flag-lt (ltb y x))) ha hb) (ground arith)

  min8-Computes : Computes env reg_8 (minmax8 lt false) min
  min8-Computes a b x y ha hb =
      IsWord-eq (IsWord-ite (IsWord-bin_op ha hb refl (flag-lt (ltb x y))) ha hb) (ground arith)

  smax8-Computes : Computes env reg_8 (minmax8 slt true) (smax 8)
  smax8-Computes a b x y ha hb =
      IsWord-eq
        (IsWord-ite (IsWord-bin_op hb ha refl (flag-lt (lt_ℤ (signed 8 y) (signed 8 x)))) ha hb)
        (if_flag (lt_ℤ (signed 8 y) (signed 8 x)) x y)

  smin8-Computes : Computes env reg_8 (minmax8 slt false) (smin 8)
  smin8-Computes a b x y ha hb =
      IsWord-eq
        (IsWord-ite (IsWord-bin_op ha hb refl (flag-lt (lt_ℤ (signed 8 x) (signed 8 y)))) ha hb)
        (if_flag (lt_ℤ (signed 8 x) (signed 8 y)) x y)

  module _ {a b : Exp} {x y : ℕ} (ha : IsWord env a reg_64 x) (hb : IsWord env b reg_64 y) where
    -- On two words of eight bytes, the four operations that the translator makes give the
    -- greatest and the least byte of each lane, unsigned and signed.
    pub translate_minmax8x8_lem :
        IsWord env (translate_minmax8x8 lt true a b) reg_64 (lanes 8 8 max x y)
        × IsWord env (translate_minmax8x8 lt false a b) reg_64 (lanes 8 8 min x y)
        × IsWord env (translate_minmax8x8 slt true a b) reg_64 (lanes 8 8 (smax 8) x y)
        × IsWord env (translate_minmax8x8 slt false a b) reg_64 (lanes 8 8 (smin 8) x y)
    unfolding translate_minmax8x8
    translate_minmax8x8_lem = (
      each8x8_lem _ _ max8-Computes ha hb,
      each8x8_lem _ _ min8-Computes ha hb,
      each8x8_lem _ _ smax8-Computes ha hb,
      each8x8_lem _ _ smin8-Computes ha hb,
    )

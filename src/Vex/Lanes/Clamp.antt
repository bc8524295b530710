-- ===== src/Vex/Lanes/Clamp.antt =====
-- Halving and saturating additions and subtractions of bytes.
use Prim.Native.Nat.{min}
use fuzzball.Ir.Build.{ex_const_of, ex_gt, ex_ite, ex_l_cast, ex_lt}
use fuzzball.Ir.Eval.{Env}
use fuzzball.Ir.Types.{Exp, minus, plus, reg_16, reg_32, reg_8}
use fuzzball.Ir.Words.{
  IsWord, IsWord-bin_op, IsWord-cast, IsWord-constant, IsWord-constant_mod, IsWord-eq, IsWord-ite,
}
use fuzzball.Prelude.{
  ap, arith, false, if◌then◌else◌, leb, ltb, refl, true, ℕ, ◌%◌, ◌+◌, ◌-◌, ◌/◌, ◌<◌, ◌==◌, ◌^◌, ◌≡◌,
}
use fuzzball.Prelude.Int.{signed, to_word}
use fuzzball.Vex.Assemble.Laws.{lanes, low-IsWord}
use fuzzball.Vex.Lanes.{
  halving_binop8, saturating_binop8, translate_halving4x8_binop, translate_saturating4x8_binop,
}
use fuzzball.Vex.Lanes.Byte.{flag-lt}
use fuzzball.Vex.Lanes.Each.{Computes, each4x8_lem}

-- The value of `clamped` in `saturating_binop8`, which compares 16-bit words as unsigned.
abbrev clamp : ℕ → ℕ → ℕ → ℕ
clamp lo hi r = if ltb r lo then lo else if ltb hi r then hi else r

clamp_flags :
    (lo hi r : ℕ)
    → (if (if ltb r lo then 1 else 0) == 0
        then (if (if ltb hi r then 1 else 0) == 0 then r else hi)
        else lo)
      ≡ clamp lo hi r
clamp_flags lo hi r = ground arith

-- The sum of two bytes as signed 16-bit words.
abbrev pub signed_sum : ℕ → ℕ → ℕ
signed_sum p q = (to_word 16 (signed 8 p) + to_word 16 (signed 8 q)) % 2 ^ 16

signed_byte : (p : ℕ) → p < 2 ^ 8 → to_word 16 (signed 8 p) < 2 ^ 16
signed_byte p h = ground arith

clamp_signed : (r : ℕ) → clamp 0xff80 127 r % 2 ^ 8 ≡ (if leb 0xff80 r then 127 else 128)
clamp_signed r = ground arith

module _ {env : Env} where
  clamped_byte :
      {r : Exp} {s : ℕ} (lo hi : ℕ)
      → IsWord env r reg_16 s
      → IsWord env
          (ex_l_cast
            (ex_ite
              (ex_lt r (ex_const_of reg_16 lo))
              (ex_const_of reg_16 lo)
              (ex_ite (ex_gt r (ex_const_of reg_16 hi)) (ex_const_of reg_16 hi) r))
            reg_8)
          reg_8
          (clamp (lo % 2 ^ 16) (hi % 2 ^ 16) s % 2 ^ 8)
  clamped_byte {s = s} lo hi h =
      let low = IsWord-constant_mod reg_16 lo in
      let high = IsWord-constant_mod reg_16 hi in
      IsWord-eq
        (low-IsWord reg_8
          (IsWord-ite (IsWord-bin_op h low refl (flag-lt (ltb s (lo % 2 ^ 16)))) low
            (IsWord-ite (IsWord-bin_op h high refl (flag-lt (ltb (hi % 2 ^ 16) s))) high h))
          refl)
        (ap (λ (c : ℕ). c % 2 ^ 8) (clamp_flags (lo % 2 ^ 16) (hi % 2 ^ 16) s))

  half_add-Computes : Computes env reg_8 (halving_binop8 plus false) (λ p q. (p + q) / 2)
  unfolding halving_binop8
  half_add-Computes a b x y ha hb =
      IsWord-eq
        (low-IsWord reg_8
          (IsWord-bin_op
            (IsWord-bin_op (IsWord-cast ha refl (omega arith)) (IsWord-cast hb refl (omega arith))
              refl (omega arith))
            (IsWord-constant reg_32 1 (omega arith)) refl (omega arith))
          refl)
        (omega arith)

  sat_add-Computes : Computes env reg_8 (saturating_binop8 plus false) (λ p q. min 255 (p + q))
  unfolding saturating_binop8
  sat_add-Computes a b x y ha hb =
      IsWord-eq
        (clamped_byte 0 255 (
          IsWord-bin_op (IsWord-cast ha refl (omega arith)) (IsWord-cast hb refl (omega arith)) refl
            (omega arith)))
        (ground arith)

  -- A negative difference is a large 16-bit word, so it is cut to 255.
  sat_sub-Computes :
      Computes env reg_8 (saturating_binop8 minus false) (λ p q. if leb q p then p - q else 255)
  unfolding saturating_binop8
  sat_sub-Computes a b x y ha hb =
      IsWord-eq
        (clamped_byte 0 255 (
          IsWord-bin_op (IsWord-cast ha refl (omega arith)) (IsWord-cast hb refl (omega arith)) refl
            (omega arith)))
        (ground arith)

  -- The lower bound -128 is the largest word but 127, so only a sum from -128 to -1 passes it, and that
  -- is above the upper bound.
  sat_sadd-Computes :
      Computes env reg_8
        (saturating_binop8 plus true)
        (λ p q. if leb 0xff80 (signed_sum p q) then 127 else 128)
  unfolding saturating_binop8
  sat_sadd-Computes a b x y ha hb =
      IsWord-eq
        (clamped_byte (2 ^ 64 - 128) 127 (
          IsWord-bin_op (IsWord-cast ha refl (signed_byte x ha.fits))
            (IsWord-cast hb refl (signed_byte y hb.fits)) refl (omega arith)))
        (clamp_signed (signed_sum x y))

  module _ {a b : Exp} {x y : ℕ} (ha : IsWord env a reg_32 x) (hb : IsWord env b reg_32 y) where
    -- On two words of four bytes, the unsigned halving addition gives half the sum of each
    -- lane, rounded down.
    pub halving4x8_add :
        IsWord env
          (translate_halving4x8_binop plus false a b)
          reg_32
          (lanes 8 4 (λ p q. (p + q) / 2) x y)
    unfolding translate_halving4x8_binop
    halving4x8_add = each4x8_lem _ _ half_add-Computes ha hb

    -- On two words of four bytes, the unsigned saturating addition gives in each lane the sum,
    -- or 255 where the sum is greater.
    pub saturating4x8_add :
        IsWord env
          (translate_saturating4x8_binop plus false a b)
          reg_32
          (lanes 8 4 (λ p q. min 255 (p + q)) x y)
    unfolding translate_saturating4x8_binop
    saturating4x8_add = each4x8_lem _ _ sat_add-Computes ha hb

    -- On two words of four bytes, the unsigned saturating subtraction gives in each lane the
    -- difference where it is not negative, and 255 where it is.
    pub saturating4x8_sub :
        IsWord env
          (translate_saturating4x8_binop minus false a b)
          reg_32
          (lanes 8 4 (λ p q. if leb q p then p - q else 255) x y)
    unfolding translate_saturating4x8_binop
    saturating4x8_sub = each4x8_lem _ _ sat_sub-Computes ha hb

    -- On two words of four bytes, the signed saturating addition gives 127 in the lanes whose
    -- sum, as a 16-bit word, is at least 0xff80, and 128 in all others.
    pub saturating4x8_signed_add :
        IsWord env
          (translate_saturating4x8_binop plus true a b)
          reg_32
          (lanes 8 4 (λ p q. if leb 0xff80 (signed_sum p q) then 127 else 128) x y)
    unfolding translate_saturating4x8_binop
    saturating4x8_signed_add = each4x8_lem _ _ sat_sadd-Computes ha hb

-- ===== src/X64/Flags/Laws.antt =====
-- The values of the expressions for the flags in `x64_modify_flags` (libasmir/src/vex/irtoir-x64.cpp).
use native.Mathlib.Nat.{mod-lt}
use fuzzball.I386.Flags.Compare.{
  as_flag, difference, ones, overflow-eq, overflows, parity_of_eight, signed_less, signed_order,
  top_bit, xor-eval, biased,
}
use fuzzball.I386.Flags.Run.{}
use fuzzball.Ir.Build.{
  ex_eq, ex_const_of, ex_h_cast, ex_lt, ex_get_bit, ex_xor, ex_xor_3, ex_slt, ex_sub,
}
use fuzzball.Ir.Eval.{Env, eval, val}
use fuzzball.Ir.Types.{Exp, RegT, reg_1, reg_16, reg_32, reg_64, reg_8, reg_to_bits}
use fuzzball.Ir.Words.{two_pow_pos}
use fuzzball.Prelude.{
  ap, arith, bit_xor, leb, ltb, refl, some, ℕ, ◌%◌, ◌-◌, ◌/◌, ◌<◌, ◌==◌, ◌^◌, ◌∙◌, ◌≡◌, ◌≤◌,
}
use fuzzball.Prelude.Digits.{bit_xor-parity, bit_xor-sixteen}
use fuzzball.X64.Flags.{narrow64, parity8}

pub fits_64 : (t : RegT) (x : ℕ) → x < 2 ^ reg_to_bits t → x < 2 ^ 64
fits_64 reg_1 x u = omega arith
fits_64 reg_8 x u = omega arith
fits_64 reg_16 x u = omega arith
fits_64 reg_32 x u = omega arith
fits_64 reg_64 x u = omega arith

cut_twice : (t : RegT) (x : ℕ) → x < 2 ^ reg_to_bits t → x % 2 ^ reg_to_bits t ≡ x
cut_twice reg_1 x u = omega arith
cut_twice reg_8 x u = omega arith
cut_twice reg_16 x u = omega arith
cut_twice reg_32 x u = omega arith
cut_twice reg_64 x u = omega arith

pub difference-cut :
    (t : RegT) (x y : ℕ)
    → x < 2 ^ reg_to_bits t
    → y < 2 ^ reg_to_bits t
    → difference 64 x y % 2 ^ reg_to_bits t ≡ difference (reg_to_bits t) x y
difference-cut reg_1 x y p q = omega arith
difference-cut reg_8 x y p q = omega arith
difference-cut reg_16 x y p q = omega arith
difference-cut reg_32 x y p q = omega arith
difference-cut reg_64 x y p q = omega arith

-- The bit of the exclusive or where the lowest hexadecimal digit borrows.
borrow_bit :
    (x y : ℕ)
    → x < 2 ^ 64
    → y < 2 ^ 64
    → bit_xor (difference 64 x y) (bit_xor x y) / 16 % 2 ≡ as_flag (ltb (x % 16) (y % 16))
borrow_bit x y p q =
    let r = difference 64 x y in
    ground (
      arith,
      bit_xor-sixteen r (bit_xor x y),
      bit_xor-sixteen x y,
      bit_xor-parity (r / 16) (bit_xor x y / 16),
      bit_xor-parity (x / 16) (y / 16),
    )

module _ (env : Env) where
  pub parity8_lem :
      (t : RegT) (e : Exp) (x : ℕ)
      → 8 ≤ reg_to_bits t
      → x < 2 ^ reg_to_bits t
      → eval env e ≡ some (val t x)
      → eval env (parity8 e) ≡ some (val reg_1 (as_flag (ones x % 2 == 0)))
  unfolding eval parity8
  parity8_lem reg_1 e x l u h = absurd (omega arith)
  parity8_lem reg_8 e x l u h =
      let digits =
        parity_of_eight (x / 128 % 2 ^ 8) (x / 64 % 2 ^ 8) (x / 32 % 2 ^ 8) (x / 16 % 2 ^ 8)
          (x / 8 % 2 ^ 8) (x / 4 % 2 ^ 8) (x / 2 % 2 ^ 8) x in
      rw h (ap (λ (n : ℕ). some (val reg_1 n)) (ground (arith, digits)))
  parity8_lem reg_16 e x l u h =
      let digits =
        parity_of_eight (x / 128 % 2 ^ 16) (x / 64 % 2 ^ 16) (x / 32 % 2 ^ 16) (x / 16 % 2 ^ 16)
          (x / 8 % 2 ^ 16) (x / 4 % 2 ^ 16) (x / 2 % 2 ^ 16) x in
      rw h (ap (λ (n : ℕ). some (val reg_1 n)) (ground (arith, digits)))
  parity8_lem reg_32 e x l u h =
      let digits =
        parity_of_eight (x / 128 % 2 ^ 32) (x / 64 % 2 ^ 32) (x / 32 % 2 ^ 32) (x / 16 % 2 ^ 32)
          (x / 8 % 2 ^ 32) (x / 4 % 2 ^ 32) (x / 2 % 2 ^ 32) x in
      rw h (ap (λ (n : ℕ). some (val reg_1 n)) (ground (arith, digits)))
  parity8_lem reg_64 e x l u h =
      let digits =
        parity_of_eight (x / 128 % 2 ^ 64) (x / 64 % 2 ^ 64) (x / 32 % 2 ^ 64) (x / 16 % 2 ^ 64)
          (x / 8 % 2 ^ 64) (x / 4 % 2 ^ 64) (x / 2 % 2 ^ 64) x in
      rw h (ap (λ (n : ℕ). some (val reg_1 n)) (ground (arith, digits)))

  pub narrow64-eval :
      (t : RegT) (e : Exp) (x : ℕ)
      → x < 2 ^ 64
      → eval env e ≡ some (val reg_64 x)
      → eval env (narrow64 e t) ≡ some (val t (x % 2 ^ reg_to_bits t))
  unfolding eval narrow64
  narrow64-eval reg_1 e x u h = rw h refl
  narrow64-eval reg_8 e x u h = rw h refl
  narrow64-eval reg_16 e x u h = rw h refl
  narrow64-eval reg_32 e x u h = rw h refl
  narrow64-eval reg_64 e x u h = rw h (ground arith)

  pub narrow64-fits :
      (t : RegT) (e : Exp) (x : ℕ)
      → x < 2 ^ reg_to_bits t
      → eval env e ≡ some (val reg_64 x)
      → eval env (narrow64 e t) ≡ some (val t x)
  narrow64-fits t e x u h =
      narrow64-eval t e x (fits_64 t x u) h ∙ ap (λ n. some (val t n)) (cut_twice t x u)

  pub is_zero :
      (t : RegT) (e : Exp) (x : ℕ)
      → eval env e ≡ some (val t x)
      → eval env (ex_eq e (ex_const_of t 0)) ≡ some (val reg_1 (as_flag (x == 0)))
  unfolding eval
  is_zero reg_1 e x h = rw h refl
  is_zero reg_8 e x h = rw h refl
  is_zero reg_16 e x h = rw h refl
  is_zero reg_32 e x h = rw h refl
  is_zero reg_64 e x h = rw h refl

  pub minus-eval :
      (a b : Exp) (x y : ℕ)
      → y < 2 ^ 64
      → eval env a ≡ some (val reg_64 x)
      → eval env b ≡ some (val reg_64 y)
      → eval env (ex_sub a b) ≡ some (val reg_64 (difference 64 x y))
  unfolding eval
  minus-eval a b x y q ha hb = rw (ha, hb) (ground arith)

  pub less :
      (a b : Exp) (x y : ℕ)
      → eval env a ≡ some (val reg_64 x)
      → eval env b ≡ some (val reg_64 y)
      → eval env (ex_lt a b) ≡ some (val reg_1 (as_flag (ltb x y)))
  unfolding eval
  less a b x y ha hb = rw (ha, hb) refl

  pub borrow_lem :
      (e a b : Exp) (x y : ℕ)
      → x < 2 ^ 64
      → y < 2 ^ 64
      → eval env e ≡ some (val reg_64 (difference 64 x y))
      → eval env a ≡ some (val reg_64 x)
      → eval env b ≡ some (val reg_64 y)
      → eval env (ex_get_bit (ex_xor_3 e a b) 4)
        ≡ some (val reg_1 (as_flag (ltb (x % 16) (y % 16))))
  unfolding eval
  borrow_lem e a b x y p q he ha hb =
      let z = bit_xor (difference 64 x y) (bit_xor x y) in
      let cut : z / 2 ^ 4 % 2 ^ 64 % 2 ≡ z / 16 % 2 = omega arith in
      rw (he, ha, hb) (ap (λ (n : ℕ). some (val reg_1 n)) (cut ∙ borrow_bit x y p q))

  pub overflow_lem :
      (t : RegT) (e a b : Exp) (x y : ℕ)
      → 8 ≤ reg_to_bits t
      → x < 2 ^ reg_to_bits t
      → y < 2 ^ reg_to_bits t
      → eval env e ≡ some (val t (difference (reg_to_bits t) x y))
      → eval env a ≡ some (val reg_64 x)
      → eval env b ≡ some (val reg_64 y)
      → eval env (ex_xor (ex_h_cast e reg_1) (ex_slt (narrow64 a t) (narrow64 b t)))
        ≡ some (val reg_1 (as_flag (overflows (reg_to_bits t) x y)))
  overflow_lem t e a b x y l p q he ha hb =
      let w = reg_to_bits t in
      xor-eval env (ex_h_cast e reg_1) (ex_slt (narrow64 a t) (narrow64 b t))
        (leb (2 ^ (w - 1)) (difference w x y)) (ltb (biased w x) (biased w y))
        (top_bit env t e (difference w x y) l (mod-lt _ (two_pow_pos w)) he)
        (rw⁻¹ (signed_order t x y l p q) (
          signed_less env t (narrow64 a t) (narrow64 b t) x y (narrow64-fits t a x p ha)
            (narrow64-fits t b y q hb)))
      ∙ ap (λ b. some (val reg_1 (as_flag b))) (overflow-eq t x y l p q)

-- ===== src/Vex/Multiply/Laws.antt =====
-- The products are exact, and a division gives quotient and remainder.
use native.Mathlib.Nat.{mod-eq_of_lt, mod-lt}
use fuzzball.Ir.Eval.{Env, apply_binop, unless_zero, val, word}
use fuzzball.Ir.Types.{Exp, cast_unsigned, divide, modulo, reg_16, reg_32, reg_64, reg_8}
use fuzzball.Ir.Words.{IsWord, IsWord-bin_op, IsWord-cast, IsWord-eq, two_pow_pos}
use fuzzball.Prelude.{
  arith, refl, some, suc, zero, ℕ, ◌%◌, ◌*◌, ◌+◌, ◌-◌, ◌/◌, ◌<◌, ◌^◌, ◌≡◌, ◌≢◌, ◌≤◌,
}
use fuzzball.Prelude.Int.{abs, neg_of, negsuc, pos, signed, to_word, ℤ, ◌*ℤ◌}
use fuzzball.Vex.Assemble.Laws.{translate_64HLto64_lem}
use fuzzball.Vex.Multiply.{
  translate_DivModU64to32, translate_MullS16, translate_MullS32, translate_MullS8,
  translate_MullU16, translate_MullU32, translate_MullU8,
}

product-lt : (x y m : ℕ) → x < m → y < m → x * y < m * m
product-lt x y m p q = grind arith

-- `(m - a) * b` and `a * b` cancel.
mul_minus : (m a b : ℕ) → a ≤ m → (m - a) * b + a * b ≡ m * b
mul_minus m a b h = grind arith

mul_minus_both : (m a b : ℕ) → a ≤ m → b ≤ m → (m - a) * (m - b) + (a + b) * m ≡ m * m + a * b
mul_minus_both m a b p q =
    omega (arith, mul_minus m a (m - b) p, mul_minus m b a q, mul_minus m b m q)

to_word16-neg_of : (n : ℕ) → to_word 16 (neg_of n) ≡ (2 ^ 16 - n % 2 ^ 16) % 2 ^ 16
to_word16-neg_of zero = refl
to_word16-neg_of (suc n) = omega arith

to_word16-mul :
    (i j : ℤ)
    → abs i ≤ 2 ^ 8
    → abs j ≤ 2 ^ 8
    → to_word 16 i * to_word 16 j % 2 ^ 16 ≡ to_word 16 (i *ℤ j)
to_word16-mul (pos a) (pos b) p q =
    let e : a % 2 ^ 16 ≡ a = omega arith in let f : b % 2 ^ 16 ≡ b = omega arith in rw (e, f)
to_word16-mul (pos a) (negsuc b) p q =
    let e : a % 2 ^ 16 ≡ a = omega arith in
    let f : 2 ^ 16 - 1 - b % 2 ^ 16 ≡ 2 ^ 16 - suc b = omega arith in
    rw (e, f, to_word16-neg_of (a * suc b))
      (omega (arith, mul_minus (2 ^ 16) (suc b) a (omega arith)))
to_word16-mul (negsuc a) (pos b) p q =
    let e : b % 2 ^ 16 ≡ b = omega arith in
    let f : 2 ^ 16 - 1 - a % 2 ^ 16 ≡ 2 ^ 16 - suc a = omega arith in
    rw (e, f, to_word16-neg_of (suc a * b))
      (omega (arith, mul_minus (2 ^ 16) (suc a) b (omega arith)))
to_word16-mul (negsuc a) (negsuc b) p q =
    let e : 2 ^ 16 - 1 - a % 2 ^ 16 ≡ 2 ^ 16 - suc a = omega arith in
    let f : 2 ^ 16 - 1 - b % 2 ^ 16 ≡ 2 ^ 16 - suc b = omega arith in
    rw (e, f) (omega (arith, mul_minus_both (2 ^ 16) (suc a) (suc b) (omega arith) (omega arith)))

to_word32-neg_of : (n : ℕ) → to_word 32 (neg_of n) ≡ (2 ^ 32 - n % 2 ^ 32) % 2 ^ 32
to_word32-neg_of zero = refl
to_word32-neg_of (suc n) = omega arith

to_word32-mul :
    (i j : ℤ)
    → abs i ≤ 2 ^ 16
    → abs j ≤ 2 ^ 16
    → to_word 32 i * to_word 32 j % 2 ^ 32 ≡ to_word 32 (i *ℤ j)
to_word32-mul (pos a) (pos b) p q =
    let e : a % 2 ^ 32 ≡ a = omega arith in let f : b % 2 ^ 32 ≡ b = omega arith in rw (e, f)
to_word32-mul (pos a) (negsuc b) p q =
    let e : a % 2 ^ 32 ≡ a = omega arith in
    let f : 2 ^ 32 - 1 - b % 2 ^ 32 ≡ 2 ^ 32 - suc b = omega arith in
    rw (e, f, to_word32-neg_of (a * suc b))
      (omega (arith, mul_minus (2 ^ 32) (suc b) a (omega arith)))
to_word32-mul (negsuc a) (pos b) p q =
    let e : b % 2 ^ 32 ≡ b = omega arith in
    let f : 2 ^ 32 - 1 - a % 2 ^ 32 ≡ 2 ^ 32 - suc a = omega arith in
    rw (e, f, to_word32-neg_of (suc a * b))
      (omega (arith, mul_minus (2 ^ 32) (suc a) b (omega arith)))
to_word32-mul (negsuc a) (negsuc b) p q =
    let e : 2 ^ 32 - 1 - a % 2 ^ 32 ≡ 2 ^ 32 - suc a = omega arith in
    let f : 2 ^ 32 - 1 - b % 2 ^ 32 ≡ 2 ^ 32 - suc b = omega arith in
    rw (e, f) (omega (arith, mul_minus_both (2 ^ 32) (suc a) (suc b) (omega arith) (omega arith)))

to_word64-neg_of : (n : ℕ) → to_word 64 (neg_of n) ≡ (2 ^ 64 - n % 2 ^ 64) % 2 ^ 64
to_word64-neg_of zero = refl
to_word64-neg_of (suc n) = omega arith

to_word64-mul :
    (i j : ℤ)
    → abs i ≤ 2 ^ 32
    → abs j ≤ 2 ^ 32
    → to_word 64 i * to_word 64 j % 2 ^ 64 ≡ to_word 64 (i *ℤ j)
to_word64-mul (pos a) (pos b) p q =
    let e : a % 2 ^ 64 ≡ a = omega arith in let f : b % 2 ^ 64 ≡ b = omega arith in rw (e, f)
to_word64-mul (pos a) (negsuc b) p q =
    let e : a % 2 ^ 64 ≡ a = omega arith in
    let f : 2 ^ 64 - 1 - b % 2 ^ 64 ≡ 2 ^ 64 - suc b = omega arith in
    rw (e, f, to_word64-neg_of (a * suc b))
      (omega (arith, mul_minus (2 ^ 64) (suc b) a (omega arith)))
to_word64-mul (negsuc a) (pos b) p q =
    let e : b % 2 ^ 64 ≡ b = omega arith in
    let f : 2 ^ 64 - 1 - a % 2 ^ 64 ≡ 2 ^ 64 - suc a = omega arith in
    rw (e, f, to_word64-neg_of (suc a * b))
      (omega (arith, mul_minus (2 ^ 64) (suc a) b (omega arith)))
to_word64-mul (negsuc a) (negsuc b) p q =
    let e : 2 ^ 64 - 1 - a % 2 ^ 64 ≡ 2 ^ 64 - suc a = omega arith in
    let f : 2 ^ 64 - 1 - b % 2 ^ 64 ≡ 2 ^ 64 - suc b = omega arith in
    rw (e, f) (omega (arith, mul_minus_both (2 ^ 64) (suc a) (suc b) (omega arith) (omega arith)))

unless_zero-word :
    (d n : ℕ) → d ≢ 0 → n < 2 ^ 64 → unless_zero d (word reg_64 n) ≡ some (val reg_64 n)
unless_zero-word zero n nz h = absurd (nz refl)
unless_zero-word (suc d) n nz h = rw (mod-eq_of_lt h)

to_word-lt : (w : ℕ) (i : ℤ) → to_word w i < 2 ^ w
to_word-lt w (pos n) = mod-lt n (two_pow_pos w)
to_word-lt w (negsuc n) = omega (arith, two_pow_pos w)

abs-signed-le : (w x : ℕ) → x < 2 ^ w → abs (signed w x) ≤ 2 ^ w
abs-signed-le w x h = ground arith

module _ {env : Env} {a b : Exp} {x y : ℕ} where
  pub translate_MullU8_lem :
      IsWord env a reg_8 x → IsWord env b reg_8 y → IsWord env (translate_MullU8 a b) reg_16 (x * y)
  unfolding translate_MullU8
  translate_MullU8_lem ha hb =
      let small : x * y < 2 ^ 8 * 2 ^ 8 = product-lt x y (2 ^ 8) ha.fits hb.fits in
      IsWord-eq
        (IsWord-bin_op (IsWord-cast ha refl (omega arith)) (IsWord-cast hb refl (omega arith)) refl
          (omega arith))
        (omega arith)

  pub translate_MullU16_lem :
      IsWord env a reg_16 x
      → IsWord env b reg_16 y
      → IsWord env (translate_MullU16 a b) reg_32 (x * y)
  unfolding translate_MullU16
  translate_MullU16_lem ha hb =
      let small : x * y < 2 ^ 16 * 2 ^ 16 = product-lt x y (2 ^ 16) ha.fits hb.fits in
      IsWord-eq
        (IsWord-bin_op (IsWord-cast ha refl (omega arith)) (IsWord-cast hb refl (omega arith)) refl
          (omega arith))
        (omega arith)

  -- The unsigned multiplication of two 32-bit words gives their product in 64 bits.
  pub translate_MullU32_lem :
      IsWord env a reg_32 x
      → IsWord env b reg_32 y
      → IsWord env (translate_MullU32 a b) reg_64 (x * y)
  unfolding translate_MullU32
  translate_MullU32_lem ha hb =
      let small : x * y < 2 ^ 32 * 2 ^ 32 = product-lt x y (2 ^ 32) ha.fits hb.fits in
      IsWord-eq
        (IsWord-bin_op (IsWord-cast ha refl (omega arith)) (IsWord-cast hb refl (omega arith)) refl
          (omega arith))
        (omega arith)

  -- The signed multiplication of two bytes gives the 16-bit word of the product of their
  -- integers.
  pub translate_MullS8_lem :
      IsWord env a reg_8 x
      → IsWord env b reg_8 y
      → IsWord env (translate_MullS8 a b) reg_16 (to_word 16 (signed 8 x *ℤ signed 8 y))
  unfolding translate_MullS8
  translate_MullS8_lem ha hb =
      let exact =
        to_word16-mul (signed 8 x) (signed 8 y) (abs-signed-le 8 x ha.fits)
          (abs-signed-le 8 y hb.fits) in
      IsWord-eq
        (IsWord-bin_op (IsWord-cast ha refl (to_word-lt 16 (signed 8 x)))
          (IsWord-cast hb refl (to_word-lt 16 (signed 8 y))) refl (omega arith))
        exact

  -- The signed multiplication of two 16-bit words gives the 32-bit word of the product of their
  -- integers.
  pub translate_MullS16_lem :
      IsWord env a reg_16 x
      → IsWord env b reg_16 y
      → IsWord env (translate_MullS16 a b) reg_32 (to_word 32 (signed 16 x *ℤ signed 16 y))
  unfolding translate_MullS16
  translate_MullS16_lem ha hb =
      let exact =
        to_word32-mul (signed 16 x) (signed 16 y) (abs-signed-le 16 x ha.fits)
          (abs-signed-le 16 y hb.fits) in
      IsWord-eq
        (IsWord-bin_op (IsWord-cast ha refl (to_word-lt 32 (signed 16 x)))
          (IsWord-cast hb refl (to_word-lt 32 (signed 16 y))) refl (omega arith))
        exact

  -- The signed multiplication of two 32-bit words gives the 64-bit word of the product of their
  -- integers.
  pub translate_MullS32_lem :
      IsWord env a reg_32 x
      → IsWord env b reg_32 y
      → IsWord env (translate_MullS32 a b) reg_64 (to_word 64 (signed 32 x *ℤ signed 32 y))
  unfolding translate_MullS32
  translate_MullS32_lem ha hb =
      let exact =
        to_word64-mul (signed 32 x) (signed 32 y) (abs-signed-le 32 x ha.fits)
          (abs-signed-le 32 y hb.fits) in
      IsWord-eq
        (IsWord-bin_op (IsWord-cast ha refl (to_word-lt 64 (signed 32 x)))
          (IsWord-cast hb refl (to_word-lt 64 (signed 32 y))) refl (omega arith))
        exact

  -- Dividing a 64-bit word by a 32-bit word that is not 0 gives the remainder in the high half
  -- and the quotient modulo 2^32 in the low half.
  pub translate_DivModU64to32_lem :
      IsWord env a reg_64 x
      → IsWord env b reg_32 y
      → y ≢ 0
      → IsWord env (translate_DivModU64to32 a b) reg_64 (x % y * 2 ^ 32 + x / y % 2 ^ 32)
  unfolding translate_DivModU64to32
  translate_DivModU64to32_lem ha hb nz =
      let wide = IsWord-cast {c = cast_unsigned} {v = reg_64} {z = y} hb refl (omega arith) in
      let q : x / y ≤ x = grind arith in
      let r : x % y < y = grind arith in
      let div : apply_binop divide (val reg_64 x) (val reg_64 y) ≡ some (val reg_64 (x / y)) =
        unless_zero-word y (x / y) nz (omega arith) in
      let rem : apply_binop modulo (val reg_64 x) (val reg_64 y) ≡ some (val reg_64 (x % y)) =
        unless_zero-word y (x % y) nz (omega arith) in
      IsWord-eq
        (translate_64HLto64_lem (IsWord-bin_op ha wide rem (omega arith))
          (IsWord-bin_op ha wide div (omega arith)))
        (omega arith)
